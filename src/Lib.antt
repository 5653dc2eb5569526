-- ===== src/Lib.antt =====
-- spoofdb answers clients of Postgres, MySQL and ClickHouse from one DuckDB engine, and clients of
-- Redis from embedded stores. This library models the part of it that decides what a client is
-- told: the engine's handling of results and errors, the report of approximations, the Postgres
-- and MySQL front ends, the connection of a ClickHouse client, the loading of an engine from its
-- sources, the seeding of Redis stores, and the start-up from flags and a configuration. A front end rewrites the text of a statement, runs it on the engine, encodes the
-- result for its protocol and tells the client which values could not be shown as they are.
--
-- The files and the code (paths from the repository's root):
--   Base, Text, Decimal, Sort, Value   the language and its standard library: lists and tests, the
--     functions of package strings, decimal numbers of strconv, sorting, the values that a driver
--     scans into an `any` with what fmt prints of them
--   Fidelity       internal/fidelity/fidelity.go: Report, Add, Warnings, Summary, ExceedsInt64
--   Engine/Errors  internal/engine/duckdb.go: classifyErr, missingRelationName, firstLine
--   Engine/Run     internal/engine/duckdb.go: the fields of Engine for stub mode, logOnce, runOn
--   Engine/Sources internal/engine/duckdb.go: register, loadDir, fileTable, quoteIdent, the loop of
--     attachSnapshot and the filter of attachedTables
--   Engine/Attach  internal/engine/duckdb.go: attachSnapshot, attachedTables
--   Engine/Pull    internal/engine/source_clickhouse.go: clickhousePull, clickhouseTables,
--     copyClickhouseTable
--   Engine/Load    internal/engine/duckdb.go: load, NewFromSourcesAt, NewFromSources, New
--   Engine/Types   internal/engine/source_clickhouse.go: chToDuckType, normalizeForDuck
--   Pg/Params      internal/pg/handler.go: scanParams, maxParamIndex, substituteParams
--   Pg/Statement   internal/pg/handler.go: firstKeyword, returnsRows, commandTag, oidForType
--   Pg/Encode      internal/pg/handler.go: encodeValue, toInt, toFloat, toBool, toTime
--   Pg/Report      internal/pg/fidelity.go: report
--   Pg/Wire        internal/pg/handler.go: rowDescription, dataRow, emitFidelity, the messages
--   Pg/State       internal/pg/handler.go: portal, session, txStatus, trackTx
--   Pg/Session     internal/pg/handler.go: the other methods of session, the loop of handleConn
--   Pg/Startup     internal/pg/handler.go: startup, handleConn
--   Mysql/Text     internal/mysql/handler.go: the rewriting of statements
--   Mysql/Report   internal/mysql/fidelity.go: report
--   Mysql/Handler  internal/mysql/handler.go: handler, exec, showWarnings, coerce
--   Clickhouse/Columns  internal/clickhouse/columns.go
--   Clickhouse/Report   internal/clickhouse/fidelity.go
--   Clickhouse/Wire     what internal/clickhouse/handler.go reads and writes
--   Clickhouse/Packets  internal/clickhouse/handler.go: sendResult, writeBlockPacket, writeLogPacket,
--     sendException
--   Clickhouse/Session  internal/clickhouse/handler.go: chSession, handleConn and what it calls
--   Config             internal/config/config.go: the types, ResolvedDSN
--   Redis/Seed         internal/redis/seed.go
--   Redis/Start        internal/redis/redis.go
--   Startup/Sources    cmd/spoofdb/main.go: selectSources, engineKey, engineFor, sortedKeys
--   Startup/Flags      cmd/spoofdb/cli.go: parseSource, parseSpoof, defaultPort
--   Startup/Instances  cmd/spoofdb/cli.go: configFromFlags
--   Startup/Shards     cmd/spoofdb/main.go: main from the configuration on
--   Tests          runs of the definitions, and an instance of each theorem with conditions
-- The modules below these hold the proofs.
--
-- How the code is modelled. State is passed: a record for each of Engine, session and handler, and
-- what is sent or logged is a list that grows. Of the buffer of a write that fails a client may
-- have got the first bytes: the ClickHouse session keeps such a buffer apart (`lost`), the
-- start-up of Postgres records the writes that succeed only. A string is the list of its
-- characters. An integer keeps the range of its Go type where the code converts. The only fuel is
-- that of `print_nat`, which takes one step for each digit, and a number has fewer digits than one
-- more than itself; that of `unwrap_all`, the length of the text, which each round shortens; and
-- that of the loops of a Postgres or ClickHouse connection, the number of bytes that the client
-- has yet to send, of which each round takes one. A client that never stops sending is not
-- modelled. The loops over a text skip characters by a counter, so they need no fuel.
--
-- What is a parameter: DuckDB, as a function from a state and a query to a state and an answer
-- (`query_context`); upper and lower case above ASCII (`Unicode`); arithmetic and printing of
-- floats and times (`Formats`); go-mysql's builders of result sets (`build`); os.Stat, os.Getenv
-- and the loading of an engine, where the start-up calls them; os.ReadDir, filepath.Join, the
-- statements that make tables and clickhouse-go, where sources are loaded (`Duck`, `Remote`); the
-- decoders of ch-go, the socket and the clock of a ClickHouse connection (`Wire`) and those of a
-- Postgres connection (`Link`), whose laws say that what is read takes a byte at least; miniredis and
-- the parser of dumps (`Mini`); os.Remove, net.Listen and redis.Start in main.
--
-- What is not modelled: goroutines and locks, the bytes of a ClickHouse packet, the closing of cursors,
-- the accept loops, the reading of the configuration file, the parsing of flags, and the wait for a
-- signal at the end of main.
mod Base
pub mod Text
pub mod Decimal
pub mod Sort
pub mod Value
pub mod Fidelity
pub mod Engine
pub mod Pg
pub mod Mysql
pub mod Clickhouse
pub mod Config
pub mod Redis
pub mod Startup
mod Tests
