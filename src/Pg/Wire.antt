-- ===== src/Pg/Wire.antt =====
-- internal/pg/handler.go: the messages of the protocol, and those that carry a result:
-- `rowDescription`, `dataRow` and `emitFidelity`.
use spoofdb.Base.{ℕ, ◌+◌, List, [], ◌∷◌, ◌++◌, Option, if◌then◌else◌}
use spoofdb.Text.{Str, codes, Unicode}
use spoofdb.Value.{Value, Column, QueryResult}
use spoofdb.Value.Print.{Formats}
use spoofdb.Fidelity.{Report, is_empty, warnings, summary}
use spoofdb.Pg.Statement.{oid_for_type, resolve_format}
use spoofdb.Pg.Encode.{encode_value}

-- one of the fields of a `RowDescription`: the rest of it is constant
pub record Field : Type 0 where
  pub name : Str
  pub oid : ℕ
  pub format : ℕ

-- the messages of `pgproto3` that the source tells apart; an object type is a byte
pub data Frontend : Type 0 where
  query : Str → Frontend
  parse : Str → Str → Frontend
  bind : Str → Str → List (Option Str) → List ℕ → Frontend
  describe_msg : ℕ → Str → Frontend
  execute_msg : Str → Frontend
  sync : Frontend
  flush_msg : Frontend
  close : ℕ → Str → Frontend
  terminate : Frontend
  unknown : Frontend

pub data Backend : Type 0 where
  parse_complete bind_complete close_complete no_data empty_query_response : Backend
  parameter_description : ℕ → Backend
  row_description : List Field → Backend
  data_row : List (Option Str) → Backend
  notice : Str → Backend
  command_complete : Str → Backend
  error_response : Str → Backend
  ready_for_query : ℕ → Backend

pub data Event : Type 0 where
  send : Backend → Event
  flush : Event
  logs : Str → Event

module _ ⦃u : Unicode⦄ where
  -- `rowDescription`
  abbrev fields_from : ℕ → List Column → List ℕ → List Field
  fields_from i [] formats = []
  fields_from i (c ∷ cs) formats =
      record { name = c.name; oid = oid_for_type c.type; format = resolve_format formats i }
      ∷ fields_from (i + 1) cs formats

  unfoldable pub row_desc : QueryResult → List ℕ → Backend
  row_desc res formats = row_description (fields_from 0 res.cols formats)

-- a `NoticeResponse` for each warning
abbrev pub notices : List Str → List Event
notices [] = []
notices (w ∷ ws) = send (notice (codes "spoofdb: " ++ w)) ∷ notices ws

module _ ⦃u : Unicode⦄ ⦃fm : Formats⦄ where
  -- `dataRow`; a value past the columns is text (25)
  abbrev cells_from : ℕ → List Column → List Value → List ℕ → List (Option Str)
  cells_from i cs [] formats = []
  cells_from i [] (v ∷ vs) formats =
      encode_value v 25 (resolve_format formats i) ∷ cells_from (i + 1) [] vs formats
  cells_from i (c ∷ cs) (v ∷ vs) formats =
      encode_value v (oid_for_type c.type) (resolve_format formats i)
      ∷ cells_from (i + 1) cs vs formats

  unfoldable pub row_message : QueryResult → List ℕ → List Value → Backend
  row_message res formats row = data_row (cells_from 0 res.cols row formats)

  abbrev pub row_events : QueryResult → List ℕ → List (List Value) → List Event
  row_events res formats [] = []
  row_events res formats (row ∷ rows) =
      send (row_message res formats row) ∷ row_events res formats rows

  -- `emitFidelity`
  unfoldable pub fidelity_events : Report → List Event
  fidelity_events rep =
      if is_empty rep then [] else logs (codes "pg: " ++ summary rep) ∷ notices (warnings rep)
