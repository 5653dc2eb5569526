-- ===== src/Engine/Run/Buffer.antt =====
-- What `runOn` buffers of a query that did not fail.
use spoofdb.Base.{
  ◌≡◌, sym, ◌∙◌, ap, List, [], ◌∷◌, ◌++◌, map, Option, some, inl, append_assoc, append-nil,
}
use spoofdb.Text.{Str}
use spoofdb.Value.{Value, Column, failure}
use spoofdb.Engine.Run.{Scan, scanned, scan_failed, columns_of, normalize, fetch, buffer}

abbrev pub scans_of : List (List Value) → List Scan
scans_of = map scanned

fetch-scans_of :
    (cols : List Column) (done vals : List (List Value)) (more : List Scan) (last : Option Str)
    → fetch cols done (scans_of vals ++ more) last
      ≡ fetch cols (done ++ map (map normalize) vals) more last
unfolding fetch
fetch-scans_of cols done [] more last = rw append-nil
fetch-scans_of cols done (v ∷ vals) more last =
    fetch-scans_of cols (done ++ map normalize v ∷ []) vals more last
    ∙ ap (λ z. fetch cols z more last)
        (append_assoc done (map normalize v ∷ []) (map (map normalize) vals))

-- A cursor that gives its column names and scans every row is buffered whole: one column for each
-- name, the rows in order with their byte slices as text, and the cursor's last error beside them.
-- At the first row that cannot be scanned the result is that row's error alone.
pub buffer_rows :
    (names types : List Str) (vals : List (List Value)) (last : Option Str)
    → (buffer
          (record { columns = inl names; types = types; scans = scans_of vals; last_err = last })
        ≡ record {
          res = some (record { cols = columns_of names types; rows = map (map normalize) vals });
          err = last;
        })
      × ((m : Str) (more : List Scan)
          → buffer (record {
            columns = inl names;
            types = types;
            scans = scans_of vals ++ scan_failed m ∷ more;
            last_err = last;
          })
            ≡ failure m)
unfolding buffer fetch
buffer_rows names types vals last = (
  ap (λ z. fetch (columns_of names types) [] z last) (sym (append-nil (scans_of vals)))
      ∙ fetch-scans_of (columns_of names types) [] vals [] last,
  λ m more. fetch-scans_of (columns_of names types) [] vals (scan_failed m ∷ more) last,
)
