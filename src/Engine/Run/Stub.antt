-- ===== src/Engine/Run/Stub.antt =====
-- What `runOn` answers, with stub mode on and off.
use spoofdb.Base.{◌≡◌, ◌∙◌, ap, ◌++◌, some, arith, if◌then◌else◌}
use spoofdb.Text.{Str, codes, Unicode}
use spoofdb.Value.{empty_result, success, failure}
use spoofdb.Engine.Errors.{missing_relation, missing_relation_name}
use spoofdb.Engine.Errors.Messages.{
  IsName, not_found, missing_relation_name-not_found, classify_err-not_found,
}
use spoofdb.Engine.Run.{Engine, serving_empty, will_error, log_once, refused, recover, settle}

module _ ⦃u : Unicode⦄ where
  recover_missing :
      (e : Engine) (m x : Str)
      → missing_relation_name (some m) ≡ x
      → recover e m missing_relation ≡ (
        log_once (codes "missing:" ++ x) (if e.stub then serving_empty x else will_error x) e,
        if e.stub then success empty_result else failure m,
      )
  unfolding recover
  recover_missing e m x h = ground arith

  -- A query that fails with an error of the form "Catalog Error: Table with name X does not exist…", where X has no
  -- character at which the code ends a name, such as a blank or a quote: X is logged, once, with what
  -- is done about it, and the query gets an empty result in stub mode, else that error.
  pub settle-not_found :
      (e : Engine) (x tail : Str)
      → IsName x
      → settle e (refused (not_found x tail)) ≡ (
        log_once (codes "missing:" ++ x) (if e.stub then serving_empty x else will_error x) e,
        if e.stub then success empty_result else failure (not_found x tail),
      )
  unfolding settle
  settle-not_found e x tail h =
      ap (recover e (not_found x tail)) (classify_err-not_found x tail)
      ∙ recover_missing e (not_found x tail) x (missing_relation_name-not_found x tail h)
