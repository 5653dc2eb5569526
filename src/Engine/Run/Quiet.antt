-- ===== src/Engine/Run/Quiet.antt =====
-- Each distinct message is logged once, however often its query is repeated.
use mathlib.Core.Path.{subst}
use spoofdb.Base.{
  ◌≡◌, refl, sym, ◌∙◌, Bool, true, false, List, [], ◌∷◌, ◌++◌, some, arith, if◌then◌else◌, length,
  length-append, Bool-cases, inl, inr,
}
use spoofdb.Text.{Str, codes, Unicode, one_of}
use spoofdb.Text.Laws.{one_of_head, one_of-cons}
use spoofdb.Engine.Errors.{
  ErrClass, app, missing_relation, dialect_gap, classify_err, missing_relation_name, first_line,
}
use spoofdb.Engine.Run.{
  Engine, LogLine, serving_empty, will_error, fidelity_gap, log_once, Answer, refused, rows,
  recover, settle,
}

-- no text twice
abbrev pub IsDistinct : List Str → Type 0
IsDistinct [] = Unit
IsDistinct (k ∷ ks) = (one_of k ks ≡ false) × IsDistinct ks

-- the log holds one line for each distinct key
pub record IsQuiet (e : Engine) : Type 0 where
  pub distinct : IsDistinct e.logged
  pub counted : length e.log ≡ length e.logged

log_once-IsQuiet :
    (key : Str) (line : LogLine) (e : Engine) → IsQuiet e → IsQuiet (log_once key line e)
unfolding log_once
log_once-IsQuiet key line e q = elim (Bool-cases (one_of key e.logged)) [
  | inl old ↦ rw old q
  | inr new ↦ rw new (record {
    distinct = (new, q.distinct);
    counted = omega (arith, length-append e.log (line ∷ []), q.counted);
  })
]

log_once_known :
    (key : Str) (line : LogLine) (e : Engine) → one_of key e.logged ≡ true → log_once key line e ≡ e
unfolding log_once
log_once_known key line e h = rw h

log_once_learns :
    (key : Str) (line : LogLine) (e : Engine) → one_of key (log_once key line e).logged ≡ true
unfolding log_once
log_once_learns key line e = elim (Bool-cases (one_of key e.logged)) [
  | inl old ↦ rw old old
  | inr new ↦ rw new (one_of_head key e.logged)
]

log_once_keeps :
    (j key : Str) (line : LogLine) (e : Engine)
    → one_of j e.logged ≡ true
    → one_of j (log_once key line e).logged ≡ true
unfolding log_once
log_once_keeps j key line e h = ground (arith, one_of-cons j key e.logged)

stub-log_once : (key : Str) (line : LogLine) (e : Engine) → (log_once key line e).stub ≡ e.stub
unfolding log_once
stub-log_once key line e = ground arith

-- what an answer logs, and under which key
data Note : Type 0 where
  silent : Note
  note : Str → LogLine → Note

abbrev apply : Note → Engine → Engine
apply silent e = e
apply (note key line) e = log_once key line e

abbrev is_known : Note → Engine → Bool
is_known silent e = true
is_known (note key line) e = one_of key e.logged

module _ ⦃u : Unicode⦄ where
  abbrev class_note : Bool → Str → ErrClass → Note
  class_note stub m missing_relation =
      let name = missing_relation_name (some m) in
      note (codes "missing:" ++ name) (if stub then serving_empty name else will_error name)
  class_note stub m dialect_gap = if stub then note m (fidelity_gap (first_line m)) else silent
  class_note stub m app = silent

  abbrev answer_note : Bool → Answer → Note
  answer_note stub (refused m) = class_note stub m (classify_err (some m))
  answer_note stub (rows r) = silent

  recover_note :
      (e : Engine) (m : Str) (c : ErrClass) → (recover e m c).0 ≡ apply (class_note e.stub m c) e
  unfolding recover
  recover_note e m missing_relation = ground arith
  recover_note e m dialect_gap = ground arith
  recover_note e m app = refl

  settle_note : (e : Engine) (a : Answer) → (settle e a).0 ≡ apply (answer_note e.stub a) e
  unfolding settle
  settle_note e (refused m) = recover_note e m (classify_err (some m))
  settle_note e (rows r) = refl

apply-IsQuiet : (n : Note) (e : Engine) → IsQuiet e → IsQuiet (apply n e)
apply-IsQuiet silent e q = q
apply-IsQuiet (note key line) e q = log_once-IsQuiet key line e q

apply_known : (n : Note) (e : Engine) → is_known n e ≡ true → apply n e ≡ e
apply_known silent e h = refl
apply_known (note key line) e h = log_once_known key line e h

apply_learns : (n : Note) (e : Engine) → is_known n (apply n e) ≡ true
apply_learns silent e = refl
apply_learns (note key line) e = log_once_learns key line e

apply_keeps : (m n : Note) (e : Engine) → is_known m e ≡ true → is_known m (apply n e) ≡ true
apply_keeps silent n e h = refl
apply_keeps (note j l) silent e h = h
apply_keeps (note j l) (note key line) e h = log_once_keeps j key line e h

stub-apply : (n : Note) (e : Engine) → (apply n e).stub ≡ e.stub
stub-apply silent e = refl
stub-apply (note key line) e = stub-log_once key line e

module _ ⦃u : Unicode⦄ where
  -- the engine behind a sequence of queries, given what the driver answers to each
  unfoldable pub settle_all : Engine → List Answer → Engine
  settle_all e [] = e
  settle_all e (a ∷ later) = settle_all (settle e a).0 later

  -- If the log holds one line for each distinct key that was logged, it still does behind any
  -- sequence of queries.
  pub settle_all-IsQuiet :
      (later : List Answer) (e : Engine) → IsQuiet e → IsQuiet (settle_all e later)
  unfolding settle_all
  settle_all-IsQuiet [] e q = q
  settle_all-IsQuiet (a ∷ later) e q =
      settle_all-IsQuiet later (settle e a).0 (rw settle_note (apply-IsQuiet _ e q))

  stub-settle : (a : Answer) (e : Engine) → (settle e a).0.stub ≡ e.stub
  stub-settle a e = rw settle_note (stub-apply (answer_note e.stub a) e)

  settle_all_keeps :
      (later : List Answer) (n : Note) (e : Engine)
      → is_known n e ≡ true
      → is_known n (settle_all e later) ≡ true
  unfolding settle_all
  settle_all_keeps [] n e h = h
  settle_all_keeps (a ∷ later) n e h =
      settle_all_keeps later n (settle e a).0
        (rw settle_note (apply_keeps n (answer_note e.stub a) e h))

  stub-settle_all : (later : List Answer) (e : Engine) → (settle_all e later).stub ≡ e.stub
  unfolding settle_all
  stub-settle_all [] e = refl
  stub-settle_all (a ∷ later) e = stub-settle_all later (settle e a).0 ∙ stub-settle a e

  settle_known :
      (e : Engine) (a : Answer) → is_known (answer_note e.stub a) e ≡ true → (settle e a).0 ≡ e
  settle_known e a h = rw settle_note (apply_known _ e h)

  -- An answer that has been settled before logs nothing the next time, however many other queries
  -- stand between, and the engine is left as it was.
  pub settle-again :
      (e : Engine) (a : Answer) (between : List Answer)
      → (settle (settle_all (settle e a).0 between) a).0 ≡ settle_all (settle e a).0 between
  settle-again e a between =
      let n = answer_note e.stub a in
      let kept = settle_all_keeps between n (settle e a).0 (rw settle_note (apply_learns n e)) in
      settle_known _ a (
        subst (λ b. is_known (answer_note b a) (settle_all (settle e a).0 between) ≡ true)
          (sym (stub-settle_all between (settle e a).0 ∙ stub-settle a e)) kept)
