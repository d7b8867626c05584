-- ===== src/Sfu/Steps.antt =====
-- Methods of records that may fail, as functions on the record that they change. What was changed
-- before a failure stays.
use kwmbridge.Base.{Bool, true, false, Option, none, some}
use kwmbridge.Sfu.Types.{Outcome, ok, err, Failure}

abbrev pub Step : Type 0 → Type 0 → Type 0
Step S A = S → Outcome A × S

module _ {S : Type 0} where
  abbrev pub after : {A B : Type 0} → Outcome A × S → (A → Step S B) → Outcome B × S
  after (ok a, c) f = f a c
  after (err e, c) f = (err e, c)

  infixl 5 ◌>>=◌ ◌>>◌
  abbrev pub ◌>>=◌ : {A B : Type 0} → Step S A → (A → Step S B) → Step S B
  ◌>>=◌ m f c = after (m c) f

  abbrev pub ◌>>◌ : {B : Type 0} → Step S (Unit {0}) → Step S B → Step S B
  ◌>>◌ m k c = after (m c) (λ _. k)

  abbrev pub return : {A : Type 0} → A → Step S A
  return a c = (ok a, c)

  abbrev pub fail : {A : Type 0} → Failure → Step S A
  fail e c = (err e, c)

  -- A change that cannot fail, as a step.
  abbrev pub change : (S → S) → Step S (Unit {0})
  change f c = (ok tt, f c)

  -- What the call outside answers, or the failure.
  abbrev pub answer_or : {A : Type 0} → Failure → Option A → Step S A
  answer_or e (some a) c = (ok a, c)
  answer_or e none c = (err e, c)

  abbrev pub check : Failure → Bool → Step S (Unit {0})
  check e true c = (ok tt, c)
  check e false c = (err e, c)

  -- An error that the caller only logs.
  abbrev pub ignore_error : Step S (Unit {0}) → Step S (Unit {0})
  ignore_error m c = (ok tt, (m c).1)
