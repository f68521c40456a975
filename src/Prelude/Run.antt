-- ===== src/Prelude/Run.antt =====
-- Steps on a state that may fail; what a step leaves of the state stays, whether or not it fails.
use mathlib.Core.Option.{Option, none, some}
use mathlib.Core.Path.{◌≡◌, refl}
use mathlib.Core.Bool.{Bool, true, false}
use phenk.Prelude.Result.{Result, ok, err}

abbrev pub RunOf : Type 0 → Type 0 → Type 0 → Type 0
RunOf S E A = S → Result E A × S

module _ {S E : Type 0} where
  abbrev pub continue : {A B : Type 0} → (A → RunOf S E B) → Result E A × S → Result E B × S
  continue f (err e, w) = (err e, w)
  continue f (ok a, w) = f a w

  -- A chain that succeeds has succeeded in both of its parts.
  pub continue-ok :
      {A B : Type 0} (f : A → RunOf S E B) (r : Result E A × S) (b : B) (t : S)
      → continue f r ≡ (ok b, t)
      → (a : A) × (w : S) × (r ≡ (ok a, w)) × (f a w ≡ (ok b, t))
  continue-ok f (err e, w) b t h = absurd cc
  continue-ok f (ok a, w) b t h = (a, w, refl, h)

  infixl 5 ◌>>=◌
  abbrev pub ◌>>=◌ : {A B : Type 0} → RunOf S E A → (A → RunOf S E B) → RunOf S E B
  ◌>>=◌ m f w = continue f (m w)

  abbrev pub done : {A : Type 0} → A → RunOf S E A
  done a w = (ok a, w)

  pub done-ok : {A : Type 0} (a b : A) (s t : S) → done a s ≡ (ok b, t) → a ≡ b
  done-ok a b s t h = cc

  abbrev pub or_fail : {A : Type 0} → E → Option A → RunOf S E A
  or_fail e none w = (err e, w)
  or_fail e (some a) w = (ok a, w)

  -- Another error in place of the one of a result.
  abbrev pub of_result : {F A : Type 0} → E → Result F A → RunOf S E A
  of_result e (err f) w = (err e, w)
  of_result e (ok a) w = (ok a, w)

  abbrev pub refuse_unless : Bool → E → RunOf S E (Unit {0})
  refuse_unless true e w = (ok tt, w)
  refuse_unless false e w = (err e, w)
