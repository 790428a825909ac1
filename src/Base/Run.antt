-- ===== src/Base/Run.antt =====
-- A command that reads and changes a state: it returns, faults, or runs out of fuel in a loop.
use mathlib.Core.Path.{◌≡◌, refl}
use mathlib.Core.Bool.{Bool, true, false, not}
use mathlib.Core.Logic.{◌⊎◌, inl, inr}

pub data Run (S A : Type 0) : Type 0 where
  -- the command returned a value and left a state
  ok : A → S → Run S A
  -- an assertion failed, or memory was touched through NULL or outside an array
  fault : Run S A
  -- a polling loop has used all of its rounds
  out_of_fuel : Run S A

abbrev pub Cmd : Type 0 → Type 0 → Type 0
Cmd S A = S → Run S A

module _ {S : Type 0} where
  abbrev pub pure : {A : Type 0} → A → Cmd S A
  pure a s = ok a s

  abbrev pub and_then : {A B : Type 0} → Run S A → (A → Cmd S B) → Run S B
  and_then (ok a s) f = f a s
  and_then fault f = fault
  and_then out_of_fuel f = out_of_fuel

  infixl 5 ◌>>=◌ ◌>>◌
  abbrev pub ◌>>=◌ : {A B : Type 0} → Cmd S A → (A → Cmd S B) → Cmd S B
  ◌>>=◌ m f s = and_then (m s) f

  abbrev pub ◌>>◌ : {B : Type 0} → Cmd S (Unit {0}) → Cmd S B → Cmd S B
  ◌>>◌ m k s = and_then (m s) (λ _. k)

  abbrev pub gets : {A : Type 0} → (S → A) → Cmd S A
  gets f s = ok (f s) s

  abbrev pub modify : (S → S) → Cmd S (Unit {0})
  modify f s = ok tt (f s)

  abbrev pub stop : {A : Type 0} → Cmd S A
  stop s = fault

  -- A branch of a command. Each side waits for the state.
  infix 1 test◌then◌else◌
  abbrev pub test◌then◌else◌ : {A : Type 0} → Bool → Cmd S A → Cmd S A → Cmd S A
  test◌then◌else◌ b m k s = elim b [ true ↦ m s | false ↦ k s ]

  -- What a successful command made of a first part and a rest did.
  pub and_then-eq-ok :
      {A B : Type 0} (r : Run S A) (f : A → Cmd S B) {b : B} {t : S}
      → and_then r f ≡ ok b t
      → (a : A) × (s : S) × (r ≡ ok a s) × (f a s ≡ ok b t)
  and_then-eq-ok (ok a s) f h = (a, s, refl, h)
  and_then-eq-ok fault f h = cc
  and_then-eq-ok out_of_fuel f h = cc

  -- An early return: either it was taken, or the rest has run.
  pub test_not-eq-ok :
      {A : Type 0} (b : Bool) (a : A) (k : Cmd S A) (s : S) {r : A} {t : S}
      → (test not b then pure a else k) s ≡ ok r t
      → ((b ≡ false) × (r ≡ a) × (t ≡ s)) ⊎ ((b ≡ true) × (k s ≡ ok r t))
  test_not-eq-ok true a k s h = inr (refl, h)
  test_not-eq-ok false a k s h = inl (refl, cc, cc)
