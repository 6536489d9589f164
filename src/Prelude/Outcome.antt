-- ===== src/Prelude/Outcome.antt =====
-- How a run of C code ends.
use mathlib.Core.Bool.{Bool, true, false}
use mathlib.Core.Path.{◌≡◌, refl, subst}

-- `aborted`: an `assert` failed, also through `BUG_ON`. `fault`: an access outside the memory that
-- the program owns. `deadlocked`: a lock is taken by the thread that holds it. `out_of_fuel`: the
-- model's loop was given too few rounds.
pub data Outcome {ℓ} (A : Type ℓ) : Type ℓ where
  ok : A → Outcome A
  aborted fault deadlocked out_of_fuel : Outcome A

infixl 5 ◌>>=◌ ◌>>◌
abbrev pub ◌>>=◌ {ℓ κ} : {A : Type ℓ} {B : Type κ} → Outcome A → (A → Outcome B) → Outcome B
ok a >>= f = f a
aborted >>= f = aborted
fault >>= f = fault
deadlocked >>= f = deadlocked
out_of_fuel >>= f = out_of_fuel

abbrev pub ◌>>◌ {ℓ} : {B : Type ℓ} → Outcome (Unit {0}) → Outcome B → Outcome B
m >> k = m >>= λ _. k

-- `BUG_ON(condition)`, which is `assert(!condition)`
abbrev pub bug_on : Bool → Outcome (Unit {0})
bug_on true = aborted
bug_on false = ok tt

-- Total correctness: the run returns, and its result satisfies `P`.
pub data Returns {ℓ κ} {A : Type ℓ} (P : A → Type κ) : Outcome A → Type (ℓ ⊔ κ) where
  returns : {a : A} → P a → Returns P (ok a)

module _ {ℓ κ} {A : Type ℓ} {P : A → Type κ} where
  pub Returns-bind {μ ν} :
      {B : Type μ} {Q : B → Type ν} {r : Outcome A} {k : A → Outcome B}
      → Returns P r
      → ((a : A) → P a → Returns Q (k a))
      → Returns Q (r >>= k)
  Returns-bind (returns p) next = next _ p

  pub Returns-mono {ν} :
      {Q : A → Type ν} {r : Outcome A} → Returns P r → ((a : A) → P a → Q a) → Returns Q r
  Returns-mono (returns p) weaken = returns (weaken _ p)

  -- A run that returns has its result.
  pub Returns-result : {a : A} {r : Outcome A} → Returns P r → r ≡ ok a → P a
  Returns-result {a} r e = go (subst (Returns P) e r)
    where
      go : Returns P (ok a) → P a
      go (returns p) = p

  pub Returns-with : {r : Outcome A} → Returns P r → Returns (λ a. P a × (r ≡ ok a)) r
  Returns-with (returns p) = returns (p, refl)

-- The value that is returned, with what is known of it.
pub Returns-run :
    {A : Type 0} {P : A → Type 0} {r : Outcome A} → Returns P r → (a : A) × (r ≡ ok a) × P a
Returns-run (returns {a} p) = (a, refl, p)
