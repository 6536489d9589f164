-- ===== src/Prelude/Lists.antt =====
-- Lists measured and indexed by native numbers, and lists of addresses: membership, removal,
-- distinctness.
use Prim.Native.Nat.{ℕ, zero, suc, ◌+◌, ◌<◌, min}
use mathlib.Core.Path.{◌≡◌, refl, ap}
use mathlib.Core.Logic.{◌≢◌}
use mathlib.Core.Bool.{Bool, true, false, ◌||◌}
use mathlib.Core.List.{List, [], ◌∷◌, ◌++◌}
use mathlib.Core.Option.{Option, none, some}
use native.Mathlib.Omega.{arith}
use linux_c_template.Prelude.Tests.{◌==◌, if◌then◌else◌}

module _ {ℓ} {A : Type ℓ} where
  abbrev pub length : List A → ℕ
  length [] = 0
  length (_ ∷ xs) = suc (length xs)

  abbrev pub get_elem? : List A → ℕ → Option A
  get_elem? [] i = none
  get_elem? (x ∷ xs) zero = some x
  get_elem? (x ∷ xs) (suc i) = get_elem? xs i

  -- A write out of bounds changes nothing.
  abbrev pub set : List A → ℕ → A → List A
  set [] i v = []
  set (x ∷ xs) zero v = v ∷ xs
  set (x ∷ xs) (suc i) v = x ∷ set xs i v

  abbrev pub take : ℕ → List A → List A
  take zero xs = []
  take (suc n) [] = []
  take (suc n) (x ∷ xs) = x ∷ take n xs

  abbrev pub drop : ℕ → List A → List A
  drop zero xs = xs
  drop (suc n) [] = []
  drop (suc n) (_ ∷ xs) = drop n xs

  abbrev pub replicate : ℕ → A → List A
  replicate zero a = []
  replicate (suc n) a = a ∷ replicate n a

module _ {ℓ} {A : Type ℓ} where
  pub length-append : (xs ys : List A) → length (xs ++ ys) ≡ length xs + length ys
  length-append [] ys = omega arith
  length-append (x ∷ xs) ys = omega (arith, length-append xs ys)

  pub length-take : (n : ℕ) (xs : List A) → length (take n xs) ≡ min n (length xs)
  length-take zero xs = omega arith
  length-take (suc n) [] = omega arith
  length-take (suc n) (x ∷ xs) = omega (arith, length-take n xs)

  pub take-nil : (n : ℕ) → ◌≡◌ {A = List A} (take n []) []
  take-nil zero = refl
  take-nil (suc n) = refl

  pub length-set : (xs : List A) (i : ℕ) (v : A) → length (set xs i v) ≡ length xs
  length-set [] i v = refl
  length-set (x ∷ xs) zero v = refl
  length-set (x ∷ xs) (suc i) v = ap suc (length-set xs i v)

  pub get_elem?-some : (xs : List A) (i : ℕ) → i < length xs → (a : A) × (get_elem? xs i ≡ some a)
  get_elem?-some [] i h = elim h [ ]
  get_elem?-some (x ∷ xs) zero h = (x, refl)
  get_elem?-some (x ∷ xs) (suc i) h = get_elem?-some xs i (omega arith)

abbrev pub has : ℕ → List ℕ → Bool
has p [] = false
has p (x ∷ xs) = (p == x) || has p xs

infix 40 ◌∈◌ ◌∉◌
abbrev pub ◌∈◌ : ℕ → List ℕ → Type 0
p ∈ xs = has p xs ≡ true

abbrev pub ◌∉◌ : ℕ → List ℕ → Type 0
p ∉ xs = has p xs ≡ false

-- Drops the first occurrence.
abbrev pub remove : ℕ → List ℕ → List ℕ
remove p [] = []
remove p (x ∷ xs) = if p == x then xs else x ∷ remove p xs

abbrev pub Distinct : List ℕ → Type 0
Distinct [] = Unit
Distinct (x ∷ xs) = (x ∉ xs) × Distinct xs

pub length-remove : (p : ℕ) (xs : List ℕ) → p ∈ xs → length xs ≡ suc (length (remove p xs))
length-remove p [] h = ground arith
length-remove p (x ∷ xs) h = ground (arith, length-remove p xs)

pub not-mem-remove : (p q : ℕ) (xs : List ℕ) → q ∉ xs → q ∉ remove p xs
not-mem-remove p q [] h = refl
not-mem-remove p q (x ∷ xs) h = ground (arith, not-mem-remove p q xs)

pub mem-of_mem-remove : (p q : ℕ) (xs : List ℕ) → q ∈ remove p xs → q ∈ xs
mem-of_mem-remove p q [] h = h
mem-of_mem-remove p q (x ∷ xs) h = ground (arith, mem-of_mem-remove p q xs)

pub not-mem-remove_self : (p : ℕ) (xs : List ℕ) → Distinct xs → p ∉ remove p xs
not-mem-remove_self p [] d = refl
not-mem-remove_self p (x ∷ xs) d = ground (arith, not-mem-remove_self p xs)

pub Distinct-remove : (p : ℕ) (xs : List ℕ) → Distinct xs → Distinct (remove p xs)
Distinct-remove p [] d = tt
Distinct-remove p (x ∷ xs) d = ground (arith, Distinct-remove p xs, not-mem-remove p x xs)

abbrev pub count : ℕ → List ℕ → ℕ
count x [] = 0
count x (y ∷ ys) = (if x == y then 1 else 0) + count x ys

pub count-append : (x : ℕ) (xs ys : List ℕ) → count x (xs ++ ys) ≡ count x xs + count x ys
count-append x [] ys = omega arith
count-append x (y ∷ xs) ys = omega (arith, count-append x xs ys)

pub count-remove :
    (y x : ℕ) (xs : List ℕ)
    → y ∈ xs
    → count x xs ≡ (if x == y then 1 else 0) + count x (remove y xs)
count-remove y x [] h = cc
count-remove y x (z ∷ xs) h = ground (arith, count-remove y x xs)

pub count-mem : (p : ℕ) (xs : List ℕ) → count p xs ≢ 0 → p ∈ xs
count-mem p [] h = absurd (h refl)
count-mem p (x ∷ xs) h = ground (arith, count-mem p xs)

pub mem-count : (p : ℕ) (xs : List ℕ) → p ∈ xs → count p xs ≢ 0
mem-count p [] h = cc
mem-count p (x ∷ xs) h = ground (arith, mem-count p xs)

pub absent-count : (x : ℕ) (xs : List ℕ) → x ∉ xs → count x xs ≡ 0
absent-count x [] h = refl
absent-count x (y ∷ xs) h = ground (arith, absent-count x xs)

pub Distinct-count : (x : ℕ) (xs : List ℕ) → Distinct xs → count x xs < 2
Distinct-count x [] d = omega arith
Distinct-count x (y ∷ xs) d = ground (arith, Distinct-count x xs, absent-count x xs)
