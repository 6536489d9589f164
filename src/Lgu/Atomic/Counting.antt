-- ===== src/Lgu/Atomic/Counting.antt =====
-- What a counter of template-v1/src/lgu/atomic/atomic.h holds after changes by many threads, and
-- what its tests answer.
use linux_c_template.Prelude.{
  ℕ, zero, suc, ◌+◌, ◌-◌, ◌%◌, ◌^◌, ◌≤◌, ◌<◌, ◌≡◌, ◌↔◌, refl, true, false, List, [], ◌∷◌, ◌++◌,
  arith, ap, ◌∙◌,
}
use linux_c_template.Prelude.Tests.{◌==◌}
use linux_c_template.Prelude.Lists.{replicate}
use linux_c_template.Lgu.Atomic.{
  Change, add, sub, inc, dec, change, change_all, drop_references, atomic_dec_and_test, atomic_sub,
  atomic_sub_and_test, atomic_inc_and_test, atomic_add_negative, atomic_add, atomic_inc, atomic_dec,
}

-- What was added to the counter, and what was taken from it.
abbrev pub added : List Change → ℕ
added [] = 0
added (add i ∷ cs) = i + added cs
added (inc ∷ cs) = 1 + added cs
added (_ ∷ cs) = added cs

abbrev pub taken : List Change → ℕ
taken [] = 0
taken (sub i ∷ cs) = i + taken cs
taken (dec ∷ cs) = 1 + taken cs
taken (_ ∷ cs) = taken cs

-- The arguments are 32-bit words.
abbrev pub Words : List Change → Type 0
Words [] = Unit
Words (add i ∷ cs) = (i < 2 ^ 32) × Words cs
Words (sub i ∷ cs) = (i < 2 ^ 32) × Words cs
Words (_ ∷ cs) = Words cs

-- With 32-bit arguments, and in whatever order the threads change the counter, it ends as the value
-- it had, plus all that was added, less all that was taken, modulo 2^32.
pub change_all-added :
    (cs : List Change) (v : ℕ)
    → v < 2 ^ 32
    → Words cs
    → ((change_all cs v + taken cs) % 2 ^ 32 ≡ (v + added cs) % 2 ^ 32) × (change_all cs v < 2 ^ 32)
unfolding change_all change atomic_add atomic_sub atomic_inc atomic_dec
change_all-added [] v h w = (omega arith, h)
change_all-added (add i ∷ cs) v h w =
    let (e, lt) = change_all-added cs ((v + i) % 2 ^ 32) (omega arith) w.1 in (omega arith, lt)
change_all-added (sub i ∷ cs) v h w =
    let (e, lt) = change_all-added cs ((v + (2 ^ 32 - i)) % 2 ^ 32) (omega arith) w.1 in
    (omega arith, lt)
change_all-added (inc ∷ cs) v h w =
    let (e, lt) = change_all-added cs ((v + 1) % 2 ^ 32) (omega arith) w in (omega arith, lt)
change_all-added (dec ∷ cs) v h w =
    let (e, lt) = change_all-added cs ((v + (2 ^ 32 - 1)) % 2 ^ 32) (omega arith) w in
    (omega arith, lt)

drops_then_zero :
    (n v : ℕ)
    → v ≡ n + 1
    → v < 2 ^ 32
    → drop_references (suc n) v ≡ (replicate n false ++ true ∷ [], 0)
unfolding drop_references atomic_dec_and_test atomic_sub
drops_then_zero zero v e h =
    let gone : (v + (2 ^ 32 - 1)) % 2 ^ 32 ≡ 0 = omega arith in rw gone refl
drops_then_zero (suc n) v e h =
    let less : (v + (2 ^ 32 - 1)) % 2 ^ 32 ≡ n + 1 = omega arith in
    let not_last : ((v + (2 ^ 32 - 1)) % 2 ^ 32 == 0) ≡ false = ground arith in
    ap (λ r. (((v + (2 ^ 32 - 1)) % 2 ^ 32 == 0) ∷ r.0, r.1))
      (drops_then_zero n ((v + (2 ^ 32 - 1)) % 2 ^ 32) less (omega arith))
    ∙ ap (λ b. (b ∷ replicate n false ++ true ∷ [], 0)) not_last

-- Of `n + 1` references to a counter that holds `n + 1`, only the last to be dropped is told that it
-- was the last, and the counter is then 0.
pub drop_references-replicate :
    (n : ℕ) → n + 1 < 2 ^ 32 → drop_references (n + 1) (n + 1) ≡ (replicate n false ++ true ∷ [], 0)
drop_references-replicate n h =
    let e : n + 1 ≡ suc n = omega arith in
    rw e (drops_then_zero n (suc n) (omega arith) (omega arith))

-- On 32-bit words, `atomic_sub_and_test` and `atomic_inc_and_test` answer whether the counter has
-- become 0; and `atomic_add_negative`, on a non-negative counter, with -k, answers whether the
-- counter was below k.
pub answers_iff :
    (i k v : ℕ)
    → i < 2 ^ 32
    → v < 2 ^ 32
    → 0 < k
    → k ≤ 2 ^ 31
    → (((atomic_sub_and_test i v).0 ≡ true) ↔ (v ≡ i))
      × (((atomic_inc_and_test v).0 ≡ true) ↔ (v ≡ 2 ^ 32 - 1))
      × (v < 2 ^ 31 → ((atomic_add_negative (2 ^ 32 - k) v).0 ≡ true) ↔ (v < k))
unfolding atomic_sub_and_test atomic_inc_and_test atomic_add_negative atomic_sub atomic_add
answers_iff i k v hi hv hk hk' = (ground arith, ground arith, λ pos. ground arith)
