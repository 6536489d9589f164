-- ===== src/Main/Solo.antt =====
-- template-v1/src/main.c: `database` with `cb_init_worker` and the search of `cb_start`, and
-- `test_threadwq`, the benchmark without threads.
use linux_c_template.Prelude.{
  true, false, ℕ, zero, suc, ◌+◌, ◌-◌, ◌%◌, ◌^◌, ◌<◌, ◌≤◌, ◌≡◌, inl, inr, List, [], ◌∷◌, arith, ap,
  sym, ◌∙◌,
}
use linux_c_template.Prelude.Tests.{◌==◌, if◌then◌else◌, Bool-cases}
use linux_c_template.Prelude.Lists.{length, set, replicate}
use linux_c_template.Prelude.Outcome.{Outcome, ok, out_of_fuel, Returns, returns, Returns-mono}
use linux_c_template.Mempool as Pool
use linux_c_template.Main.Client.{Shared, new_test, cb_start}
use linux_c_template.Main.Writer.{is_late}

-- The number of entries of `database`.
unfoldable pub database_len : ℕ
database_len = 16384

-- `cb_init_worker`, whatever the entries held before
unfoldable pub cb_init_worker : List ℕ → List ℕ
unfolding database_len
cb_init_worker database = set (replicate (length database) 0) (database_len - 1) 1

-- The loop of `cb_start`: the index at which it ends.
unfoldable pub search : List ℕ → ℕ → ℕ
search [] i = i
search (x ∷ xs) i = if x == 1 then i else search xs (i + 1)

-- The loop of `test_threadwq`, on fuel. `clock n` is the second that the `n`-th reading gives.
unfoldable pub solo_loop :
    {Links : Type 0} → (ℕ → ℕ) → ℕ → ℕ → ℕ → Shared Links → Outcome (Shared Links)
unfolding is_late cb_start
solo_loop clock ts zero n c = out_of_fuel
solo_loop clock ts (suc fuel) n c =
    let rest = solo_loop clock ts fuel (n + 1) (cb_start c) in
    if is_late ts (clock n) then ok (cb_start c) else rest

-- `test_threadwq`
unfoldable pub test_threadwq :
    {Links : Type 0} → (ℕ → ℕ) → ℕ → Pool.State Links → Outcome (Shared Links)
unfolding solo_loop new_test
test_threadwq clock fuel mp = solo_loop clock (clock 0) fuel 1 (new_test mp)

search-le : (xs : List ℕ) (i : ℕ) → (i ≤ search xs i) × (search xs i ≤ i + length xs)
unfolding search
search-le [] i = omega arith
search-le (x ∷ xs) i = let h = search-le xs (i + 1) in ground arith

search-zeros : (n i : ℕ) → search (replicate n 0) i ≡ i + n
unfolding search
search-zeros zero i = omega arith
search-zeros (suc n) i = search-zeros n (i + 1) ∙ omega arith

search-set : (n k i : ℕ) → k < n → search (set (replicate n 0) k 1) i ≡ i + k
unfolding search
search-set zero k i h = absurd (omega arith)
search-set (suc n) zero i h = omega arith
search-set (suc n) (suc k) i h = search-set n k (i + 1) (omega arith) ∙ omega arith

database_len-pos : 0 < database_len
unfolding database_len
database_len-pos = omega arith

-- The search of `cb_start` ends at an index of `database` or behind its last, whatever the entries are
-- while a worker clears them. After `cb_init_worker` it ends at the last entry, and before any worker has
-- begun, as in `test_threadwq`, behind it.
pub search-database :
    (database : List ℕ)
    → length database ≡ database_len
    → (search database 0 ≤ database_len)
      × (search (cb_init_worker database) 0 ≡ database_len - 1)
      × (search (replicate database_len 0) 0 ≡ database_len)
unfolding cb_init_worker
search-database database e = (
  omega (arith, e, (search-le database 0).1),
  search-set (length database) (database_len - 1) 0 (omega (arith, e, database_len-pos))
      ∙ omega arith,
  search-zeros database_len 0 ∙ omega arith,
)

module _ {Links : Type 0} (clock : ℕ → ℕ) (ts : ℕ) where
  -- The loop has ended after the first `m + 1` rounds, the first that is late.
  pub record Rounds (n : ℕ) (c d : Shared Links) : Type 0 where
    pub m : ℕ
    pub late : is_late ts (clock (n + m)) ≡ true
    pub early : (k : ℕ) → k < m → is_late ts (clock (n + k)) ≡ false
    pub counted : d ≡ record c { cnt_start = (c.cnt_start + m + 1) % 2 ^ 64 }

  Rounds-later :
      (n : ℕ) (c d : Shared Links)
      → is_late ts (clock n) ≡ false
      → Rounds (n + 1) (cb_start c) d
      → Rounds n c d
  unfolding cb_start
  Rounds-later n c d not_yet r = record {
    m = suc r.m;
    late = ap (λ k. is_late ts (clock k)) (shift r.m) ∙ r.late;
    early = early;
    counted = r.counted ∙ ap (λ v. record c { cnt_start = v }) (ground arith);
  }
    where
      shift : (k : ℕ) → n + suc k ≡ n + 1 + k
      shift k = omega arith

      first : n + 0 ≡ n
      first = omega arith

      early : (k : ℕ) → k < suc r.m → is_late ts (clock (n + k)) ≡ false
      early zero h = ap (λ k. is_late ts (clock k)) first ∙ not_yet
      early (suc k) h = ap (λ k. is_late ts (clock k)) (shift k) ∙ r.early k (omega arith)

  Rounds-first : (n : ℕ) (c : Shared Links) → is_late ts (clock n) ≡ true → Rounds n c (cb_start c)
  unfolding cb_start
  Rounds-first n c late = record {
    m = 0;
    late = ap (λ k. is_late ts (clock k)) first ∙ late;
    early = λ k h. absurd (omega arith);
    counted = ap (λ v. record c { cnt_start = v }) (omega arith);
  }
    where
      first : n + 0 ≡ n
      first = omega arith

  solo_loop-Rounds :
      (k fuel n : ℕ) (c : Shared Links)
      → k < fuel
      → is_late ts (clock (n + k)) ≡ true
      → Returns (Rounds n c) (solo_loop clock ts fuel n c)
  unfolding solo_loop
  solo_loop-Rounds k zero n c lt late = absurd (omega arith)
  solo_loop-Rounds zero (suc fuel) n c lt late =
      let first : n + 0 ≡ n = omega arith in
      let now = ap (λ k. is_late ts (clock k)) (sym first) ∙ late in
      rw now (returns (Rounds-first n c now))
  solo_loop-Rounds (suc k) (suc fuel) n c lt late =
      let shift : n + suc k ≡ n + 1 + k = omega arith in
      let rest =
        solo_loop-Rounds k fuel (n + 1) (cb_start c) (omega arith)
          (ap (λ k. is_late ts (clock k)) (sym shift) ∙ late) in
      elim (Bool-cases (is_late ts (clock n))) [
        | inl now ↦ rw now (returns (Rounds-first n c now))
        | inr not_yet ↦ rw not_yet (Returns-mono rest λ d r. Rounds-later n c d not_yet r)
      ]

-- What `test_threadwq` leaves after `m + 1` jobs.
pub record Tested {Links : Type 0} (clock : ℕ → ℕ) (mp : Pool.State Links) (d : Shared Links)
    : Type 0 where
  pub m : ℕ
  pub late : clock 0 + 10 < clock (m + 1)
  pub early : (k : ℕ) → k < m → clock (k + 1) ≤ clock 0 + 10
  pub counted : d.cnt_start ≡ (m + 1) % 2 ^ 64
  pub none_finished : d.cnt_finish ≡ 0
  pub none_waited : d.wait ≡ 0
  pub same_pool : d.mp ≡ mp

is_late-lt : (ts now : ℕ) → is_late ts now ≡ true → ts + 10 < now
unfolding is_late
is_late-lt ts now e = ground arith

is_late-le : (ts now : ℕ) → is_late ts now ≡ false → now ≤ ts + 10
unfolding is_late
is_late-le ts now e = ground arith

lt-is_late : (ts now : ℕ) → ts + 10 < now → is_late ts now ≡ true
unfolding is_late
lt-is_late ts now h = ground arith

Rounds-Tested :
    {Links : Type 0} (clock : ℕ → ℕ) (mp : Pool.State Links) (d : Shared Links)
    → Rounds clock (clock 0) 1 (new_test mp) d
    → Tested clock mp d
unfolding new_test
Rounds-Tested clock mp d r = record {
  m = r.m;
  late =
      is_late-lt (clock 0) (clock (r.m + 1))
        (ap (λ k. is_late (clock 0) (clock k)) (shift r.m) ∙ r.late);
  early = λ k h.
      is_late-le (clock 0) (clock (k + 1))
        (ap (λ k. is_late (clock 0) (clock k)) (shift k) ∙ r.early k h);
  counted = ap (λ c. c.cnt_start) r.counted ∙ omega arith;
  none_finished = ap (λ c. c.cnt_finish) r.counted;
  none_waited = ap (λ c. c.wait) r.counted;
  same_pool = ap (λ c. c.mp) r.counted;
}
  where
    shift : (k : ℕ) → k + 1 ≡ 1 + k
    shift k = omega arith

-- When the reading of the clock after the `k + 1`-st job is more than 10 seconds behind the first,
-- `test_threadwq` returns, after the first job whose reading is so late, and not before: with the number
-- of its jobs in `cnt_start`, modulo 2^64, with `wait` and `cnt_finish` 0 and the pool untouched.
pub test_threadwq-Tested :
    {Links : Type 0} (clock : ℕ → ℕ) (k fuel : ℕ) (mp : Pool.State Links)
    → k < fuel
    → clock 0 + 10 < clock (k + 1)
    → Returns (Tested clock mp) (test_threadwq clock fuel mp)
unfolding test_threadwq
test_threadwq-Tested clock k fuel mp lt late =
    let shift : 1 + k ≡ k + 1 = omega arith in
    Returns-mono
      (solo_loop-Rounds clock (clock 0) k fuel 1 (new_test mp) lt
        (ap (λ k. is_late (clock 0) (clock k)) shift ∙ lt-is_late (clock 0) (clock (k + 1)) late))
      λ d r. Rounds-Tested clock mp d r
