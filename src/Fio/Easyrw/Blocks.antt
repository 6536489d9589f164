-- ===== src/Fio/Easyrw/Blocks.antt =====
-- `fio_easyrw_read` of template-v1/src/lgu/fio/fio_easyrw.c, which hands the file out in blocks.
use linux_c_template.Prelude.{
  ℕ, zero, suc, ◌+◌, ◌%◌, ◌^◌, ◌≤◌, ◌<◌, ◌≡◌, refl, ◌⊎◌, inl, inr, Bool, true, false, not, ◌&&◌,
  List, [], ◌∷◌, ◌++◌, arith, ap,
}
use linux_c_template.Prelude.Tests.{ltb, ◌==◌, Bool-cases}
use linux_c_template.Prelude.Lists.{length, take, length-take}
use linux_c_template.Prelude.Outcome.{Returns, returns}
use linux_c_template.Fio.Easyrw.{
  Answer, error, bytes_of, block_loop, res_misc, Res, res_ok, res_io, rrrnum_oversz,
}
use linux_c_template.Fio.Easyrw.Loops.{Answer-cases}

-- What read `n` delivers, cut to the size of the buffer.
abbrev pub block_of : (ℕ → Answer) → ℕ → ℕ → List ℕ
block_of reads out_max n = elim (reads n) [ error ↦ [] | bytes_of bs ↦ take out_max bs ]

-- The blocks that the first `n` reads deliver.
abbrev pub blocks_of : (ℕ → Answer) → ℕ → ℕ → List (List ℕ)
blocks_of reads out_max zero = []
blocks_of reads out_max (suc n) = blocks_of reads out_max n ++ block_of reads out_max n ∷ []

abbrev pub total : List (List ℕ) → ℕ
total [] = 0
total (b ∷ bs) = length b + total bs

-- No block is empty.
abbrev pub Full : List (List ℕ) → Type 0
Full [] = Unit
Full (b ∷ bs) = (0 < length b) × Full bs

-- Why the loop ends after `n` blocks, in all `size` bytes, with this result: the next read fails, or it
-- delivers nothing, or more than the limit allows, or `func` asked to stop on the last block.
pub data Ends (reads : ℕ → Answer) (stops : ℕ → List ℕ → Bool) (limit out_max n size : ℕ)
    : Res → Type 0 where
  read_fails : reads n ≡ error → Ends reads stops limit out_max n size res_io
  at_end :
      (bs : List ℕ)
      → reads n ≡ bytes_of bs
      → length (take out_max bs) ≡ 0
      → Ends reads stops limit out_max n size res_ok
  too_long :
      (bs : List ℕ)
      → reads n ≡ bytes_of bs
      → limit < size + length (take out_max bs)
      → Ends reads stops limit out_max n size rrrnum_oversz
  stopped :
      (m : ℕ)
      → n ≡ m + 1
      → stops m (block_of reads out_max m) ≡ true
      → Ends reads stops limit out_max n size res_misc

-- What the loop of `__fio_easyrw_read` hands out: the blocks of the first `count` reads, none of them
-- empty, in all no more than the limit. `func` asked to stop on none of them but the last, and the
-- result says why there is no other.
pub record Handed (reads : ℕ → Answer) (stops : ℕ → List ℕ → Bool) (limit out_max : ℕ)
    (r : Res × List (List ℕ)) : Type 0 where
  pub count : ℕ
  pub went_on :
      (m : ℕ)
      → m < count
      → stops m (block_of reads out_max m) ≡ true
      → (m + 1 ≡ count) × (r.0 ≡ res_misc)
  pub why : Ends reads stops limit out_max count (total r.1) r.0
  pub blocks : r.1 ≡ blocks_of reads out_max count
  pub full : Full r.1
  pub within : (limit ≡ 0) ⊎ (total r.1 ≤ limit)

below-cases : (m n : ℕ) → m < n + 1 → (m < n) ⊎ (m ≡ n)
below-cases m n h = ground arith

total-append : (xs ys : List (List ℕ)) → total (xs ++ ys) ≡ total xs + total ys
total-append [] ys = omega arith
total-append (x ∷ xs) ys = omega (arith, total-append xs ys)

Full-append : (xs ys : List (List ℕ)) → Full xs → Full ys → Full (xs ++ ys)
Full-append [] ys f g = g
Full-append (x ∷ xs) ys f g = (f.0, Full-append xs ys f.1 g)

blocks_of-add_one :
    (reads : ℕ → Answer) (out_max n : ℕ) (bs : List ℕ)
    → reads n ≡ bytes_of bs
    → blocks_of reads out_max (n + 1) ≡ blocks_of reads out_max n ++ take out_max bs ∷ []
blocks_of-add_one reads out_max n bs e =
    let next : n + 1 ≡ suc n = omega arith in rw next (rw (e, blocks_of, block_of) refl)

module _ (reads : ℕ → Answer) (stops : ℕ → List ℕ → Bool) (limit out_max : ℕ)
    (word : limit + out_max < 2 ^ 64) (bounded : 0 < limit) where
  -- Before read `n`.
  pub record Begun (n accl : ℕ) (blocks : List (List ℕ)) : Type 0 where
    pub so_far : blocks ≡ blocks_of reads out_max n
    pub full : Full blocks
    pub counted : accl ≡ total blocks
    pub within : total blocks ≤ limit
    pub unstopped : (m : ℕ) → m < n → stops m (block_of reads out_max m) ≡ false

  Begun-Handed :
      (res : Res) (n accl : ℕ) (blocks : List (List ℕ))
      → Begun n accl blocks
      → Ends reads stops limit out_max n (total blocks) res
      → Handed reads stops limit out_max (res, blocks)
  Begun-Handed res n accl blocks b why = record {
    count = n;
    went_on = λ m h e. cc (e, b.unstopped m h);
    why = why;
    blocks = b.so_far;
    full = b.full;
    within = inr b.within;
  }

  Begun-step :
      (n accl : ℕ) (blocks : List (List ℕ)) (bs : List ℕ)
      → Begun n accl blocks
      → reads n ≡ bytes_of bs
      → 0 < length (take out_max bs)
      → accl + length (take out_max bs) ≤ limit
      → stops n (take out_max bs) ≡ false
      → Begun (n + 1) (accl + length (take out_max bs)) (blocks ++ take out_max bs ∷ [])
  Begun-step n accl blocks bs b e some_bytes fits go = record {
    so_far =
        rw (blocks_of-add_one reads out_max n bs e) (ap (λ l. l ++ take out_max bs ∷ []) b.so_far);
    full = Full-append blocks (take out_max bs ∷ []) b.full (some_bytes, tt);
    counted = omega (arith, b.counted, total-append blocks (take out_max bs ∷ []));
    within = omega (arith, b.counted, total-append blocks (take out_max bs ∷ []));
    unstopped = λ m h. elim (below-cases m n h) [
      | inl lt ↦ b.unstopped m lt
      | inr same ↦ rw (same, e, block_of) go
    ];
  }

  -- `func` asked to stop on the block of read `n`.
  stop-Handed :
      (n accl : ℕ) (blocks : List (List ℕ)) (bs : List ℕ)
      → Begun n accl blocks
      → reads n ≡ bytes_of bs
      → 0 < length (take out_max bs)
      → accl + length (take out_max bs) ≤ limit
      → stops n (take out_max bs) ≡ true
      → Handed reads stops limit out_max (res_misc, blocks ++ take out_max bs ∷ [])
  stop-Handed n accl blocks bs b e some_bytes fits stop = record {
    count = n + 1;
    went_on = λ m h asked. elim (below-cases m n h) [
      | inl lt ↦ cc (asked, b.unstopped m lt)
      | inr same ↦ (ap (λ x. x + 1) same, refl)
    ];
    why = stopped n refl (rw (e, block_of) stop);
    blocks =
        rw (blocks_of-add_one reads out_max n bs e) (ap (λ l. l ++ take out_max bs ∷ []) b.so_far);
    full = Full-append blocks (take out_max bs ∷ []) b.full (some_bytes, tt);
    within = inr (omega (arith, b.counted, total-append blocks (take out_max bs ∷ [])));
  }

  -- Every round hands out at least one byte, so the limit bounds the rounds.
  pub block_loop-Handed :
      (fuel n accl : ℕ) (blocks : List (List ℕ))
      → limit < fuel + accl
      → Begun n accl blocks
      → Returns
          (Handed reads stops limit out_max)
          (block_loop reads stops limit out_max fuel n accl blocks)
  unfolding block_loop
  block_loop-Handed zero n accl blocks lt b = absurd (omega (arith, b.counted, b.within))
  block_loop-Handed (suc fuel) n accl blocks lt b = elim (Answer-cases (reads n)) [
    | inl e ↦ rw (e, block_loop) (returns (Begun-Handed res_io n accl blocks b (read_fails e)))
    | inr (bs, e) ↦
        let got = take out_max bs in
        let taken = length-take out_max bs in
        let exact : (accl + length got) % 2 ^ 64 ≡ accl + length got =
          omega (arith, taken, b.counted, b.within) in
        elim (Bool-cases (length got == 0)) [
          | inl end ↦
              rw (e, block_loop, end)
                (returns (Begun-Handed res_ok n accl blocks b (at_end bs e (ground arith))))
          | inr more ↦ elim (Bool-cases (not (limit == 0) && ltb limit (accl + length got))) [
            | inl over ↦
                rw (e, block_loop, more, exact, over)
                  (returns (
                    Begun-Handed rrrnum_oversz n accl blocks b
                      (too_long bs e (ground (arith, b.counted)))))
            | inr fits ↦
                let some_bytes : 0 < length got = ground arith in
                let below : accl + length got ≤ limit = ground arith in
                elim (Bool-cases (stops n got)) [
                  | inl stop ↦
                      rw (e, block_loop, more, exact, fits, stop)
                        (returns (stop-Handed n accl blocks bs b e some_bytes below stop))
                  | inr go ↦
                      rw (e, block_loop, more, exact, fits, go)
                        (block_loop-Handed fuel (n + 1) (accl + length got) (blocks ++ got ∷ [])
                          (ground arith) (Begun-step n accl blocks bs b e some_bytes below go))
                ]
          ]
        ]
  ]
