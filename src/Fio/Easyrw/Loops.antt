-- ===== src/Fio/Easyrw/Loops.antt =====
-- The two read loops of template-v1/src/lgu/fio/fio_easyrw.c.
use linux_c_template.Prelude.{
  ℕ, zero, suc, ◌+◌, ◌-◌, ◌%◌, ◌^◌, ◌≤◌, ◌<◌, ◌≡◌, refl, ◌⊎◌, inl, inr, false, not, List, [], ◌∷◌,
  ◌++◌, arith, ap, sym, ◌∙◌,
}
use linux_c_template.Prelude.Tests.{ltb, ◌==◌, if◌then◌else◌, Bool-cases}
use linux_c_template.Prelude.Lists.{length, take, length-append, length-take}
use linux_c_template.Prelude.Outcome.{Returns, returns}
use linux_c_template.Fio.Easyrw.{Answer, error, bytes_of, Res, res_ok, res_io, simple_loop}

-- What the first `n` reads would deliver, joined.
abbrev pub delivered : (ℕ → Answer) → ℕ → List ℕ
delivered reads zero = []
delivered reads (suc n) = delivered reads n ++ (elim (reads n) [ error ↦ [] | bytes_of bs ↦ bs ])

take-append {ℓ} :
    {A : Type ℓ} (n : ℕ) (xs ys : List A) → take n (xs ++ ys) ≡ take n xs ++ take (n - length xs) ys
take-append zero [] ys = refl
take-append zero (x ∷ xs) ys = let e : zero - suc (length xs) ≡ 0 = omega arith in rw e
take-append (suc n) [] ys = let e : suc n - 0 ≡ suc n = omega arith in rw e
take-append (suc n) (x ∷ xs) ys =
    let e : suc n - suc (length xs) ≡ n - length xs = omega arith in
    rw e (ap (◌∷◌ x) (take-append n xs ys))

pub Answer-cases : (a : Answer) → (a ≡ error) ⊎ ((bs : List ℕ) × (a ≡ bytes_of bs))
Answer-cases error = inl refl
Answer-cases (bytes_of bs) = inr (bs, refl)

pub delivered-add_one :
    (reads : ℕ → Answer) (n : ℕ) (bs : List ℕ)
    → reads n ≡ bytes_of bs
    → delivered reads (n + 1) ≡ delivered reads n ++ bs
delivered-add_one reads n bs e =
    let next : n + 1 ≡ suc n = omega arith in rw next (rw (e, delivered) refl)

-- How far a loop over `size` bytes has come before read `n`: it has `buf`, and room for `p_unused`.
pub record Progress (reads : ℕ → Answer) (size n p_unused : ℕ) (buf : List ℕ) : Type 0 where
  pub content : buf ≡ take size (delivered reads n)
  pub room : p_unused ≡ size - length (delivered reads n)
  pub measured : length buf + p_unused ≡ size

pub Progress-step :
    (reads : ℕ → Answer) (size n p_unused : ℕ) (buf bs : List ℕ)
    → reads n ≡ bytes_of bs
    → Progress reads size n p_unused buf
    → Progress reads size (n + 1) (p_unused - length (take p_unused bs)) (buf ++ take p_unused bs)
Progress-step reads size n p_unused buf bs e p =
    let d = delivered reads n in
    let got = length-take p_unused bs in
    let next = delivered-add_one reads n bs e in
    record {
      content =
          rw next
            (ap (λ b. b ++ take p_unused bs) p.content ∙ rw p.room (sym (take-append size d bs)));
      room = omega (arith, length-append d bs, p.room, got, ap length next);
      measured = omega (arith, length-append buf (take p_unused bs), p.measured, got);
    }

-- The loop of `fio_easyrw_read_simple` fills the buffer from what the reads deliver, never writes
-- beyond it, and succeeds only when all of `size` bytes came.
pub record Filled (reads : ℕ → Answer) (size : ℕ) (r : Res × List ℕ) : Type 0 where
  pub count : ℕ
  pub content : r.1 ≡ take size (delivered reads count)
  pub outcome : ((r.0 ≡ res_ok) × (length r.1 ≡ size)) ⊎ (r.0 ≡ res_io)

module _ (reads : ℕ → Answer) (cap size : ℕ) (word : size < 2 ^ 32) (roomy : size ≤ cap) where
  -- The end of the file.
  ended-Filled :
      (n p_unused : ℕ) (buf : List ℕ)
      → Progress reads size n p_unused buf
      → Filled reads size (if not (length buf == size) then res_io else res_ok, buf)
  ended-Filled n p_unused buf p = record { count = n; content = p.content; outcome = ground arith }

  pub simple_loop-Filled :
      (fuel n p_unused : ℕ) (buf : List ℕ)
      → p_unused < fuel
      → Progress reads size n p_unused buf
      → Returns (Filled reads size) (simple_loop reads cap size fuel n (length buf) p_unused buf)
  unfolding simple_loop
  simple_loop-Filled zero n p_unused buf lt p = absurd (omega arith)
  simple_loop-Filled (suc fuel) n p_unused buf lt p = elim (Answer-cases (reads n)) [
    | inl e ↦
        rw (e, simple_loop)
          (returns (record { count = n; content = p.content; outcome = inr refl }))
    | inr (bs, e) ↦ elim (Bool-cases (length (take p_unused bs) == 0)) [
      | inl end ↦ rw (e, simple_loop, end) (returns (ended-Filled n p_unused buf p))
      | inr more ↦
          let got = take p_unused bs in
          let taken = length-take p_unused bs in
          let joined = length-append buf got in
          let exact : (length buf + length got) % 2 ^ 32 ≡ length (buf ++ got) =
            omega (arith, p.measured) in
          let inside : ltb cap (length buf + length got) ≡ false =
            ground (arith, p.measured, taken) in
          let not_over : ltb size (length (buf ++ got)) ≡ false =
            ground (arith, p.measured, taken, joined) in
          let rest =
            simple_loop-Filled fuel (n + 1) (p_unused - length got) (buf ++ got)
              (ground (arith, taken)) (Progress-step reads size n p_unused buf bs e p) in
          rw (e, simple_loop, more, exact, inside, not_over) rest
    ]
  ]
