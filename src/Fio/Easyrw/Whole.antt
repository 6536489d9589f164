-- ===== src/Fio/Easyrw/Whole.antt =====
-- `fio_easyrw_read_simple` of template-v1/src/lgu/fio/fio_easyrw.c on a file that can be read.
use linux_c_template.Prelude.{
  ℕ, zero, suc, ◌+◌, ◌-◌, ◌%◌, ◌^◌, ◌≤◌, ◌<◌, ◌≡◌, refl, inl, inr, true, false, List, [], ◌++◌,
  arith, ap, sym, subst,
}
use linux_c_template.Prelude.Tests.{ltb, ◌==◌}
use linux_c_template.Prelude.Lists.{length, take, length-append, length-take, take-nil}
use linux_c_template.Prelude.Outcome.{Outcome, Returns, returns, Returns-bind, Returns-mono}
use linux_c_template.Fio.Easyrw.{
  Process, Kernel, Answer, bytes_of, Res, res_ok, simple_loop, with_buffer, open_simple,
  read_simple_from, close_after, read_simple, free_out, page_sz,
}
use linux_c_template.Fio.Easyrw.Loops.{delivered, delivered-add_one, Progress, Progress-step}
use linux_c_template.Fio.Easyrw.Buffers.{Owns}
use linux_c_template.Fio.Easyrw.Simple.{Holds, read_simple-Loaded}
use linux_c_template.Fio.Easyrw.Faults.{Admitted, open_reached}

-- The reads before read `n` deliver the `size` bytes, and read `n` finds the end of the file.
pub record Complete (reads : ℕ → Answer) (size n : ℕ) : Type 0 where
  pub before : (j : ℕ) → j < n → (bs : List ℕ) × (reads j ≡ bytes_of bs) × (0 < length bs)
  pub total : length (delivered reads n) ≡ size
  pub end : reads n ≡ bytes_of []

delivered-le :
    (reads : ℕ → Answer) (j m : ℕ) → length (delivered reads j) ≤ length (delivered reads (j + m))
delivered-le reads j zero = let e : j + 0 ≡ j = omega arith in rw e (omega arith)
delivered-le reads j (suc m) =
    let e : j + suc m ≡ suc (j + m) = omega arith in
    rw e (omega (arith, delivered-le reads j m, length-append (delivered reads (j + m)) _))

module _ (reads : ℕ → Answer) (cap size n : ℕ) (word : size < 2 ^ 32) (roomy : size ≤ cap)
    (c : Complete reads size n) where
  simple_loop-ok :
      (m fuel j p_unused : ℕ) (buf : List ℕ)
      → j + m ≡ n
      → m < fuel
      → Progress reads size j p_unused buf
      → Returns
          (λ (res, bytes). res ≡ res_ok)
          (simple_loop reads cap size fuel j (length buf) p_unused buf)
  unfolding simple_loop
  simple_loop-ok m zero j p_unused buf at lt p = absurd (omega arith)
  simple_loop-ok zero (suc fuel) j p_unused buf at lt p =
      let here : j ≡ n = omega arith in
      let ended : reads j ≡ bytes_of [] = rw here c.end in
      let whole : (length buf == size) ≡ true =
        ground (arith, p.measured, p.room, ap (λ i. length (delivered reads i)) here, c.total) in
      rw (ended, simple_loop, take-nil p_unused, whole) (returns refl)
  simple_loop-ok (suc m) (suc fuel) j p_unused buf at lt p =
      let (bs, e, some_bytes) = c.before j (omega arith) in
      let got = take p_unused bs in
      let taken = length-take p_unused bs in
      let next = delivered-add_one reads j bs e in
      let later : j + 1 + m ≡ n = omega arith in
      let left = delivered-le reads (j + 1) m in
      let room : length bs ≤ p_unused = omega (
        arith,
        p.room,
        left,
        ap length next,
        length-append (delivered reads j) bs,
        c.total,
        ap (λ i. length (delivered reads i)) later,
      ) in
      let joined = length-append buf got in
      let more : (length got == 0) ≡ false = ground (arith, taken) in
      let exact : (length buf + length got) % 2 ^ 32 ≡ length (buf ++ got) =
        omega (arith, p.measured) in
      let inside : ltb cap (length buf + length got) ≡ false = ground (arith, p.measured, taken) in
      let not_over : ltb size (length (buf ++ got)) ≡ false =
        ground (arith, p.measured, taken, joined) in
      rw (e, simple_loop, more, exact, inside, not_over)
        (simple_loop-ok m fuel (j + 1) (p_unused - length got) (buf ++ got) later (omega arith)
          (Progress-step reads size j p_unused buf bs e p))

close_after-ok : (done : Res × Process) → done.0 ≡ res_ok → (close_after done).0 ≡ res_ok
unfolding close_after
close_after-ok done e = e

Returns-both {ℓ} :
    {A : Type ℓ} {P Q : A → Type 0} {r : Outcome A}
    → Returns P r
    → Returns Q r
    → Returns (λ a. P a × Q a) r
Returns-both (returns p) (returns q) = returns (p, q)

module _ (k : Kernel) (size n : ℕ) (some_bytes : 0 < size) (fits : size + page_sz < 2 ^ 32)
    (c : Complete k.reads size n) where
  open_simple-ok :
      (fuel : ℕ) (p : Process)
      → n < fuel
      → k.opens ≡ true
      → Returns (λ (res, q). res ≡ res_ok) (open_simple k fuel size (with_buffer (size % 2 ^ 32) p))
  unfolding open_simple read_simple_from
  open_simple-ok fuel p lt opened =
      let word : size % 2 ^ 32 ≡ size = omega arith in
      let positive : (size == 0) ≡ false = ground arith in
      let cap : (size + page_sz) % 2 ^ 32 ≡ size + page_sz = omega arith in
      let start : Progress k.reads size 0 size [] = record {
        content = sym (take-nil size);
        room = omega arith;
        measured = omega arith;
      } in
      rw (opened, word, positive, cap)
        (Returns-bind
          (Returns-bind
            (simple_loop-ok k.reads (size + page_sz) size n (omega arith) (omega arith) c n fuel 0
              size [] (omega arith) lt start)
            λ (res, bytes) e. returns e)
          λ done e. returns (close_after-ok done e))

  -- With a reader that owns its buffer, a regular file within the limit, of fewer than 2^32 - 4096 bytes
  -- and not empty, and when `malloc` and `open` succeed and `n` reads deliver its `size` bytes before
  -- one that finds the end: `fio_easyrw_read_simple` succeeds, and the buffer holds those bytes.
  pub read_simple-Holds :
      (fuel : ℕ) (p : Process) (others : ℕ)
      → Admitted k size p
      → Owns others p
      → n < fuel
      → size < fuel
      → Returns (λ (res, q). (res ≡ res_ok) × Holds k.reads size others q) (read_simple k fuel p)
  read_simple-Holds fuel p others a own lt enough =
      let good =
        subst (Returns (λ (res, q). res ≡ res_ok)) (sym (open_reached k size fuel p a others own))
          (open_simple-ok fuel (free_out p) lt a.opens) in
      Returns-mono
        (Returns-both good
          (read_simple-Loaded k size some_bytes fits p others fuel true own a.stat enough))
        λ r (e, l). (e, elim l.result [ inl (_, h) ↦ h | inr (bad, _, _) ↦ absurd (bad e) ])
