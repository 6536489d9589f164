-- ===== src/Fio/Easyrw/Simple.antt =====
-- `fio_easyrw_read_simple` of template-v1/src/lgu/fio/fio_easyrw.c.
use linux_c_template.Prelude.{
  ℕ, ◌+◌, ◌%◌, ◌^◌, ◌<◌, ◌≡◌, ◌≢◌, refl, ◌⊎◌, inl, inr, Bool, true, false, not, ◌&&◌, none, some,
  List, [], arith, ap, sym, subst, Option,
}
use linux_c_template.Prelude.Tests.{ltb, ◌==◌, if◌then◌else◌, Bool-cases, is_some}
use linux_c_template.Prelude.Lists.{length, take, take-nil}
use linux_c_template.Prelude.Outcome.{◌>>=◌, ok, Returns, returns, Returns-mono, Returns-bind}
use linux_c_template.Fio.Easyrw.{
  Process, Kernel, Answer, Res, res_ok, res_io, res_open, res_inval, res_nomem, rrrnum_oversz,
  with_buffer, len_after, open_simple, read_simple_from, close_after, load_simple, stat_simple,
  read_simple, Buffer, free_out, alloc_out, page_sz,
}
use linux_c_template.Fio.Easyrw.Loops.{delivered, Progress, Filled, simple_loop-Filled}
use linux_c_template.Fio.Easyrw.Buffers.{Owns, free_out-Clean}

-- The reader holds the whole file: the first `size` bytes that the reads delivered.
pub record Holds (reads : ℕ → Answer) (size others : ℕ) (q : Process) : Type 0 where
  pub buffer : Buffer
  pub count : ℕ
  pub out : q.erw.out ≡ some buffer
  pub content : buffer.bytes ≡ take size (delivered reads count)
  pub whole : length buffer.bytes ≡ size
  pub out_len : q.erw.out_len ≡ size
  pub buffers : q.buffers ≡ others + 1

-- What a call leaves: no descriptor more than before, and the file in the buffer or no buffer.
pub record Loaded (reads : ℕ → Answer) (size others fds : ℕ) (r : Res × Process) : Type 0 where
  pub fds_kept : r.1.fds ≡ fds
  pub result :
      ((r.0 ≡ res_ok) × Holds reads size others r.1)
      ⊎ ((r.0 ≢ res_ok) × (r.1.erw.out ≡ none) × (r.1.buffers ≡ others))

-- The process after the loop.
abbrev after_loop : ℕ → Process → Res → List ℕ → Process
after_loop size p res bytes = record p {
  erw = record p.erw {
    out = some (record { cap = size + page_sz; bytes = bytes });
    out_len = len_after res size 0;
    out_max = size;
  };
  fds = p.fds + 1;
  buffers = p.buffers + 1;
}

module _ (reads : ℕ → Answer) (size : ℕ) (p : Process) where
  close-ok :
      (bytes : List ℕ) (n : ℕ)
      → bytes ≡ take size (delivered reads n)
      → length bytes ≡ size
      → Loaded reads size p.buffers p.fds (close_after (res_ok, after_loop size p res_ok bytes))
  unfolding close_after
  close-ok bytes n content whole = record {
    fds_kept = omega arith;
    result = inl (
      refl,
      record {
        buffer = record { cap = size + page_sz; bytes = bytes };
        count = n;
        out = refl;
        content = content;
        whole = whole;
        out_len = refl;
        buffers = refl;
      },
    );
  }

  close-io :
      (bytes : List ℕ)
      → Loaded reads size p.buffers p.fds (close_after (res_io, after_loop size p res_io bytes))
  unfolding close_after free_out
  close-io bytes = record { fds_kept = omega arith; result = inr ((λ e. cc), refl, omega arith) }

  close-Loaded :
      (res : Res) (bytes : List ℕ)
      → Filled reads size (res, bytes)
      → Loaded reads size p.buffers p.fds (close_after (res, after_loop size p res bytes))
  close-Loaded res bytes f = split f.outcome
    where
      split :
          ((res ≡ res_ok) × (length bytes ≡ size)) ⊎ (res ≡ res_io)
          → Loaded reads size p.buffers p.fds (close_after (res, after_loop size p res bytes))
      split (inl (e, whole)) = rw e (close-ok bytes f.count f.content whole)
      split (inr e) = rw e (close-io bytes)

module _ (k : Kernel) (size : ℕ) (some_bytes : 0 < size) (fits : size + page_sz < 2 ^ 32) where
  start : Progress k.reads size 0 size []
  start = record { content = sym (take-nil size); room = omega arith; measured = omega arith }

  module _ (p : Process) (fuel : ℕ) (enough : size < fuel) where
    open_simple-Loaded :
        Returns (Loaded k.reads size p.buffers p.fds) (open_simple k fuel size (with_buffer size p))
    unfolding open_simple free_out read_simple_from
    open_simple-Loaded =
        let word : size % 2 ^ 32 ≡ size = omega arith in
        let positive : (size == 0) ≡ false = ground arith in
        let cap : (size + page_sz) % 2 ^ 32 ≡ size + page_sz = omega arith in
        elim (Bool-cases k.opens) [
          | inl opened ↦
              rw (opened, word, positive, cap)
                (Returns-bind
                  {P = λ (res, q).
                    (bytes : List ℕ) × Filled k.reads size (res, bytes)
                    × (q ≡ after_loop size p res bytes)}
                  (Returns-bind
                    (simple_loop-Filled k.reads (size + page_sz) size (omega arith) (omega arith)
                      fuel 0 size [] enough start)
                    λ (res, bytes) f. returns (bytes, f, refl))
                  λ (res, q) (bytes, f, e).
                    rw e (returns (close-Loaded k.reads size p res bytes f)))
          | inr shut ↦
              rw shut
                (returns (record { fds_kept = refl; result = inr ((λ e. cc), refl, omega arith) }))
        ]

    failed-Loaded :
        (res : Res) → p.erw.out ≡ none → res ≢ res_ok → Loaded k.reads size p.buffers p.fds (res, p)
    failed-Loaded res clean bad = record { fds_kept = refl; result = inr (bad, clean, refl) }

    alloc_then-Loaded :
        p.erw.out ≡ none
        → Returns (Loaded k.reads size p.buffers p.fds) (do
          (failed, q) ← alloc_out k.mallocs (size % 2 ^ 32) p
          if failed then ok (res_nomem, q) else open_simple k fuel size q)
    unfolding alloc_out
    alloc_then-Loaded clean =
        let word : size % 2 ^ 32 ≡ size = omega arith in
        let unused : is_some p.erw.out ≡ false = ap is_some clean in
        elim (Bool-cases k.mallocs) [
          | inl made ↦
              simp (unused, made)
                (subst (Returns (Loaded k.reads size p.buffers p.fds)) (sym (same word))
                  open_simple-Loaded)
          | inr full ↦ rw (unused, full) (returns (failed-Loaded res_nomem clean (λ e. cc)))
        ]
      where
        same :
            {len : ℕ}
            → len ≡ size
            → open_simple k fuel size (with_buffer len p)
              ≡ open_simple k fuel size (with_buffer size p)
        same e = ap (λ n. open_simple k fuel size (with_buffer n p)) e

    load_simple-Loaded :
        (regular : Bool)
        → p.erw.out ≡ none
        → Returns (Loaded k.reads size p.buffers p.fds) (load_simple k fuel (regular, size) p)
    unfolding load_simple
    load_simple-Loaded false clean = returns (failed-Loaded res_open clean (λ e. cc))
    load_simple-Loaded true clean =
        elim (Bool-cases (not (p.erw.limit == 0) && ltb p.erw.limit size)) [
          | inl over ↦ rw over (returns (failed-Loaded rrrnum_oversz clean (λ e. cc)))
          | inr within ↦ rw within (alloc_then-Loaded clean)
        ]

    stat_simple-Loaded :
        (path : Option (List ℕ)) (st : Option (Bool × ℕ)) (regular : Bool)
        → st ≡ some (regular, size)
        → p.erw.out ≡ none
        → Returns (Loaded k.reads size p.buffers p.fds) (stat_simple k fuel path st p)
    unfolding stat_simple
    stat_simple-Loaded none st regular e clean = returns (failed-Loaded res_inval clean (λ e. cc))
    stat_simple-Loaded (some _) st regular e clean =
        rw (e, stat_simple) (load_simple-Loaded regular clean)

  -- With a reader that owns its buffer, and on a file that `stat` calls non-empty and shorter than 2^32 - 4096 bytes, `fio_easyrw_read_simple`
  -- returns after at most `size + 1` reads, whatever the system calls answer. It writes to no memory
  -- but its buffer and leaves no descriptor open. On success the buffer holds the `size` bytes that the
  -- reads delivered first; on any error the reader has no buffer. A buffer that it had is freed.
  pub read_simple-Loaded :
      (p : Process) (others fuel : ℕ) (regular : Bool)
      → Owns others p
      → k.stat ≡ some (regular, size)
      → size < fuel
      → Returns (Loaded k.reads size others p.fds) (read_simple k fuel p)
  unfolding read_simple
  read_simple-Loaded p others fuel regular own e enough =
      let clean = free_out-Clean others p own in
      Returns-mono
        (stat_simple-Loaded (free_out p) fuel enough p.erw.path k.stat regular e clean.no_out)
        λ r l. rw (clean.buffers, clean.fds) at l
