-- ===== src/Fio/Easyrw/BlockRead.antt =====
-- A whole call of `fio_easyrw_read` of template-v1/src/lgu/fio/fio_easyrw.c.
use linux_c_template.Prelude.{
  ℕ, ◌+◌, ◌^◌, ◌<◌, ◌≡◌, refl, ◌⊎◌, inl, inr, Bool, true, false, none, some, List, [], arith, ap,
  Option, ◌∙◌,
}
use linux_c_template.Prelude.Tests.{Bool-cases, is_some}
use linux_c_template.Prelude.Outcome.{Returns, returns, Returns-mono, Returns-bind}
use linux_c_template.Fio.Easyrw.{
  Process, Kernel, block_loop, block_sz, last_length, open_blocks, read_from, read, stat_blocks,
  Res, res_ok, res_open, res_inval, res_nomem, with_buffer, close_after, free_out, alloc_out,
  page_sz,
}
use linux_c_template.Fio.Easyrw.Buffers.{Owns, free_out-Clean}
use linux_c_template.Fio.Easyrw.Blocks.{Handed, Begun, block_loop-Handed}

-- Which call failed before the first read, and the result that says so.
pub data Refused (k : Kernel) : Option (List ℕ) → Option (Bool × ℕ) → Res → Type 0 where
  no_path : {st : Option (Bool × ℕ)} → Refused k none st res_inval
  no_file : {path : Option (List ℕ)} → Refused k path none res_open
  not_regular : {path : Option (List ℕ)} {size : ℕ} → Refused k path (some (false, size)) res_open
  no_memory :
      {path : Option (List ℕ)} {st : Option (Bool × ℕ)}
      → k.mallocs ≡ false
      → Refused k path st res_nomem
  not_opened :
      {path : Option (List ℕ)} {st : Option (Bool × ℕ)}
      → k.opens ≡ false
      → Refused k path st res_open

-- All these calls succeeded.
pub record Accepted (k : Kernel) (path : Option (List ℕ)) (st : Option (Bool × ℕ)) : Type 0 where
  pub named : is_some path ≡ true
  pub size : ℕ
  pub regular : st ≡ some (true, size)
  pub mallocs : k.mallocs ≡ true
  pub opens : k.opens ≡ true

-- What a call leaves: no descriptor more than before, no buffer, and the blocks handed out, none when a
-- call before the first read fails.
pub record Finished (k : Kernel) (stops : ℕ → List ℕ → Bool) (path : Option (List ℕ))
    (st : Option (Bool × ℕ)) (limit others fds : ℕ) (r : (Res × Process) × List (List ℕ))
    : Type 0 where
  pub fds_kept : r.0.1.fds ≡ fds
  pub no_out : r.0.1.erw.out ≡ none
  pub buffers : r.0.1.buffers ≡ others
  pub handed :
      (Refused k path st r.0.0 × (r.1 ≡ []))
      ⊎ (Accepted k path st × Handed k.reads stops limit block_sz (r.0.0, r.1))

-- The process after the loop.
abbrev after_blocks : Process → List (List ℕ) → Process
after_blocks p blocks = record p {
  erw = record p.erw {
    out = some (record { cap = block_sz + page_sz; bytes = [] });
    out_len = last_length 0 blocks;
    out_max = block_sz;
  };
  fds = p.fds + 1;
  buffers = p.buffers + 1;
}

close-Finished :
    (k : Kernel) (stops : ℕ → List ℕ → Bool) (path : Option (List ℕ)) (st : Option (Bool × ℕ))
    (limit : ℕ) (p : Process) (res : Res) (blocks : List (List ℕ))
    → Accepted k path st
    → Handed k.reads stops limit block_sz (res, blocks)
    → Finished k stops path st limit p.buffers p.fds (
      (
        (close_after (res, after_blocks p blocks)).0,
        free_out (close_after (res, after_blocks p blocks)).1,
      ),
      blocks,
    )
unfolding close_after free_out
close-Finished k stops path st limit p res_ok blocks a h = record {
  fds_kept = omega arith;
  no_out = refl;
  buffers = omega arith;
  handed = inr (a, h);
}
close-Finished k stops path st limit p _ blocks a h = record {
  fds_kept = omega arith;
  no_out = refl;
  buffers = omega arith;
  handed = inr (a, h);
}

module _ (k : Kernel) (stops : ℕ → List ℕ → Bool) (limit fuel : ℕ) (bounded : 0 < limit)
    (word : limit + block_sz < 2 ^ 64) (enough : limit < fuel) where
  start : Begun k.reads stops limit block_sz word bounded 0 0 []
  start = record {
    so_far = refl;
    full = tt;
    counted = refl;
    within = omega arith;
    unstopped = λ m h. absurd (omega arith);
  }

  module _ (p : Process) (set : p.erw.limit ≡ limit) where
    early-Finished :
        {path : Option (List ℕ)} {st : Option (Bool × ℕ)} (res : Res)
        → Refused k path st res
        → p.erw.out ≡ none
        → Finished k stops path st limit p.buffers p.fds ((res, p), [])
    early-Finished res refused clean = record {
      fds_kept = refl;
      no_out = clean;
      buffers = refl;
      handed = inl (refused, refl);
    }

    loop-Handed :
        Returns
          (Handed k.reads stops limit block_sz)
          (block_loop k.reads stops p.erw.limit block_sz fuel 0 0 [])
    loop-Handed = rw set (
        block_loop-Handed k.reads stops limit block_sz word bounded fuel 0 0 [] (omega arith) start)

    open_blocks-Finished :
        (path : Option (List ℕ)) (st : Option (Bool × ℕ))
        → (k.opens ≡ true → Accepted k path st)
        → Returns
            (Finished k stops path st limit p.buffers p.fds)
            (open_blocks k stops fuel (with_buffer block_sz p))
    unfolding open_blocks free_out read_from
    open_blocks-Finished path st accepted = elim (Bool-cases k.opens) [
      | inl opened ↦ simp opened (
          Returns-bind
            {P = λ ((res, q), blocks).
              Handed k.reads stops limit block_sz (res, blocks) × (q ≡ after_blocks p blocks)}
            (Returns-bind loop-Handed λ (res, blocks) h. returns (h, refl))
            λ ((res, q), blocks) (h, e).
              rw e
                (returns (close-Finished k stops path st limit p res blocks (accepted opened) h)))
      | inr shut ↦ simp shut (
          returns (record {
            fds_kept = refl;
            no_out = refl;
            buffers = omega arith;
            handed = inl (not_opened shut, refl);
          }))
    ]

    stat_blocks-Finished :
        (path : Option (List ℕ)) (st : Option (Bool × ℕ))
        → p.erw.out ≡ none
        → Returns
            (Finished k stops path st limit p.buffers p.fds)
            (stat_blocks k stops fuel path st p)
    unfolding stat_blocks alloc_out
    stat_blocks-Finished none st clean = returns (early-Finished res_inval no_path clean)
    stat_blocks-Finished (some _) none clean = returns (early-Finished res_open no_file clean)
    stat_blocks-Finished (some _) (some (false, size)) clean =
        returns (early-Finished res_open not_regular clean)
    stat_blocks-Finished (some name) (some (true, size)) clean =
        let unused : is_some p.erw.out ≡ false = ap is_some clean in
        elim (Bool-cases k.mallocs) [
          | inl made ↦
              simp (unused, made)
                (open_blocks-Finished (some name) (some (true, size)) λ opened. record {
                  named = refl;
                  size = size;
                  regular = refl;
                  mallocs = made;
                  opens = opened;
                })
          | inr full ↦
              simp (unused, full) (returns (early-Finished res_nomem (no_memory full) clean))
        ]

  -- With a limit set, less than 2^64 - 8192, and a reader that owns its buffer, `fio_easyrw_read`
  -- returns after at most `limit + 1` reads, whatever the system calls and the callback answer. It
  -- hands nothing out when the path, `stat`, `malloc` or `open` fails, with the result for that. Otherwise
  -- it hands out the blocks that the reads deliver, in order, none of them empty and in all no more than
  -- the limit, up to the first read that delivers nothing (the result is OK), fails (an I/O error) or
  -- exceeds the limit (OVERSZ), or up to the first block on which the callback asks to stop (MISC). It
  -- leaves no more descriptors open than before and no buffer of its own, on success and on every error.
  pub read-Finished :
      (p : Process) (others : ℕ)
      → Owns others p
      → p.erw.limit ≡ limit
      → Returns (Finished k stops p.erw.path k.stat limit others p.fds) (read k stops fuel p)
  unfolding read
  read-Finished p others own set =
      let clean = free_out-Clean others p own in
      Returns-mono
        (stat_blocks-Finished (free_out p) (clean.limit ∙ set) p.erw.path k.stat clean.no_out)
        λ r f. rw (clean.buffers, clean.fds) at f
