-- ===== src/Mempool/Shape.antt =====
-- The free slices of a pool and those that its users hold, for template-v1/src/mempool/mempool.c,
-- with what each of its memory operations does to them.
use linux_c_template.Prelude.{
  ℕ, suc, ◌+◌, ◌^◌, ◌≤◌, ◌<◌, ◌≡◌, ◌≢◌, ◌⊎◌, true, none, some, List, ◌∷◌, arith,
}
use linux_c_template.Prelude.Tests.{is_some}
use linux_c_template.Prelude.Lists.{
  length, ◌∈◌, ◌∉◌, Distinct, remove, length-remove, not-mem-remove, not-mem-remove_self,
  mem-of_mem-remove, Distinct-remove,
}
use linux_c_template.Mempool.Defs.{Memory, null, mempool_slice_magic, write}
use linux_c_template.Mempool.SliceSize.{sizeof_mempool_slice}

-- `ref` counts both kinds of slices; a free one carries the magic word.
pub record Shape (live cache : List ℕ) (ref max sz : ℕ) (mem : Memory) : Type 0 where
  pub apart : Distinct live
  pub linked : Distinct cache
  pub separate : (p : ℕ) → p ∈ cache → p ∉ live
  pub counted : ref ≡ length live + length cache
  pub marked : (p : ℕ) → p ∈ cache → mem p ≡ some mempool_slice_magic
  pub held : (p : ℕ) → p ∈ live → is_some (mem p) ≡ true
  pub no_null : mem null ≡ none
  pub capped : (max ≡ 0) ⊎ (ref ≤ max)
  pub fits : ref < 2 ^ 64
  pub roomy : sizeof_mempool_slice ≤ sz

-- A callback given the slice `p` writes to no other block, and allocates and frees none.
pub record OwnBlock (p : ℕ) (mem mem' : Memory) : Type 0 where
  pub others : (q : ℕ) → q ≢ p → mem' q ≡ mem q
  pub still : is_some (mem' p) ≡ is_some (mem p)

module _ {live cache : List ℕ} {ref max sz : ℕ} {mem : Memory}
    (shape : Shape live cache ref max sz mem) where
  open shape use {apart, linked, separate, counted, marked, held, no_null, capped, fits, roomy}

  -- A block of `malloc` is held by the caller.
  pub Shape-malloc :
      (p w : ℕ)
      → p ≢ null
      → mem p ≡ none
      → (max ≡ 0) ⊎ (ref < max)
      → ref + 1 < 2 ^ 64
      → Shape (p ∷ live) cache (ref + 1) max sz (write mem p (some w))
  unfolding write
  Shape-malloc p w ne new below room = record {
    apart = ground (arith, held p);
    linked = linked;
    separate = λ q i. ground (arith, separate q, marked q);
    counted = omega arith;
    marked = λ q i. ground (arith, marked q);
    held = λ q i. ground (arith, held q);
    no_null = ground arith;
    capped = ground arith;
    fits = room;
    roomy = roomy;
  }

  -- A slice that a user gives back, with the magic word, is cached.
  pub Shape-give_back :
      (p : ℕ)
      → p ∈ live
      → Shape (remove p live) (p ∷ cache) ref max sz (write mem p (some mempool_slice_magic))
  unfolding write
  Shape-give_back p i = record {
    apart = Distinct-remove p live apart;
    linked = ground (arith, separate p);
    separate =
        λ q j. ground (arith, separate q, not-mem-remove p q live, not-mem-remove_self p live);
    counted = omega (arith, length-remove p live i);
    marked = λ q j. ground (arith, marked q);
    held = λ q j. ground (arith, held q, mem-of_mem-remove p q live);
    no_null = ground (arith, held null);
    capped = capped;
    fits = fits;
    roomy = roomy;
  }

  -- A slice in use that has the magic word is cached.
  pub Shape-link :
      (p : ℕ)
      → p ∈ live
      → mem p ≡ some mempool_slice_magic
      → Shape (remove p live) (p ∷ cache) ref max sz mem
  Shape-link p i e = record {
    apart = Distinct-remove p live apart;
    linked = ground (arith, separate p);
    separate =
        λ q j. ground (arith, separate q, not-mem-remove p q live, not-mem-remove_self p live);
    counted = omega (arith, length-remove p live i);
    marked = λ q j. ground (arith, marked q);
    held = λ q j. ground (arith, held q, mem-of_mem-remove p q live);
    no_null = no_null;
    capped = capped;
    fits = fits;
    roomy = roomy;
  }

  -- A callback on a slice that a user holds changes nothing of this.
  pub Shape-OwnBlock :
      (p : ℕ) {mem' : Memory} → p ∈ live → OwnBlock p mem mem' → Shape live cache ref max sz mem'
  Shape-OwnBlock p i own = record {
    apart = apart;
    linked = linked;
    separate = separate;
    counted = counted;
    marked = λ q j. ground (arith, marked q, separate q, own.others q);
    held = λ q j. ground (arith, held q, own.others q, own.still);
    no_null = ground (arith, held null, own.others null);
    capped = capped;
    fits = fits;
    roomy = roomy;
  }

  -- Neither does one on `NULL`.
  pub Shape-OwnBlock-null :
      {mem' : Memory} → OwnBlock null mem mem' → Shape live cache ref max sz mem'
  Shape-OwnBlock-null own = record {
    apart = apart;
    linked = linked;
    separate = separate;
    counted = counted;
    marked = λ q j. ground (arith, marked q, own.others q);
    held = λ q j. ground (arith, held q, own.others q);
    no_null = ground (arith, own.still);
    capped = capped;
    fits = fits;
    roomy = roomy;
  }

module _ {live cache : List ℕ} {p ref max sz : ℕ} {mem : Memory}
    (shape : Shape live (p ∷ cache) ref max sz mem) where
  open shape use {apart, linked, separate, counted, marked, held, no_null, capped, fits, roomy}

  pub Shape-first_ne_null : p ≢ null
  Shape-first_ne_null e = ground (arith, marked p)

  -- The first cached slice is handed out.
  pub Shape-hand_out : Shape (p ∷ live) cache ref max sz mem
  Shape-hand_out = record {
    apart = ground (arith, separate p);
    linked = linked.1;
    separate = λ q i. ground (arith, separate q);
    counted = omega arith;
    marked = λ q i. ground (arith, marked q);
    held = λ q i. ground (arith, held q, marked q);
    no_null = no_null;
    capped = capped;
    fits = fits;
    roomy = roomy;
  }

  -- The first cached slice is freed.
  pub Shape-drop : (r : ℕ) → ref ≡ suc r → Shape live cache r max sz (write mem p none)
  unfolding write
  Shape-drop r e = record {
    apart = apart;
    linked = linked.1;
    separate = λ q i. ground (arith, separate q);
    counted = omega arith;
    marked = λ q i. ground (arith, marked q);
    held = λ q i. ground (arith, held q, separate p);
    no_null = ground arith;
    capped = ground arith;
    fits = omega arith;
    roomy = roomy;
  }
