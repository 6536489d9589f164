-- ===== src/Mempool/Init.antt =====
-- `mempool_init` of template-v1/src/mempool/mempool.c.
use linux_c_template.Prelude.{
  ℕ, ◌-◌, ◌^◌, ◌≤◌, ◌≡◌, ◌≢◌, false, refl, Option, none, some, List, [], ◌∷◌, arith,
}
use linux_c_template.Prelude.Tests.{◌==◌}
use linux_c_template.Prelude.Outcome.{aborted, Returns, returns}
use linux_c_template.ListHead.{ListHead}
use linux_c_template.Mempool.{Memory, Ctor, Dtor, null, init}
use linux_c_template.Mempool.SliceSize.{calc_slice_size_bounds}
use linux_c_template.Mempool.Invariant.{CtorOwn, DtorOwn, IsPool}

module _ (lh : ListHead) (size limit : ℕ) (c : Option Ctor) (d : Option Dtor) (mem : Memory) where
  -- For slices of at most 2^32 - 8 bytes, and callbacks that keep to their own slice, with a `ctor` that
  -- accepts `NULL`, `mempool_init` makes a well formed pool with no slices, on every name but the empty
  -- one, at every address but `NULL`. It aborts on `NULL`, on an empty name and on no name.
  pub init-IsPool :
      size ≤ 2 ^ 32 - 8
      → CtorOwn c
      → DtorOwn d
      → mem null ≡ none
      → ((mp n : ℕ) (name : List ℕ)
          → mp ≢ null
          → Returns
              (λ s. IsPool lh [] s × (s.pool.ref ≡ 0) × (s.pool.max ≡ limit) × (size ≤ s.pool.sz))
              (init lh mp (some (n ∷ name)) size limit c d mem))
        × ((name : Option (List ℕ)) → init lh null name size limit c d mem ≡ aborted)
        × ((mp : ℕ) → init lh mp (some []) size limit c d mem ≡ aborted)
        × ((mp : ℕ) → init lh mp none size limit c d mem ≡ aborted)
  unfolding init
  init-IsPool small own_c own_d no_null = (
    λ mp n name real.
        let real_address : (mp == null) ≡ false = ground arith in
        let (fits, roomy, _, _) = calc_slice_size_bounds size small in
        rw real_address (
          returns (
            record {
              owned = record {
                shape = rw lh.entries-init_list_head (record {
                  apart = tt;
                  linked = tt;
                  separate = λ p i. refl;
                  counted = refl;
                  marked = λ p i. cc;
                  held = λ p i. cc;
                  no_null = no_null;
                  capped = omega arith;
                  fits = omega arith;
                  roomy = roomy;
                });
                ctor_own = own_c;
                dtor_own = own_d;
              };
              unlocked = refl;
            },
            refl,
            refl,
            fits,
          )),
    aborts_null,
    λ mp. refl,
    λ mp. refl,
  )
    where
      aborts_null : (name : Option (List ℕ)) → init lh null name size limit c d mem ≡ aborted
      aborts_null none = refl
      aborts_null (some []) = refl
      aborts_null (some (n ∷ name)) = refl
