-- ===== src/Mempool/Threads/Acts.antt =====
-- Each step of a thread in template-v1/src/mempool/mempool.c keeps what is shared in order.
use linux_c_template.Prelude.{ℕ, ◌≤◌, ◌≡◌, refl, true, false, List, [], ◌∷◌, arith, ap, sym, ◌∙◌}
use linux_c_template.Prelude.Lists.{◌∈◌, count-mem, Distinct-count}
use linux_c_template.ListHead.{ListHead}
use linux_c_template.Mempool.{Memory, State, null, spin_unlock}
use linux_c_template.Mempool.Shape.{OwnBlock, Shape-OwnBlock, Shape-OwnBlock-null}
use linux_c_template.Mempool.Invariant.{IsOwned-locked}
use linux_c_template.Mempool.Threads.{Caller}
use linux_c_template.Mempool.Threads.Holders.{holds, has_marked, inside, total, Guarded}

pub marked-held : (x : ℕ) (cs : List Caller) → total (has_marked x) cs ≤ total (holds x) cs
marked-held x [] = omega arith
marked-held x (c ∷ cs) = ground (arith, marked-held x cs)

-- Two places in a call with the same slice.
abbrev pub Alike : Caller → Caller → Type 0
Alike c d = (x : ℕ) → (holds x d ≡ holds x c) × (has_marked x d ≡ has_marked x c)

module _ (lh : ListHead) {live : List ℕ} {s : State lh.Links} {users : List ℕ} where
  -- A step that touches nothing shared.
  pub moves-Guarded :
      (c d : Caller) {rest : List Caller}
      → Alike c d
      → inside d ≡ inside c
      → Guarded lh live s users (c ∷ rest)
      → Guarded lh live s users (d ∷ rest)
  moves-Guarded c d alike e g = record {
    owned = g.owned;
    same = λ x. omega (arith, g.same x, (alike x).0);
    exclusive = omega (arith, g.exclusive);
    marked = λ x h. g.marked x λ z. h (omega (arith, (alike x).1));
  }

  pub locks-Guarded :
      (c d : Caller) {rest : List Caller}
      → Alike c d
      → inside c ≡ 0
      → inside d ≡ 1
      → s.pool.locked ≡ false
      → Guarded lh live s users (c ∷ rest)
      → Guarded lh live (record s { pool = record s.pool { locked = true } }) users (d ∷ rest)
  locks-Guarded c d {rest} alike out into free g =
      let empty : total inside (c ∷ rest) ≡ 0 = g.exclusive ∙ rw free refl in
      record {
        owned = IsOwned-locked lh s true g.owned;
        same = λ x. omega (arith, g.same x, (alike x).0);
        exclusive = omega arith;
        marked = λ x h. g.marked x λ z. h (omega (arith, (alike x).1));
      }

  -- The thread inside is the one that holds the lock.
  pub inside-locked :
      (c : Caller) {rest : List Caller}
      → inside c ≡ 1
      → Guarded lh live s users (c ∷ rest)
      → (s.pool.locked ≡ true) × (total inside rest ≡ 0)
  inside-locked c into g = ground (arith, g.exclusive)

  pub unlocks-Guarded :
      (c d : Caller) {rest : List Caller}
      → Alike c d
      → inside c ≡ 1
      → inside d ≡ 0
      → Guarded lh live s users (c ∷ rest)
      → Guarded lh live (spin_unlock s) users (d ∷ rest)
  unfolding spin_unlock
  unlocks-Guarded c d {rest} alike into out g =
      let (_, alone) = inside-locked c into g in
      record {
        owned = IsOwned-locked lh s false g.owned;
        same = λ x. omega (arith, g.same x, (alike x).0);
        exclusive = omega arith;
        marked = λ x h. g.marked x λ z. h (omega (arith, (alike x).1));
      }

  -- Whoever holds a slice can write to it, as long as it has not been marked.
  pub writes-Guarded :
      (p : ℕ) (mem' : Memory) {cs : List Caller}
      → Guarded lh live s users cs
      → p ∈ live
      → total (has_marked p) cs ≡ 0
      → OwnBlock p s.mem mem'
      → Guarded lh live (record s { mem = mem' }) users cs
  writes-Guarded p mem' g i unmarked own = record {
    owned = record {
      shape = Shape-OwnBlock g.owned.shape p i own;
      ctor_own = g.owned.ctor_own;
      dtor_own = g.owned.dtor_own;
    };
    same = g.same;
    exclusive = g.exclusive;
    marked = λ x h. own.others x (λ e. h (rw e unmarked)) ∙ g.marked x h;
  }

  pub writes_null-Guarded :
      (mem' : Memory) {cs : List Caller}
      → Guarded lh live s users cs
      → OwnBlock null s.mem mem'
      → Guarded lh live (record s { mem = mem' }) users cs
  writes_null-Guarded mem' {cs} g own = record {
    owned = record {
      shape = Shape-OwnBlock-null g.owned.shape own;
      ctor_own = g.owned.ctor_own;
      dtor_own = g.owned.dtor_own;
    };
    same = g.same;
    exclusive = g.exclusive;
    marked = λ x h.
        own.others x (λ e. cc (sym (g.marked x h) ∙ ap s.mem e ∙ g.owned.shape.no_null))
        ∙ g.marked x h;
  }

  -- A slice that a thread holds is in use, and no other thread has marked it.
  pub holds-mem :
      (p : ℕ) (c : Caller) {rest : List Caller}
      → holds p c ≡ 1
      → Guarded lh live s users (c ∷ rest)
      → (p ∈ live) × (total (has_marked p) rest ≡ 0)
  holds-mem p c {rest} h g =
      let most = Distinct-count p live g.owned.shape.apart in
      let less = marked-held p rest in
      let all = g.same p in (count-mem p live (λ z. omega arith), omega arith)
