-- ===== src/Lfq.antt =====
-- What the program uses of rculfqueue.h of userspace-rcu, a library outside the repository: a
-- lock-free queue of jobs. A job is named by its address.
use linux_c_template.Prelude.{ℕ, ◌≡◌, refl, Option, none, some, List, [], ◌∷◌, ◌++◌, arith}

-- The laws are what the library documents: each operation takes effect at one moment, and jobs leave
-- in the order in which they came.
pub record Lfq : Type 1 where
  pub Queue : Type 0
  pub cds_lfq_init : Queue
  pub cds_lfq_enqueue : ℕ → Queue → Queue
  pub cds_lfq_dequeue : Queue → Option (ℕ × Queue)
  pub contents : Queue → List ℕ
  pub contents-init : contents cds_lfq_init ≡ []
  pub contents-enqueue : (j : ℕ) (q : Queue) → contents (cds_lfq_enqueue j q) ≡ contents q ++ j ∷ []
  pub contents-dequeue :
      (q : Queue) (j : ℕ) (q' : Queue)
      → cds_lfq_dequeue q ≡ some (j, q')
      → contents q ≡ j ∷ contents q'
  pub contents-dequeue_none : (q : Queue) → cds_lfq_dequeue q ≡ none → contents q ≡ []

abbrev pub uncons : List ℕ → Option (ℕ × List ℕ)
uncons [] = none
uncons (j ∷ q) = some (j, q)

pub uncons-some : (q : List ℕ) (j : ℕ) (q' : List ℕ) → uncons q ≡ some (j, q') → q ≡ j ∷ q'
uncons-some [] j q' e = cc
uncons-some (i ∷ q) j q' e = ground arith

pub uncons-none : (q : List ℕ) → uncons q ≡ none → q ≡ []
uncons-none [] e = refl
uncons-none (i ∷ q) e = cc

-- A sequence meets the laws, so they can be met.
abbrev pub sequence : Lfq
sequence = record {
  Queue = List ℕ;
  cds_lfq_init = [];
  cds_lfq_enqueue = λ j q. q ++ j ∷ [];
  cds_lfq_dequeue = uncons;
  contents = λ q. q;
  contents-init = refl;
  contents-enqueue = λ j q. refl;
  contents-dequeue = uncons-some;
  contents-dequeue_none = uncons-none;
}
