-- ===== src/Main/Client/Holdings.antt =====
-- How many jobs the queues of template-v1/src/main.c hold, and how a step of one of them changes it.
use linux_c_template.Prelude.{Bool, ℕ, Bool, ◌+◌, ◌≡◌, List, [], ◌∷◌, arith, ap}
use linux_c_template.Prelude.Tests.{◌==◌, if◌then◌else◌}
use linux_c_template.Prelude.Lists.{length, length-append, count, count-append}
use linux_c_template.Lfq.{Lfq}
use linux_c_template.Threadwq.{System}
use linux_c_template.Threadwq.Jobs.{
  Jobs, Event, added, started, finished, Move, stay, add, start, finish, jobs, nothing, event,
}
use linux_c_template.Threadwq.Jobs.Refines.{Step-Move, init-jobs}
use linux_c_template.Main.Client.{One, first, beyond, init_multi}

abbrev pub held : ℕ → Jobs → ℕ
held x a = count x a.waiting + count x a.unfinished

abbrev pub waiting : Jobs → ℕ
waiting a = length a.waiting

abbrev pub unfinished : Jobs → ℕ
unfinished a = length a.unfinished

-- What an event adds to, and takes from, each of the three.
abbrev pub came : Event → ℕ
came (added _) = 1
came _ = 0

abbrev pub began : Event → ℕ
began (started _) = 1
began _ = 0

abbrev pub ended : Event → ℕ
ended (finished _) = 1
ended _ = 0

abbrev pub came_as : ℕ → Event → ℕ
came_as x (added j) = if x == j then 1 else 0
came_as x _ = 0

abbrev pub ended_as : ℕ → Event → ℕ
ended_as x (finished j) = if x == j then 1 else 0
ended_as x _ = 0

Move-held :
    (x : ℕ) {a b : Jobs} {e : Event} → Move a e b → held x b + ended_as x e ≡ held x a + came_as x e
Move-held x stay = omega arith
Move-held x {a} (add j) = omega (arith, count-append x a.waiting (j ∷ []))
Move-held x (start j rest e) = omega (arith, ap (count x) e)
Move-held x (finish xs j ys e) =
    omega (arith, ap (count x) e, count-append x xs ys, count-append x xs (j ∷ ys))

Move-waiting : {a b : Jobs} {e : Event} → Move a e b → waiting b + began e ≡ waiting a + came e
Move-waiting stay = omega arith
Move-waiting {a} (add j) = omega (arith, length-append a.waiting (j ∷ []))
Move-waiting (start j rest e) = omega (arith, ap length e)
Move-waiting (finish xs j ys e) = omega arith

Move-unfinished :
    {a b : Jobs} {e : Event} → Move a e b → unfinished b + ended e ≡ unfinished a + began e
Move-unfinished stay = omega arith
Move-unfinished (add j) = omega arith
Move-unfinished (start j rest e) = omega arith
Move-unfinished (finish xs j ys e) =
    omega (arith, ap length e, length-append xs ys, length-append xs (j ∷ ys))

module _ (lfq : Lfq) where
  abbrev pub total : (Jobs → ℕ) → List (System lfq.Queue) → ℕ
  total f [] = 0
  total f (s ∷ ss) = f (jobs lfq s) + total f ss

  -- A step of one queue changes the totals as the move of its jobs does.
  total-One :
      (f : Jobs → ℕ) (into out : Event → ℕ)
      → ((a b : Jobs) (e : Event) → Move a e b → f b + out e ≡ f a + into e)
      → {stopping : Bool} {ss ts : List (System lfq.Queue)} {e : Event} → One lfq stopping ss e ts
      → total f ts + out e ≡ total f ss + into e
  total-One f into out moved (first {s} {t} st e _) =
      let named = ap into e in
      let too = ap out e in
      omega (arith, moved (jobs lfq s) (jobs lfq t) (event lfq st) (Step-Move lfq st), named, too)
  total-One f into out moved (beyond o) = omega (arith, total-One f into out moved o)

  pub One-held :
      (x : ℕ) {stopping : Bool} {ss ts : List (System lfq.Queue)} {e : Event}
      → One lfq stopping ss e ts
      → total (held x) ts + ended_as x e ≡ total (held x) ss + came_as x e
  One-held x = total-One (held x) (came_as x) (ended_as x) (λ a b e m. Move-held x m)

  pub One-waiting :
      {stopping : Bool} {ss ts : List (System lfq.Queue)} {e : Event}
      → One lfq stopping ss e ts
      → total waiting ts + began e ≡ total waiting ss + came e
  One-waiting = total-One waiting came began (λ a b e m. Move-waiting m)

  pub One-unfinished :
      {stopping : Bool} {ss ts : List (System lfq.Queue)} {e : Event}
      → One lfq stopping ss e ts
      → total unfinished ts + ended e ≡ total unfinished ss + began e
  One-unfinished = total-One unfinished began ended (λ a b e m. Move-unfinished m)

  pub total-init_multi : (f : Jobs → ℕ) → f nothing ≡ 0 → total f (init_multi lfq) ≡ 0
  total-init_multi f e = omega (arith, e, ap f (init-jobs lfq))
