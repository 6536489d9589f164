-- ===== src/Main/Writer/Enqueued.antt =====
-- The jobs that were added to each queue of the table of template-v1/src/main.c.
use linux_c_template.Prelude.{
  Bool, false, ℕ, suc, ◌≡◌, refl, some, List, [], ◌∷◌, ◌++◌, arith, ap, ◌∙◌,
}
use linux_c_template.Prelude.Lists.{length, get_elem?, set}
use linux_c_template.Lfq.{Lfq}
use linux_c_template.Threadwq.{System, Work, Add, Kill, works, adds, kills, grace}
use linux_c_template.Threadwq.Jobs.{Event}
use linux_c_template.Main.Client.{One, first, beyond}
use linux_c_template.Main.Writer.{AddCall, puts_locked, trylocks, call, On, this, that, is_add}

module _ (lfq : Lfq) where
  -- The jobs added to each queue.
  abbrev pub pool : List (System lfq.Queue) → List (List ℕ)
  pool [] = []
  pool (s ∷ ss) = s.enqueued ∷ pool ss

  pub length-pool : (ss : List (System lfq.Queue)) → length (pool ss) ≡ length ss
  length-pool [] = refl
  length-pool (s ∷ ss) = ap suc (length-pool ss)

  Work-enqueued : {s t : System lfq.Queue} → Work lfq s t → t.enqueued ≡ s.enqueued
  Work-enqueued (Work.ack at) = refl
  Work-enqueued w = refl

  Kill-enqueued : {s t : System lfq.Queue} → Kill lfq s t → t.enqueued ≡ s.enqueued
  Kill-enqueued (Kill.join_done e f) = refl
  Kill-enqueued k = refl

  pub One-pool :
      {stopping : Bool} {ss ts : List (System lfq.Queue)} {e : Event} (o : One lfq stopping ss e ts)
      → is_add lfq o ≡ false
      → pool ts ≡ pool ss
  One-pool (first {rest = rest} (works w) e _) b = ap (λ q. q ∷ pool rest) (Work-enqueued w)
  One-pool (first (adds a) e _) b = cc
  One-pool (first {rest = rest} (kills k) e _) b = ap (λ q. q ∷ pool rest) (Kill-enqueued k)
  One-pool (first (grace j i) e _) b = refl
  One-pool (beyond {s} o) b = ap (λ qs. s.enqueued ∷ qs) (One-pool o b)

  trylock-enqueued :
      {s t : System lfq.Queue} (a : Add lfq s t) → call lfq a ≡ trylocks → t.enqueued ≡ s.enqueued
  trylock-enqueued (Add.trylock free) e = refl
  trylock-enqueued a e = cc

  put-enqueued :
      {s t : System lfq.Queue} {j : ℕ} (a : Add lfq s t)
      → call lfq a ≡ puts_locked j
      → t.enqueued ≡ s.enqueued ++ j ∷ []
  put-enqueued {s} (Add.enqueue_locked i real mine) e = ground arith
  put-enqueued a e = cc

  pub On-trylocks :
      {i : ℕ} {what : AddCall} {ss ts : List (System lfq.Queue)}
      → what ≡ trylocks
      → On lfq i what ss ts
      → pool ts ≡ pool ss
  On-trylocks w (this {rest = rest} a e) = ap (λ q. q ∷ pool rest) (trylock-enqueued a (e ∙ w))
  On-trylocks w (that {s = s} on) = ap (λ qs. s.enqueued ∷ qs) (On-trylocks w on)

  pub On-puts :
      {i j : ℕ} {what : AddCall} {ss ts : List (System lfq.Queue)} (q : List ℕ)
      → what ≡ puts_locked j
      → On lfq i what ss ts
      → get_elem? (pool ss) i ≡ some q
      → pool ts ≡ set (pool ss) i (q ++ j ∷ [])
  On-puts {j = j} q w (this {s} {rest = rest} a e) was =
      let same : s.enqueued ≡ q = ground (arith, was) in
      ap (λ x. x ∷ pool rest) (put-enqueued a (e ∙ w) ∙ ap (λ x. x ++ j ∷ []) same)
  On-puts q w (that {s = s} on) was = ap (λ qs. s.enqueued ∷ qs) (On-puts q w on was)
