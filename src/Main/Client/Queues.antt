-- ===== src/Main/Client/Queues.antt =====
-- What the queues of template-v1/src/main.c do when no job is added after the first shutdown.
use linux_c_template.Prelude.{
  ◌≡◌, ◌≢◌, ◌⊎◌, refl, Bool, true, false, List, [], ◌∷◌, arith, inl, inr, ap, sym, ◌∙◌,
}
use linux_c_template.Prelude.Tests.{Bool-cases}
use linux_c_template.Lfq.{Lfq}
use linux_c_template.Threadwq.{
  System, init, Step, works, adds, kills, grace, Reach, here, later, absent,
}
use linux_c_template.Threadwq.Facts.{leaving}
use linux_c_template.Threadwq.Delivery.{is_over, lifecycle}
use linux_c_template.Threadwq.Drained.{is_added, Work-killer, Add-killer, Step-drained}
use linux_c_template.Threadwq.Jobs.{Event, event}
use linux_c_template.Main.Client.{One, first, beyond, is_kill, init_multi}

module _ (lfq : Lfq) where
  -- What is known of each queue.
  pub record Queue (stopping : Bool) (s : System lfq.Queue) : Type 0 where
    pub reached : Reach lfq (init lfq) s
    pub asked : s.killer ≢ absent → stopping ≡ true
    pub drained : is_over s.pc ≡ true → lfq.contents s.queue ≡ []

  abbrev pub Queues : Bool → List (System lfq.Queue) → Type 0
  Queues stopping [] = Unit
  Queues stopping (s ∷ ss) = Queue stopping s × Queues stopping ss

  Step-killer :
      {s t : System lfq.Queue} (st : Step lfq s t) → (is_kill lfq st ≡ true) ⊎ (t.killer ≡ s.killer)
  Step-killer (works w) = inr (Work-killer lfq w)
  Step-killer (adds a) = inr (Add-killer lfq a)
  Step-killer (kills k) = inl refl
  Step-killer (grace j i) = inr refl

  -- A step keeps what is known, when jobs are added only before the shutdown.
  Step-Queue :
      {s t : System lfq.Queue} (stopping : Bool) (st : Step lfq s t)
      → (is_kill lfq st ≡ true → stopping ≡ true)
      → (is_added (event lfq st) ≡ true → stopping ≡ false)
      → Queue stopping s
      → Queue stopping t
  Step-Queue {s} stopping st kill_guard add_guard q = record {
    reached = later q.reached st;
    asked =
        λ h. elim (Step-killer st) [ inl k ↦ kill_guard k | inr same ↦ q.asked λ z. h (same ∙ z) ];
    drained = Step-drained lfq st unadded q.drained;
  }
    where
      over-leaving : is_over s.pc ≡ true → leaving s.pc ≡ true
      over-leaving o = ground arith

      unadded : is_over s.pc ≡ true → is_added (event lfq st) ≡ false
      unadded o = elim (Bool-cases (is_added (event lfq st))) [
        | inr e ↦ e
        | inl e ↦ cc (add_guard e, q.asked ((lifecycle lfq q.reached).0 (over-leaving o)))
      ]

  pub One-Queues :
      {stopping : Bool} {ss ts : List (System lfq.Queue)} {e : Event}
      → (is_added e ≡ true → stopping ≡ false)
      → One lfq stopping ss e ts
      → Queues stopping ss
      → Queues stopping ts
  One-Queues {stopping} add_guard (first st e kill_guard) (q, qs) =
      (Step-Queue stopping st kill_guard (λ h. add_guard (ap is_added (sym e) ∙ h)) q, qs)
  One-Queues add_guard (beyond o) (q, qs) = (q, One-Queues add_guard o qs)

  pub stops-Queues :
      (stopping : Bool) (ss : List (System lfq.Queue)) → Queues stopping ss → Queues true ss
  stops-Queues stopping [] qs = tt
  stops-Queues stopping (s ∷ ss) (q, qs) = (
    record { reached = q.reached; asked = λ h. refl; drained = q.drained },
    stops-Queues stopping ss qs,
  )

  init-Queue : Queue false (init lfq)
  unfolding init
  init-Queue = record { reached = here; asked = λ h. absurd (h refl); drained = λ o. cc }

  pub init_multi-Queues : Queues false (init_multi lfq)
  init_multi-Queues = (init-Queue, (init-Queue, (init-Queue, (init-Queue, tt))))
