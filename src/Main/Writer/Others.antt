-- ===== src/Main/Writer/Others.antt =====
-- What the threads beside the writer of template-v1/src/main.c leave alone in the table of queues.
use linux_c_template.Prelude.{Bool, true, false, suc, ◌≡◌, refl, List, [], ◌∷◌, ap, ◌∙◌}
use linux_c_template.Prelude.Lists.{length}
use linux_c_template.ListHead.{ListHead}
use linux_c_template.Lfq.{Lfq}
use linux_c_template.Threadwq.{System, Add, works, adds, kills, grace}
use linux_c_template.Threadwq.Invariant.{Reach-Inv}
use linux_c_template.Threadwq.Jobs.{Event, quiet, added, add_event}
use linux_c_template.Main.Client.{
  One, first, beyond, Client, Turn, allocates, waits, turns, starts, finishes, stops, writes, Turns,
  at_start, further,
}
use linux_c_template.Main.Client.Queues.{Queues}
use linux_c_template.Main.Writer.{Point, is_add, by_writer}
use linux_c_template.Main.Writer.Roles.{AllMatch, AllControl, One-AllMatch}

-- Only these events come from a thread that adds jobs.
abbrev pub may_add : Event → Bool
may_add quiet = true
may_add (added j) = true
may_add _ = false

module _ (lfq : Lfq) where
  adder_event : {s t : System lfq.Queue} (a : Add lfq s t) → may_add (add_event lfq a) ≡ true
  adder_event (Add.enqueue j real) = refl
  adder_event (Add.add_lock e f) = refl
  adder_event (Add.trylock e) = refl
  adder_event (Add.enqueue_locked j real e) = refl
  adder_event (Add.signal e) = refl
  adder_event (Add.add_unlock e) = refl

  pub non_adder :
      {stopping : Bool} {ss ts : List (System lfq.Queue)} {e : Event} (o : One lfq stopping ss e ts)
      → may_add e ≡ false
      → is_add lfq o ≡ false
  non_adder (first (adds a) e _) h = cc (e, adder_event a)
  non_adder (first (works w) e _) h = refl
  non_adder (first (kills k) e _) h = refl
  non_adder (first (grace j i) e _) h = refl
  non_adder (beyond o) h = non_adder o h

  One-length :
      {stopping : Bool} {ss ts : List (System lfq.Queue)} {e : Event}
      → One lfq stopping ss e ts
      → length ts ≡ length ss
  One-length (first st e k) = refl
  One-length (beyond o) = ap suc (One-length o)

  pub Queues-Control :
      (stopping : Bool) (ss : List (System lfq.Queue)) → Queues lfq stopping ss → AllControl lfq ss
  Queues-Control stopping [] qs = tt
  Queues-Control stopping (s ∷ ss) (q, qs) =
      ((Reach-Inv lfq q.reached).control, Queues-Control stopping ss qs)

module _ (lh : ListHead) (lfq : Lfq) where
  Turn-length : {c d : Client lh lfq} → Turn lh lfq c d → length d.twqs ≡ length c.twqs
  Turn-length (Turn.adds e f step) = One-length lfq step
  Turn-length (turns step) = One-length lfq step
  Turn-length (starts step) = One-length lfq step
  Turn-length (finishes step e) = One-length lfq step
  Turn-length (allocates answer e free fresh f) = refl
  Turn-length (waits e free) = refl
  Turn-length (stops e) = refl
  Turn-length (writes p mem h own) = refl

  pub Turns-length : {c d : Client lh lfq} → Turns lh lfq c d → length d.twqs ≡ length c.twqs
  Turns-length at_start = refl
  Turns-length (further r t) = Turn-length t ∙ Turns-length r

  -- The others leave the mutexes that the writer holds.
  pub other-AllMatch :
      {c d : Client lh lfq} (p : Point) (t : Turn lh lfq c d)
      → by_writer lh lfq t ≡ false
      → AllControl lfq c.twqs
      → AllMatch lfq p 0 c.twqs
      → AllMatch lfq p 0 d.twqs
  other-AllMatch p (allocates answer e free fresh f) b cs m = m
  other-AllMatch p (waits e free) b cs m = m
  other-AllMatch p (Turn.adds e f step) b cs m = cc
  other-AllMatch p (turns step) b cs m = One-AllMatch lfq p 0 step b cs m
  other-AllMatch p (starts step) b cs m = One-AllMatch lfq p 0 step (non_adder lfq step refl) cs m
  other-AllMatch p (finishes step e) b cs m =
      One-AllMatch lfq p 0 step (non_adder lfq step refl) cs m
  other-AllMatch p (stops e) b cs m = m
  other-AllMatch p (writes q mem h own) b cs m = m
