-- ===== src/Threadwq/Drained.antt =====
-- The queue behind a worker that has gone offline, for template-v1/src/threadwq/threadwq.c.
use linux_c_template.Prelude.{◌≡◌, refl, Bool, true, false, [], arith}
use linux_c_template.Lfq.{Lfq}
use linux_c_template.Threadwq.{System, Work, Add, Kill, Step, works, adds, kills, grace, Pc, wake}
use linux_c_template.Threadwq.Delivery.{is_over}
use linux_c_template.Threadwq.Jobs.{Event, added, event, add_event}

abbrev pub is_added : Event → Bool
is_added (added _) = true
is_added _ = false

pub is_over-wake : (p : Pc) → is_over (wake p) ≡ true → is_over p ≡ true
is_over-wake p o = ground arith

module _ (lfq : Lfq) where
  pub Work-killer : {s t : System lfq.Queue} → Work lfq s t → t.killer ≡ s.killer
  Work-killer (Work.ack at) = refl
  Work-killer w = refl

  pub Add-killer : {s t : System lfq.Queue} → Add lfq s t → t.killer ≡ s.killer
  Add-killer (Add.trylock e) = refl
  Add-killer a = refl

  Work-drained :
      {s t : System lfq.Queue}
      → Work lfq s t
      → (is_over s.pc ≡ true → lfq.contents s.queue ≡ [])
      → is_over t.pc ≡ true
      → lfq.contents t.queue ≡ []
  Work-drained {s} (Work.flushed at e) d o = lfq.contents-dequeue_none s.queue e
  Work-drained (Work.ack at) d o = d (rw at refl)
  Work-drained w d o = cc

  Kill-drained :
      {s t : System lfq.Queue}
      → Kill lfq s t
      → (is_over s.pc ≡ true → lfq.contents s.queue ≡ [])
      → is_over t.pc ≡ true
      → lfq.contents t.queue ≡ []
  Kill-drained {s} (Kill.broadcast e) d o = d (is_over-wake s.pc o)
  Kill-drained (Kill.kill e) d o = d o
  Kill-drained (Kill.kill_lock e f) d o = d o
  Kill-drained (Kill.kill_exit e) d o = d o
  Kill-drained (Kill.kill_unlock e) d o = d o
  Kill-drained (Kill.again e f) d o = d o
  Kill-drained (Kill.join e f) d o = d o
  Kill-drained (Kill.join_done e f) d o = d o

  pub is_over-before :
      {s t : System lfq.Queue} → Add lfq s t → is_over t.pc ≡ true → is_over s.pc ≡ true
  is_over-before {s} (Add.signal e) o = is_over-wake s.pc o
  is_over-before (Add.enqueue j real) o = o
  is_over-before (Add.enqueue_locked j real e) o = o
  is_over-before (Add.add_lock a e) o = o
  is_over-before (Add.trylock e) o = o
  is_over-before (Add.add_unlock e) o = o

  Add-drained :
      {s t : System lfq.Queue} (a : Add lfq s t)
      → is_added (add_event lfq a) ≡ false
      → (is_over s.pc ≡ true → lfq.contents s.queue ≡ [])
      → is_over t.pc ≡ true
      → lfq.contents t.queue ≡ []
  Add-drained (Add.enqueue j real) quiet_step d o = cc
  Add-drained (Add.enqueue_locked j real e) quiet_step d o = cc
  Add-drained {s} (Add.signal e) quiet_step d o = d (is_over-wake s.pc o)
  Add-drained (Add.add_lock a e) quiet_step d o = d o
  Add-drained (Add.trylock e) quiet_step d o = d o
  Add-drained (Add.add_unlock e) quiet_step d o = d o

  -- Once the worker is offline with an empty queue, the queue stays empty unless a job is added.
  pub Step-drained :
      {s t : System lfq.Queue} (st : Step lfq s t)
      → (is_over s.pc ≡ true → is_added (event lfq st) ≡ false)
      → (is_over s.pc ≡ true → lfq.contents s.queue ≡ [])
      → is_over t.pc ≡ true
      → lfq.contents t.queue ≡ []
  Step-drained (works w) unadded d o = Work-drained w d o
  Step-drained {s} (adds a) unadded d o = Add-drained a (unadded (is_over-before a o)) d o
  Step-drained (kills k) unadded d o = Kill-drained k d o
  Step-drained (grace j i) unadded d o = d o
