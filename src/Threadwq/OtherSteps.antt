-- ===== src/Threadwq/OtherSteps.antt =====
-- Each step of the threads that add jobs, and of the one in `threadwq_exit`, keeps the invariant of
-- template-v1/src/threadwq/threadwq.c.
use linux_c_template.Prelude.{ℕ, ◌≡◌, refl, [], ◌∷◌, ◌++◌, arith, append_assoc}
use linux_c_template.Lfq.{Lfq}
use linux_c_template.Threadwq.{Pc, blocked, System, wake, Add, Kill}
use linux_c_template.Threadwq.Facts.{in_hand, in_flight, Ordered, Accounted, Control}

pub in_hand-wake : (p : Pc) → in_hand (wake p) ≡ in_hand p
in_hand-wake blocked = refl
in_hand-wake p = refl

pub in_flight-wake : (p : Pc) → in_flight (wake p) ≡ in_flight p
in_flight-wake blocked = refl
in_flight-wake p = refl

module _ (lfq : Lfq) where
  pub Add-Control : {s t : System lfq.Queue} → Add lfq s t → Control lfq s → Control lfq t
  Add-Control (Add.enqueue j real) h = ground arith
  Add-Control (Add.add_lock a e) h = ground arith
  Add-Control (Add.trylock e) h = ground arith
  Add-Control (Add.enqueue_locked j real e) h = ground arith
  Add-Control (Add.signal e) h = ground arith
  Add-Control (Add.add_unlock e) h = ground arith

  pub Kill-Control : {s t : System lfq.Queue} → Kill lfq s t → Control lfq s → Control lfq t
  Kill-Control (Kill.kill e) h = ground arith
  Kill-Control (Kill.kill_lock e f) h = ground arith
  Kill-Control (Kill.kill_exit e) h = ground arith
  Kill-Control (Kill.broadcast e) h = ground arith
  Kill-Control (Kill.kill_unlock e) h = ground arith
  Kill-Control (Kill.again e f) h = ground arith
  Kill-Control (Kill.join e f) h = ground arith
  Kill-Control (Kill.join_done e f) h = ground arith

  enqueue-Ordered :
      (s : System lfq.Queue) (j : ℕ)
      → Ordered lfq s
      → s.enqueued ++ j ∷ []
        ≡ s.started ++ (in_hand s.pc ++ lfq.contents (lfq.cds_lfq_enqueue j s.queue))
  enqueue-Ordered s j h = simp (h, lfq.contents-enqueue, append_assoc)

  pub Add-Ordered : {s t : System lfq.Queue} → Add lfq s t → Ordered lfq s → Ordered lfq t
  Add-Ordered {s} (Add.enqueue j real) h = enqueue-Ordered s j h
  Add-Ordered {s} (Add.enqueue_locked j real e) h = enqueue-Ordered s j h
  Add-Ordered {s} (Add.signal e) h = rw (in_hand-wake s.pc) h
  Add-Ordered (Add.add_lock a e) h = h
  Add-Ordered (Add.trylock e) h = h
  Add-Ordered (Add.add_unlock e) h = h

  pub Add-Accounted : {s t : System lfq.Queue} → Add lfq s t → Accounted lfq s → Accounted lfq t
  Add-Accounted {s} (Add.signal e) h = rw (in_flight-wake s.pc) h
  Add-Accounted (Add.enqueue j real) h = h
  Add-Accounted (Add.enqueue_locked j real e) h = h
  Add-Accounted (Add.add_lock a e) h = h
  Add-Accounted (Add.trylock e) h = h
  Add-Accounted (Add.add_unlock e) h = h

  pub Kill-Ordered : {s t : System lfq.Queue} → Kill lfq s t → Ordered lfq s → Ordered lfq t
  Kill-Ordered {s} (Kill.broadcast e) h = rw (in_hand-wake s.pc) h
  Kill-Ordered (Kill.kill e) h = h
  Kill-Ordered (Kill.kill_lock e f) h = h
  Kill-Ordered (Kill.kill_exit e) h = h
  Kill-Ordered (Kill.kill_unlock e) h = h
  Kill-Ordered (Kill.again e f) h = h
  Kill-Ordered (Kill.join e f) h = h
  Kill-Ordered (Kill.join_done e f) h = h

  pub Kill-Accounted : {s t : System lfq.Queue} → Kill lfq s t → Accounted lfq s → Accounted lfq t
  Kill-Accounted {s} (Kill.broadcast e) h = rw (in_flight-wake s.pc) h
  Kill-Accounted (Kill.kill e) h = h
  Kill-Accounted (Kill.kill_lock e f) h = h
  Kill-Accounted (Kill.kill_exit e) h = h
  Kill-Accounted (Kill.kill_unlock e) h = h
  Kill-Accounted (Kill.again e f) h = h
  Kill-Accounted (Kill.join e f) h = h
  Kill-Accounted (Kill.join_done e f) h = h
