-- ===== src/Threadwq/Rounds.antt =====
-- The rounds of `kill_online_worker` of template-v1/src/threadwq/threadwq.c, and how the mutex gets free for
-- them.
use linux_c_template.Prelude.{
  ℕ, zero, suc, ◌+◌, ◌%◌, ◌^◌, ◌≡◌, ◌≢◌, ◌⊎◌, inl, inr, refl, true, false, arith, ap, ◌∙◌,
}
use linux_c_template.Lfq.{Lfq}
use linux_c_template.Threadwq.{
  Pc, blocked, woken, wait_cond, wait_unlock, done, Mutex, unlocked, by_worker, by_idle_adder,
  by_adder, by_adder_signalled, by_killer, by_killer_exit, by_killer_broadcast, Killer, absent,
  locking, locked, checking, joining, joined, System, init, Work, Add, Kill, works, adds, kills,
  wake, Reach,
}
use linux_c_template.Threadwq.Facts.{Control, holds, is_worker, is_killer, is_locked, is_done, seen}
use linux_c_template.Threadwq.Invariant.{Reach-Inv}
use linux_c_template.Threadwq.Ending.{Calm, still, next, Calm-append, Reach-Calm, To, wakes}

not_done : (p : Pc) → p ≢ done → is_done p ≡ false
not_done done ne = absurd (ne refl)
not_done p ne = refl

pub done-cases : (p : Pc) → (p ≡ done) ⊎ (p ≢ done)
done-cases done = inl refl
done-cases p = inr (λ h. cc)

pub zero-cases : (n : ℕ) → (n ≡ 0) ⊎ (n ≢ 0)
zero-cases zero = inl refl
zero-cases (suc n) = inr (λ h. omega arith)

holds-cases : (p : Pc) → holds p ≡ true → (p ≡ wait_cond) ⊎ (p ≡ wait_unlock)
holds-cases wait_cond h = inl refl
holds-cases wait_unlock h = inr refl
holds-cases p h = cc

module _ (lfq : Lfq) where
  -- The mutex can be given back.
  abbrev pub Frees : System lfq.Queue → Type 0
  Frees s = (t : System lfq.Queue) × Calm lfq s t × (t.mutex ≡ unlocked)

  frees_adder : (s : System lfq.Queue) → s.mutex ≡ by_adder → Frees s
  frees_adder s at =
      (_, next (next still (adds (Add.signal at)) refl) (adds (Add.add_unlock refl)) refl, refl)

  pub frees : (s : System lfq.Queue) (m : Mutex) → Control lfq s → s.mutex ≡ m → Frees s
  frees s unlocked c at = (s, still, at)
  frees s by_worker c at = elim (holds-cases s.pc (c.mutex_worker ∙ ap is_worker at)) [
    | inl e ↦ (_, next still (works (Work.block e)) refl, refl)
    | inr e ↦ (_, next still (works (Work.unlock e)) refl, refl)
  ]
  frees s by_idle_adder c at =
      let (t, r, e) = frees_adder _ refl in
      (
        t,
        Calm-append lfq
            (next still (adds (Add.enqueue_locked 1 (λ h. absurd (omega arith)) at)) refl) r,
        e,
      )
  frees s by_adder c at = frees_adder s at
  frees s by_adder_signalled c at = (_, next still (adds (Add.add_unlock at)) refl, refl)
  frees s by_killer c at = (
    _,
    next (next (next still (kills (Kill.kill_exit at)) refl) (kills (Kill.broadcast refl)) refl)
        (kills (Kill.kill_unlock refl)) refl,
    refl,
  )
  frees s by_killer_exit c at = (
    _,
    next (next still (kills (Kill.broadcast at)) refl) (kills (Kill.kill_unlock refl)) refl,
    refl,
  )
  frees s by_killer_broadcast c at = (_, next still (kills (Kill.kill_unlock at)) refl, refl)

  abbrev pub Joins : System lfq.Queue → Type 0
  Joins s = (t : System lfq.Queue) × Calm lfq s t × (t.killer ≡ joined)

  acknowledged :
      (s : System lfq.Queue) → s.pc ≡ done → s.exit_ack ≢ 0 → s.killer ≡ checking → Joins s
  acknowledged s ended ack k = (
    _,
    next (next still (kills (Kill.join k ack)) refl) (kills (Kill.join_done refl ended)) refl,
    refl,
  )

  -- A round of `kill_online_worker`.
  round :
      (s : System lfq.Queue)
      → s.killer ≡ locking
      → s.mutex ≡ unlocked
      → Calm lfq s (record s {
        killer = checking;
        mutex = unlocked;
        exit = (s.exit + 1) % 2 ^ 32;
        pc = wake s.pc;
      })
  round s k free =
      next
        (next
          (next (next still (kills (Kill.kill_lock k free)) refl) (kills (Kill.kill_exit refl))
            refl)
          (kills (Kill.broadcast refl)) refl)
        (kills (Kill.kill_unlock refl)) refl

  last_call :
      (s : System lfq.Queue)
      → s.mutex ≡ unlocked
      → s.pc ≡ done
      → s.exit_ack ≢ 0
      → s.killer ≡ locking
      → Joins s
  last_call s free ended ack k =
      let (t, r, e) = acknowledged _ (ap wake ended) ack refl in
      (t, Calm-append lfq (round s k free) r, e)

  pub joins :
      (s : System lfq.Queue) (k : Killer)
      → Control lfq s
      → s.mutex ≡ unlocked
      → s.pc ≡ done
      → s.exit_ack ≢ 0
      → s.killer ≡ k
      → Joins s
  joins s absent c free ended ack e =
      let (t, r, j) = last_call _ free ended ack refl in
      (t, Calm-append lfq (next still (kills (Kill.kill e)) refl) r, j)
  joins s locking c free ended ack e = last_call s free ended ack e
  joins s locked c free ended ack e = cc (c.mutex_killer, ap is_killer free, ap is_locked e)
  joins s checking c free ended ack e = acknowledged s ended ack e
  joins s joining c free ended ack e = (_, next still (kills (Kill.join_done e ended)) refl, refl)
  joins s joined c free ended ack e = (s, still, e)

  -- A round of `kill_online_worker` while the worker has not acknowledged. It wakes a blocked worker.
  abbrev pub Asks : System lfq.Queue → Type 0
  Asks s =
      (t : System lfq.Queue) × Calm lfq s t
      × (t.mutex ≡ unlocked)
      × (t.pc ≡ wake s.pc)
      × (t.exit ≡ (s.exit + 1) % 2 ^ 32)

  pub asks :
      (s : System lfq.Queue) (k : Killer)
      → Control lfq s
      → s.mutex ≡ unlocked
      → s.pc ≢ done
      → s.killer ≡ k
      → Asks s
  asks s absent c free working e = (
    _,
    Calm-append lfq (next still (kills (Kill.kill e)) refl) (round _ refl free),
    refl,
    refl,
    refl,
  )
  asks s locking c free working e = (_, round s e free, refl, refl, refl)
  asks s locked c free working e = cc (c.mutex_killer, ap is_killer free, ap is_locked e)
  asks s checking c free working e =
      let unacked : s.exit_ack ≡ 0 = c.acked ∙ rw (not_done s.pc working) refl in
      (
        _,
        Calm-append lfq (next still (kills (Kill.again e unacked)) refl) (round _ refl free),
        refl,
        refl,
        refl,
      )
  asks s joining c free working e = absurd (working (c.joins (ap seen e)))
  asks s joined c free working e = absurd (working (c.joins (ap seen e)))

  after : {s t : System lfq.Queue} {p : Pc} → Calm lfq s t → To lfq t p → To lfq s p
  after r d = record {
    t = d.t;
    reached = Calm-append lfq r d.reached;
    free = d.free;
    asked = d.asked;
    at = d.at;
  }

  -- A worker that has blocked is woken by the next broadcast, also when `exit` wraps around.
  pub rouse :
      (s : System lfq.Queue)
      → Reach lfq (init lfq) s
      → s.mutex ≡ unlocked
      → s.pc ≡ blocked
      → To lfq s done
  rouse s r free at =
      let (t, q, m, w, x) = asks s s.killer (Reach-Inv lfq r).control free (λ e. cc) refl in
      let up : t.pc ≡ woken = w ∙ ap wake at in
      elim (zero-cases t.exit) [
        | inr asked ↦ after q (wakes lfq t m asked up)
        | inl zeroed ↦
            let c = (Reach-Inv lfq (Reach-Calm lfq r q)).control in
            let (u, q', m', w', x') = asks t t.killer c m (λ e. cc) refl in
            after (Calm-append lfq q q')
              (wakes lfq u m' (λ z. omega (arith, x', zeroed, z)) (w' ∙ ap wake up))
      ]
