-- ===== src/Main/Writer/Table.antt =====
-- A queue of the table of template-v1/src/main.c, and what the writer and its worker can do to it.
use linux_c_template.Prelude.{
  Bool, true, false, ℕ, zero, suc, ◌+◌, ◌<◌, ◌≡◌, ◌≢◌, ◌⊎◌, inl, inr, refl, List, [], ◌∷◌, arith,
  ap, sym, subst, ◌∙◌,
}
use linux_c_template.Prelude.Lists.{length}
use linux_c_template.Lfq.{Lfq}
use linux_c_template.Threadwq.{
  System, Work, Add, works, Pc, wait_cond, wait_unlock, Mutex, unlocked, by_worker, by_idle_adder,
  by_adder, by_adder_signalled, Killer, absent,
}
use linux_c_template.Threadwq.Facts.{Control, holds, is_killer, is_locked, is_worker}
use linux_c_template.Threadwq.Jobs as Jobs
use linux_c_template.Threadwq.Jobs.{quiet}
use linux_c_template.Main.Client.{One, first, beyond}
use linux_c_template.Main.Client.Queues.{Queue, Queues}
use linux_c_template.Main.Writer.{
  Point, AddCall, call, On, this, that, IsBusy, this_busy, that_busy, is_add,
}
use linux_c_template.Main.Writer.Roles as Roles
use linux_c_template.Main.Writer.Roles.{Match, AllMatch, hold, role, entered}

pub mutex-unlocked : (m : Mutex) → (m ≡ unlocked) ⊎ (m ≢ unlocked)
mutex-unlocked unlocked = inl refl
mutex-unlocked m = inr (λ h. cc)

holds-cases : (p : Pc) → holds p ≡ true → (p ≡ wait_cond) ⊎ (p ≡ wait_unlock)
holds-cases wait_cond h = inl refl
holds-cases wait_unlock h = inr refl
holds-cases p h = cc

-- Who is left to hold a mutex.
held_by_worker :
    (m : Mutex) → hold m ≡ Roles.no_adder → is_killer m ≡ false → m ≢ unlocked → is_worker m ≡ true
held_by_worker unlocked free not_killed ne = absurd (ne refl)
held_by_worker by_worker free not_killed ne = refl
held_by_worker m free not_killed ne = cc

pub hold-taken : (m : Mutex) → hold m ≡ Roles.taken → m ≡ by_idle_adder
hold-taken by_idle_adder e = refl
hold-taken m e = cc

pub hold-adder : (m : Mutex) → hold m ≡ Roles.adder → m ≡ by_adder
hold-adder by_adder e = refl
hold-adder m e = cc

pub hold-signalled : (m : Mutex) → hold m ≡ Roles.signalled → m ≡ by_adder_signalled
hold-signalled by_adder_signalled e = refl
hold-signalled m e = cc

pub absent-cases : (k : Killer) → (k ≡ absent) ⊎ (k ≢ absent)
absent-cases absent = inl refl
absent-cases k = inr (λ h. cc)

module _ (lfq : Lfq) where
  -- The queue `i` of the table is `s`.
  pub data At : ℕ → System lfq.Queue → List (System lfq.Queue) → Type 0 where
    at_first : {s : System lfq.Queue} {rest : List (System lfq.Queue)} → At zero s (s ∷ rest)
    at_next :
        {i : ℕ} {s r : System lfq.Queue} {rest : List (System lfq.Queue)}
        → At i s rest
        → At (suc i) s (r ∷ rest)

  pub pick :
      (i : ℕ) (ss : List (System lfq.Queue)) → i < length ss → (s : System lfq.Queue) × At i s ss
  pick i [] h = absurd (omega arith)
  pick zero (s ∷ ss) h = (s, at_first)
  pick (suc i) (s ∷ ss) h = let (t, a) = pick i ss (omega arith) in (t, at_next a)

  pub At-On :
      {i : ℕ} {s t : System lfq.Queue} {ss : List (System lfq.Queue)} (what : AddCall)
      → At i s ss
      → (a : Add lfq s t) → call lfq a ≡ what
      → (ts : List (System lfq.Queue)) × On lfq i what ss ts
  At-On what at_first a e = (_, this a e)
  At-On what (at_next {r = r} at) a e = let (ts, on) = At-On what at a e in (r ∷ ts, that on)

  pub At-IsBusy :
      {i : ℕ} {s : System lfq.Queue} {ss : List (System lfq.Queue)}
      → At i s ss
      → s.mutex ≢ unlocked
      → IsBusy lfq i ss
  At-IsBusy at_first ne = this_busy ne
  At-IsBusy (at_next at) ne = that_busy (At-IsBusy at ne)

  pub At-Match :
      {i : ℕ} {s : System lfq.Queue} {ss : List (System lfq.Queue)} (p : Point) (k n : ℕ)
      → n ≡ k + i
      → At i s ss
      → AllMatch lfq p k ss
      → Match lfq p n s
  At-Match {s = s} p k n e at_first (m, ms) =
      let same : k ≡ n = omega arith in subst (λ i. Match lfq p i s) same m
  At-Match p k n e (at_next at) (m, ms) = At-Match p (suc k) n (omega arith) at ms

  pub At-Queue :
      {i : ℕ} {s : System lfq.Queue} {ss : List (System lfq.Queue)} (stopping : Bool)
      → At i s ss
      → Queues lfq stopping ss
      → Queue lfq stopping s
  At-Queue stopping at_first (q, qs) = q
  At-Queue stopping (at_next at) (q, qs) = At-Queue stopping at qs

  -- A quiet step of the worker.
  pub At-One :
      {i : ℕ} {s t : System lfq.Queue} {ss : List (System lfq.Queue)} (stopping : Bool)
      → At i s ss
      → (w : Work lfq s t) → Jobs.work_event lfq w ≡ quiet
      → (ts : List (System lfq.Queue)) × (o : One lfq stopping ss quiet ts) × (is_add lfq o ≡ false)
        × At i t ts
  At-One stopping at_first w e = (_, first (works w) e (λ h. cc), refl, at_first)
  At-One stopping (at_next {r = r} at) w e =
      let (ts, o, b, a) = At-One stopping at w e in (r ∷ ts, beyond o, b, at_next a)

  -- A mutex that no adder and no killer holds is free, or the worker gives it back by its next step.
  pub gives_back :
      {s : System lfq.Queue}
      → Control lfq s
      → s.killer ≡ absent
      → hold s.mutex ≡ Roles.no_adder
      → s.mutex ≢ unlocked
      → (t : System lfq.Queue) × (w : Work lfq s t) × (Jobs.work_event lfq w ≡ quiet)
        × (t.mutex ≡ unlocked)
  gives_back {s} c alone free ne =
      let unkilled : is_killer s.mutex ≡ false = sym c.mutex_killer ∙ ap is_locked alone in
      let mine = held_by_worker s.mutex free unkilled ne in
      elim (holds-cases s.pc (c.mutex_worker ∙ mine)) [
        | inl at ↦ (_, Work.block at, refl, refl)
        | inr at ↦ (_, Work.unlock at, refl, refl)
      ]
