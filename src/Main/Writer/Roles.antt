-- ===== src/Main/Writer/Roles.antt =====
-- Which mutex the writer of template-v1/src/main.c holds, and which call it is in.
use linux_c_template.Prelude.{
  Bool, false, ℕ, suc, ◌+◌, ◌≤◌, ◌≡◌, ◌≢◌, refl, List, [], ◌∷◌, arith, subst, ◌∙◌,
}
use linux_c_template.Prelude.Tests.{◌==◌, if◌then◌else◌}
use linux_c_template.Lfq.{Lfq}
use linux_c_template.Threadwq.{
  System, Work, Add, Kill, works, adds, kills, grace, Mutex, by_idle_adder, by_adder,
  by_adder_signalled,
}
use linux_c_template.Threadwq.Facts.{Control}
use linux_c_template.Threadwq.Jobs.{Event}
use linux_c_template.Main.Client.{One, first, beyond}
use linux_c_template.Main.Writer.{
  Point, adding, queued, trying, got_lock, to_signal, to_unlock, timing, AddCall, puts, puts_locked,
  locks, trylocks, signals, unlocks, call, On, this, that, is_add,
}

-- What a thread that adds a job has done with the mutex of a queue.
pub data Hold : Type 0 where
  no_adder taken adder signalled : Hold

abbrev pub hold : Mutex → Hold
hold by_idle_adder = taken
hold by_adder = adder
hold by_adder_signalled = signalled
hold _ = no_adder

abbrev pub role : Point → ℕ → Hold
role (got_lock i) k = if i == k then taken else no_adder
role (to_signal i) k = if i == k then adder else no_adder
role (to_unlock i) k = if i == k then signalled else no_adder
role _ k = no_adder

abbrev pub entered : Point → ℕ → ℕ
entered (queued i) k = if i == k then 1 else 0
entered _ k = 0

-- A call on the queue `i` takes the writer from one place to the next.
pub data Moves (i : ℕ) : Point → AddCall → Point → Type 0 where
  put : (j : ℕ) → Moves i (adding i) (puts j) (queued i)
  lock : Moves i (queued i) locks (to_signal i)
  trylock : (idx : ℕ) → Moves i (trying idx) trylocks (got_lock i)
  put_locked : (j : ℕ) → Moves i (got_lock i) (puts_locked j) (to_signal i)
  signal : Moves i (to_signal i) signals (to_unlock i)
  unlock : Moves i (to_unlock i) unlocks timing

abbrev pub Same : Point → Point → ℕ → Type 0
Same p q k = (entered p k ≡ entered q k) × (role p k ≡ role q k)

Moves-Same : {i : ℕ} {p q : Point} {what : AddCall} (k : ℕ) → Moves i p what q → k ≢ i → Same p q k
Moves-Same k (put j) ne = ground arith
Moves-Same k lock ne = ground arith
Moves-Same k (trylock idx) ne = ground arith
Moves-Same k (put_locked j) ne = ground arith
Moves-Same k signal ne = ground arith
Moves-Same k unlock ne = ground arith

module _ (lfq : Lfq) where
  abbrev pub AllControl : List (System lfq.Queue) → Type 0
  AllControl [] = Unit
  AllControl (s ∷ ss) = Control lfq s × AllControl ss

  abbrev pub Match : Point → ℕ → System lfq.Queue → Type 0
  Match p k s = (s.adders ≡ entered p k) × (hold s.mutex ≡ role p k)

  -- The queues from the `k`-th on.
  abbrev pub AllMatch : Point → ℕ → List (System lfq.Queue) → Type 0
  AllMatch p k [] = Unit
  AllMatch p k (s ∷ ss) = Match p k s × AllMatch p (suc k) ss

  Moves-Match :
      {i : ℕ} {p q : Point} {what : AddCall} {s t : System lfq.Queue}
      → Moves i p what q
      → (a : Add lfq s t) → call lfq a ≡ what
      → Match p i s
      → Match q i t
  Moves-Match (put j) (Add.enqueue j' real) e m = ground arith
  Moves-Match (put j) a e m = cc
  Moves-Match lock (Add.add_lock suc_adders free) e m = ground arith
  Moves-Match lock a e m = cc
  Moves-Match (trylock idx) (Add.trylock free) e m = ground arith
  Moves-Match (trylock idx) a e m = cc
  Moves-Match (put_locked j) (Add.enqueue_locked j' real mine) e m = ground arith
  Moves-Match (put_locked j) a e m = cc
  Moves-Match signal (Add.signal mine) e m = ground arith
  Moves-Match signal a e m = cc
  Moves-Match unlock (Add.add_unlock mine) e m = ground arith
  Moves-Match unlock a e m = cc

  pub AllMatch-Same :
      (p q : Point) (k : ℕ) (ss : List (System lfq.Queue))
      → ((n : ℕ) → k ≤ n → Same p q n)
      → AllMatch p k ss
      → AllMatch q k ss
  AllMatch-Same p q k [] same m = tt
  AllMatch-Same p q k (s ∷ ss) same ((e, h), m) = (
    (e ∙ (same k (omega arith)).0, h ∙ (same k (omega arith)).1),
    AllMatch-Same p q (suc k) ss (λ n le. same n (omega arith)) m,
  )

  pub On-AllMatch :
      {i : ℕ} {p q : Point} {what : AddCall} {ss ts : List (System lfq.Queue)} (k n : ℕ)
      → n ≡ k + i
      → Moves n p what q
      → On lfq i what ss ts
      → AllMatch p k ss
      → AllMatch q k ts
  On-AllMatch {p = p} {q} {what} k n e mv (this {s} {t} {rest} a f) (m, ms) =
      let here_now : n ≡ k = omega arith in
      let moved : Moves k p what q = subst (λ i. Moves i p what q) here_now mv in
      (
        Moves-Match moved a f m,
        AllMatch-Same p q (suc k) rest (λ l le. Moves-Same l mv (λ z. omega arith)) ms,
      )
  On-AllMatch {p = p} {q} k n e mv (that {i} {s = s} on) ((adding_now, held_now), ms) =
      let (a, r) = Moves-Same k mv (λ z. omega arith) in
      ((adding_now ∙ a, held_now ∙ r), On-AllMatch (suc k) n (omega arith) mv on ms)

  abbrev Kept : System lfq.Queue → System lfq.Queue → Type 0
  Kept s t = (t.adders ≡ s.adders) × (hold t.mutex ≡ hold s.mutex)

  Work-Kept : {s t : System lfq.Queue} → Work lfq s t → Control lfq s → Kept s t
  Work-Kept (Work.lock at free) c = ground arith
  Work-Kept (Work.relock at free) c = ground arith
  Work-Kept (Work.block at) c = ground (arith, c.mutex_worker)
  Work-Kept (Work.unlock at) c = ground (arith, c.mutex_worker)
  Work-Kept (Work.ack at) c = (refl, refl)
  Work-Kept w c = (refl, refl)

  Kill-Kept : {s t : System lfq.Queue} → Kill lfq s t → Kept s t
  Kill-Kept (Kill.kill_lock e f) = ground arith
  Kill-Kept (Kill.kill_exit e) = ground arith
  Kill-Kept (Kill.broadcast e) = ground arith
  Kill-Kept (Kill.kill_unlock e) = ground arith
  Kill-Kept k = (refl, refl)

  -- The worker and the thread that shuts a queue down do not touch what the writer holds.
  pub One-AllMatch :
      {stopping : Bool} {ss ts : List (System lfq.Queue)} {e : Event} (p : Point) (k : ℕ)
      → (o : One lfq stopping ss e ts) → is_add lfq o ≡ false
      → AllControl ss
      → AllMatch p k ss
      → AllMatch p k ts
  One-AllMatch p k (first (works w) _ _) b (c, _) ((a, h), ms) =
      let (a', h') = Work-Kept w c in ((a' ∙ a, h' ∙ h), ms)
  One-AllMatch p k (first (adds d) _ _) b cs ms = cc
  One-AllMatch p k (first (kills d) _ _) b cs ((a, h), ms) =
      let (a', h') = Kill-Kept d in ((a' ∙ a, h' ∙ h), ms)
  One-AllMatch p k (first (grace j i) _ _) b cs ms = ms
  One-AllMatch p k (beyond o) b (_, cs) (m, ms) = (m, One-AllMatch p (suc k) o b cs ms)
