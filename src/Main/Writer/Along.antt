-- ===== src/Main/Writer/Along.antt =====
-- How far a call of `rr4idle_add_job` by `threadfunc3` of template-v1/src/main.c has come.
use linux_c_template.Prelude.{
  Bool, true, false, ℕ, zero, suc, ◌+◌, ◌≡◌, refl, Option, some, List, [], ◌∷◌, ◌++◌, ap, sym, ◌∙◌,
}
use linux_c_template.Prelude.Tests.{ltb}
use linux_c_template.Prelude.Lists.{get_elem?, set}
use linux_c_template.ListHead.{ListHead}
use linux_c_template.Lfq.{Lfq}
use linux_c_template.Threadwq.{System}
use linux_c_template.Manager.{Man, rr4idle}
use linux_c_template.Manager.Bounds.{choice}
use linux_c_template.Manager.Idle.{turn}
use linux_c_template.Main.Client.{
  twqnum, Client, Turn, allocates, waits, turns, starts, finishes, stops, writes,
}
use linux_c_template.Main.Writer.{
  Threadfunc, Point, trying, got_lock, to_signal, wrap, AddCall, puts_locked, On, by_writer, Test,
  Go, Goes, not_yet, then_goes,
}
use linux_c_template.Main.Writer.Enqueued.{pool, One-pool, On-trylocks, On-puts}
use linux_c_template.Main.Writer.Steady.{other-job}
use linux_c_template.Main.Writer.Others.{non_adder}

-- The register `idx` of `rr4idle_add_job` after `n` failed trylocks.
abbrev pub after : ℕ → ℕ → ℕ
after zero idx = idx
after (suc n) idx = wrap (after n idx) + 1

after-suc : (n idx : ℕ) → after n (wrap idx + 1) ≡ wrap (after n idx) + 1
after-suc zero idx = refl
after-suc (suc n) idx = ap (λ i. wrap i + 1) (after-suc n idx)

wrap-choice : (i : ℕ) → wrap i ≡ choice twqnum i
unfolding wrap
wrap-choice i = refl

pub turn-after : (n idx : ℕ) → turn twqnum idx n ≡ wrap (after n idx)
turn-after zero idx = sym (wrap-choice idx)
turn-after (suc n) idx =
    ap (λ i. turn twqnum (i + 1) n) (sym (wrap-choice idx))
    ∙ turn-after n (wrap idx + 1)
    ∙ ap wrap (after-suc n idx)

trying-same : {i k : ℕ} {p : Point} → p ≡ trying i → p ≡ trying k → i ≡ k
trying-same e f = cc

got_lock-same : {i k : ℕ} {p : Point} → p ≡ got_lock i → p ≡ got_lock k → i ≡ k
got_lock-same e f = cc

-- The trylocks that failed are the first `n`.
abbrev pub first_fail : ℕ → ℕ → ℕ → Bool
first_fail n k i = ltb k n

module _ (lh : ListHead) (lfq : Lfq) where
  other-pool :
      {c d : Client lh lfq} (t : Turn lh lfq c d)
      → by_writer lh lfq t ≡ false
      → pool lfq d.twqs ≡ pool lfq c.twqs
  other-pool (allocates answer e free fresh f) b = refl
  other-pool (waits e free) b = refl
  other-pool (Turn.adds e f step) b = cc
  other-pool (turns step) b = One-pool lfq step b
  other-pool (starts step) b = One-pool lfq step (non_adder lfq step refl)
  other-pool (finishes step e) b = One-pool lfq step (non_adder lfq step refl)
  other-pool (stops e) b = refl
  other-pool (writes q mem h own) b = refl

  -- A step of `rr4idle_add_job` up to the enqueue, or of the other threads.
  abbrev pub in_call : {f : Threadfunc} {b c : Test lh lfq} → Go lh lfq f b c → Bool
  in_call (Go.skips at busy) = true
  in_call (Go.tries at on) = true
  in_call (Go.adds_locked at job on) = true
  in_call (Go.others t by) = true
  in_call g = false

  abbrev pub AllInCall : {f : Threadfunc} {b c : Test lh lfq} → Goes lh lfq f b c → Type 0
  AllInCall not_yet = Unit
  AllInCall (then_goes r g) = (in_call g ≡ true) × AllInCall r

  -- The failed trylocks of a run.
  abbrev pub count_fail : {f : Threadfunc} {b c : Test lh lfq} → Go lh lfq f b c → ℕ → ℕ
  count_fail (Go.skips at busy) n = suc n
  count_fail g n = n

  abbrev pub fails : {f : Threadfunc} {b c : Test lh lfq} → Goes lh lfq f b c → ℕ
  fails not_yet = 0
  fails (then_goes r g) = count_fail g (fails r)

  -- The manager that stands for the table of the test, seen as the jobs added to each queue.
  abbrev pub manager : Test lh lfq → Man
  manager b = record {
    twq_pool = pool lfq b.client.twqs;
    twq_pool_nr = twqnum;
    ops = rr4idle;
    twq_idx = b.select;
  }

  -- How far the call has come after `n` failed trylocks.
  pub record Searching (b : Test lh lfq) (j n : ℕ) (c : Test lh lfq) : Type 0 where
    pub at : c.place ≡ trying (after n b.select)
    pub kept : pool lfq c.client.twqs ≡ pool lfq b.client.twqs
    pub index : c.select ≡ b.select
    pub mine : c.client.shared.job ≡ some j

  pub record Locked (b : Test lh lfq) (j n : ℕ) (c : Test lh lfq) : Type 0 where
    pub at : c.place ≡ got_lock (wrap (after n b.select))
    pub kept : pool lfq c.client.twqs ≡ pool lfq b.client.twqs
    pub index : c.select ≡ wrap (after n b.select) + 1
    pub mine : c.client.shared.job ≡ some j

  pub record Added (b : Test lh lfq) (j n : ℕ) (c : Test lh lfq) : Type 0 where
    pub at : c.place ≡ to_signal (wrap (after n b.select))
    pub dealt :
        (q : List ℕ)
        → get_elem? (pool lfq b.client.twqs) (wrap (after n b.select)) ≡ some q
        → pool lfq c.client.twqs
          ≡ set (pool lfq b.client.twqs) (wrap (after n b.select)) (q ++ j ∷ [])
    pub index : c.select ≡ wrap (after n b.select) + 1

  pub data Along (b : Test lh lfq) (j n : ℕ) (c : Test lh lfq) : Type 0 where
    searching : Searching b j n c → Along b j n c
    has_lock : Locked b j n c → Along b j n c
    has_added : Added b j n c → Along b j n c

  dealt_to :
      (b : Test lh lfq) {i k j : ℕ} {what : AddCall} {ss ts : List (System lfq.Queue)} (q : List ℕ)
      → pool lfq ss ≡ pool lfq b.client.twqs
      → what ≡ puts_locked j
      → k ≡ i
      → On lfq k what ss ts
      → get_elem? (pool lfq b.client.twqs) i ≡ some q
      → pool lfq ts ≡ set (pool lfq b.client.twqs) i (q ++ j ∷ [])
  dealt_to b {i} {k} {j} q kept w same on e =
      On-puts lfq q w on
        (ap (λ qs. get_elem? qs k) kept ∙ ap (get_elem? (pool lfq b.client.twqs)) same ∙ e)
      ∙ ap (λ qs. set qs k (q ++ j ∷ [])) kept
      ∙ ap (λ l. set (pool lfq b.client.twqs) l (q ++ j ∷ [])) same

  job_same : {o : Option ℕ} {i k : ℕ} → o ≡ some i → o ≡ some k → i ≡ k
  job_same e f = cc

  Go-Along :
      {f : Threadfunc} (b : Test lh lfq) (j n : ℕ) {c d : Test lh lfq} (g : Go lh lfq f c d)
      → in_call g ≡ true
      → Along b j n c
      → Along b j (count_fail g n) d
  Go-Along b j n (Go.skips at busy) h (searching s) = searching (record {
    at = ap (λ i. trying (wrap i + 1)) (trying-same at s.at);
    kept = s.kept;
    index = s.index;
    mine = s.mine;
  })
  Go-Along b j n (Go.skips at busy) h (has_lock l) = cc (at, l.at)
  Go-Along b j n (Go.skips at busy) h (has_added a) = cc (at, a.at)
  Go-Along b j n (Go.tries at on) h (searching s) =
      let same = trying-same at s.at in
      has_lock (record {
        at = ap (λ i. got_lock (wrap i)) same;
        kept = On-trylocks lfq refl on ∙ s.kept;
        index = ap (λ i. wrap i + 1) same;
        mine = s.mine;
      })
  Go-Along b j n (Go.tries at on) h (has_lock l) = cc (at, l.at)
  Go-Along b j n (Go.tries at on) h (has_added a) = cc (at, a.at)
  Go-Along b j n (Go.adds_locked at job on) h (has_lock l) =
      let same = got_lock-same at l.at in
      let mine = job_same job l.mine in
      has_added (record {
        at = ap to_signal same;
        dealt = λ q e. dealt_to b q l.kept (ap puts_locked mine) same on e;
        index = l.index;
      })
  Go-Along b j n (Go.adds_locked at job on) h (searching s) = cc (at, s.at)
  Go-Along b j n (Go.adds_locked at job on) h (has_added a) = cc (at, a.at)
  Go-Along b j n (Go.others t by) h (searching s) = searching (record {
    at = s.at;
    kept = other-pool t by ∙ s.kept;
    index = s.index;
    mine = (other-job lh lfq t by).0 ∙ s.mine;
  })
  Go-Along b j n (Go.others t by) h (has_lock s) = has_lock (record {
    at = s.at;
    kept = other-pool t by ∙ s.kept;
    index = s.index;
    mine = (other-job lh lfq t by).0 ∙ s.mine;
  })
  Go-Along b j n (Go.others t by) h (has_added s) =
      has_added
        (record { at = s.at; dealt = λ q e. other-pool t by ∙ s.dealt q e; index = s.index })
  Go-Along b j n g h a = cc

  pub Goes-Along :
      {f : Threadfunc} (b : Test lh lfq) (j : ℕ) {c : Test lh lfq} (r : Goes lh lfq f b c)
      → AllInCall r
      → b.place ≡ trying b.select
      → b.client.shared.job ≡ some j
      → Along b j (fails r) c
  Goes-Along b j not_yet i at mine =
      searching (record { at = at; kept = refl; index = refl; mine = mine })
  Goes-Along b j (then_goes r g) (h, i) at mine =
      Go-Along b j (fails r) g h (Goes-Along b j r i at mine)
