-- ===== src/Main/Writer/Deals.antt =====
-- A call of `rr4idle_add_job` by `threadfunc3` of template-v1/src/main.c, step by step among the other
-- threads, against the same call of the manager on its own.
use linux_c_template.Prelude.{
  true, false, ℕ, suc, ◌+◌, ◌<◌, ◌≡◌, some, [], ◌∷◌, ◌++◌, arith, ap, sym, ◌∙◌, inl, inr,
}
use linux_c_template.Prelude.Tests.{ltb, ltb→lt, Bool-cases}
use linux_c_template.Prelude.Lists.{length, get_elem?, set}
use linux_c_template.Prelude.Outcome.{Returns, Returns-mono}
use linux_c_template.ListHead.{ListHead}
use linux_c_template.Lfq.{Lfq}
use linux_c_template.Manager.{rr4idle_add_job}
use linux_c_template.Manager.Bounds.{IsTable}
use linux_c_template.Manager.Idle.{turn, rr4idle_add_job-Settled}
use linux_c_template.Main.Client.{twqnum}
use linux_c_template.Main.Writer.{Threadfunc, trying, to_signal, wrap, Test, Goes}
use linux_c_template.Main.Writer.Enqueued.{pool, length-pool}
use linux_c_template.Main.Writer.Along.{
  after, turn-after, first_fail, AllInCall, fails, manager, Added, searching, has_lock, has_added,
  Goes-Along,
}

module _ (lh : ListHead) (lfq : Lfq) where
  Added-returned :
      (b : Test lh lfq) (j n : ℕ) (c : Test lh lfq)
      → length b.client.twqs ≡ twqnum
      → Added lh lfq b j n c
      → Returns
          (λ m. (m.twq_pool ≡ pool lfq c.client.twqs) × (m.twq_idx ≡ c.select))
          (rr4idle_add_job (first_fail n) (suc n) (manager lh lfq b) j)
  Added-returned b j n c sized a =
      Returns-mono
        (rr4idle_add_job-Settled (first_fail n) j (manager lh lfq b) table n (suc n) (omega arith)
          (ground arith))
        λ m s.
          let same : turn twqnum b.select s.tries ≡ wrap (after n b.select) =
            ap (turn twqnum b.select) (tries_lem s.tries s.free s.taken) ∙ turn-after n b.select in
          (
            s.dealt.pool
                ∙ ap (λ i. set (pool lfq b.client.twqs) i (s.dealt.queue ++ j ∷ [])) same
                ∙ sym (
                    a.dealt s.dealt.queue
                      (ap (get_elem? (pool lfq b.client.twqs)) (sym same) ∙ s.dealt.was)),
            s.next ∙ ap (λ i. i + 1) same ∙ sym a.index,
          )
    where
      table : IsTable (manager lh lfq b)
      table = record {
        sized = length-pool lfq b.client.twqs ∙ sized;
        nonempty = omega arith;
        word = omega arith;
      }

      tries_lem : (k : ℕ) → ltb (0 + k) n ≡ false → ((i : ℕ) → i < k → ltb (0 + i) n ≡ true) → k ≡ n
      tries_lem k free taken = elim (Bool-cases (ltb n k)) [
        | inl h ↦ let t = taken n (ltb→lt n k h) in ground arith
        | inr h ↦ ground arith
      ]

  -- When the writer has entered `rr4idle_add_job` and has put its job in the queue, whatever the other
  -- threads have done in between, then the manager lh lfq on its own, with the same answers of its trylocks,
  -- returns with the same jobs added to each queue, and with the same `twq_idx`.
  pub Goes-dealt :
      {f : Threadfunc} (b : Test lh lfq) (i j : ℕ) {c : Test lh lfq} (r : Goes lh lfq f b c)
      → AllInCall lh lfq r
      → length b.client.twqs ≡ twqnum
      → b.place ≡ trying b.select
      → b.client.shared.job ≡ some j
      → c.place ≡ to_signal i
      → Returns
          (λ m. (m.twq_pool ≡ pool lfq c.client.twqs) × (m.twq_idx ≡ c.select))
          (rr4idle_add_job
            (first_fail (fails lh lfq r))
            (suc (fails lh lfq r))
            (manager lh lfq b)
            j)
  Goes-dealt b i j {c} r inside sized at mine ended =
      elim (Goes-Along lh lfq b j r inside at mine) [
        | searching s ↦ cc (s.at, ended)
        | has_lock l ↦ cc (l.at, ended)
        | has_added a ↦ Added-returned b j (fails lh lfq r) c sized a
      ]
