-- ===== src/Threadwq/Table/Started.antt =====
-- A table of work queues of template-v1/src/threadwq/threadwq.c, started.
use linux_c_template.Prelude.{
  ℕ, zero, suc, ◌+◌, ◌<◌, ◌≡◌, ◌≢◌, refl, ◌⊎◌, inl, inr, true, false, ◌&&◌, List, [], ◌∷◌, ◌++◌,
  arith, ap,
}
use linux_c_template.Prelude.Tests.{◌==◌, if◌then◌else◌, Bool-cases}
use linux_c_template.Prelude.Lists.{length, replicate}
use linux_c_template.Prelude.Outcome.{ok, aborted, Returns, returns, Returns-bind, Returns-run}
use linux_c_template.Threadwq.Table.{
  ThreadwqOps, Stage, idle, online, Slot, Spawn, refused, spawned, init_slot, set_ops, exec,
  init_multi, set_ops_multi, exec_multi, start_table,
}

-- A queue that was given `ops`.
abbrev pub set_up : Stage → ThreadwqOps → Slot
set_up stage ops = record { stage = stage; ops = ops }

abbrev no_ops : ThreadwqOps
no_ops = record { worker_init = false; worker_exit = false }

init_multi-idle :
    (n : ℕ) (qs : List Slot)
    → length qs ≡ n
    → init_multi n qs ≡ ok (0, replicate n (set_up idle no_ops))
unfolding init_multi init_slot
init_multi-idle zero [] e = refl
init_multi-idle zero (q ∷ qs) e = absurd (omega arith)
init_multi-idle (suc n) [] e = absurd (omega arith)
init_multi-idle (suc n) (q ∷ qs) e = rw (init_multi-idle n qs (omega arith)) refl

set_ops_multi-set_up :
    (ops : ThreadwqOps) (n : ℕ)
    → ops.worker_init ≡ true
    → ops.worker_exit ≡ true
    → set_ops_multi ops n (replicate n (set_up idle no_ops)) ≡ ok (replicate n (set_up idle ops))
unfolding set_ops_multi set_ops
set_ops_multi-set_up ops zero i x = refl
set_ops_multi-set_up ops (suc n) i x = simp (i, x, set_ops_multi-set_up ops n i x)

-- What `threadwq_exec_multi` leaves of `n` queues, the first at index `i`: it started those before the
-- first whose thread was refused, and none from there on.
pub record Started (spawn : ℕ → Spawn) (ops : ThreadwqOps) (n i : ℕ) (r : ℕ × List Slot)
    : Type 0 where
  pub count : ℕ
  pub counted : count + r.0 ≡ n
  pub lives : r.1 ≡ replicate count (set_up online ops) ++ replicate r.0 (set_up idle ops)
  pub stopped : r.0 ≢ 0 → spawn (i + count) ≡ refused
  pub before : (j : ℕ) → j < count → spawn (i + j) ≡ spawned false

Spawn-cases : (a : Spawn) → a ≢ spawned true → (a ≡ refused) ⊎ (a ≡ spawned false)
Spawn-cases refused ne = inl refl
Spawn-cases (spawned true) ne = absurd (ne refl)
Spawn-cases (spawned false) ne = inr refl

Started-later :
    (spawn : ℕ → Spawn) (ops : ThreadwqOps) (n i missing : ℕ) (qs : List Slot)
    → spawn i ≡ spawned false
    → Started spawn ops n (i + 1) (missing, qs)
    → Started spawn ops (suc n) i (missing, set_up online ops ∷ qs)
Started-later spawn ops n i missing qs e r = record {
  count = suc r.count;
  counted = omega (arith, r.counted);
  lives = ap (λ l. set_up online ops ∷ l) r.lives;
  stopped = λ some_missing. rw (shift r.count) (r.stopped some_missing);
  before = before;
}
  where
    shift : (j : ℕ) → i + suc j ≡ i + 1 + j
    shift j = omega arith

    first : i + 0 ≡ i
    first = omega arith

    before : (j : ℕ) → j < suc r.count → spawn (i + j) ≡ spawned false
    before zero h = rw first e
    before (suc j) h = rw (shift j) (r.before j (omega arith))

exec_multi-Started :
    (spawn : ℕ → Spawn) (ops : ThreadwqOps) (n i : ℕ)
    → ((j : ℕ) → spawn j ≢ spawned true)
    → Returns (Started spawn ops n i) (exec_multi spawn n i (replicate n (set_up idle ops)))
unfolding exec_multi exec
exec_multi-Started spawn ops zero i sound = returns (record {
  count = 0;
  counted = refl;
  lives = refl;
  stopped = λ ne. absurd (ne refl);
  before = λ j h. absurd (omega arith);
})
exec_multi-Started spawn ops (suc n) i sound = elim (Spawn-cases (spawn i) (sound i)) [
  | inl stop ↦
      let first : i + 0 ≡ i = omega arith in
      rw (stop, exec)
        (returns (record {
          count = 0;
          counted = omega arith;
          lives = refl;
          stopped = λ ne. rw first stop;
          before = λ j h. absurd (omega arith);
        }))
  | inr go ↦
      let calm : (ops.worker_init && false) ≡ false = ground arith in
      rw (go, exec, calm)
        (Returns-bind (exec_multi-Started spawn ops n (i + 1) sound)
          λ (missing, t) r. returns (Started-later spawn ops n i missing t go r))
]

-- When both functions of `ops` are set, no `worker_init` fails and the table has `nr` entries:
-- `threadwq_init_multi` and `threadwq_set_ops_multi` leave every queue without a worker and with `ops`, and
-- `threadwq_exec_multi` starts the queues up to the first whose thread is refused, and none after it; it
-- returns how many it did not start. `main` goes on with the table when it has started all, and its
-- `BUG_ON` ends the program when a thread was refused.
pub start_table-Started :
    (spawn : ℕ → Spawn) (ops : ThreadwqOps) (nr : ℕ) (qs : List Slot)
    → ((j : ℕ) → spawn j ≢ spawned true)
    → ops.worker_init ≡ true
    → ops.worker_exit ≡ true
    → length qs ≡ nr
    → (t : List Slot) × (r : ℕ × List Slot) × (init_multi nr qs ≡ ok (0, t))
      × (set_ops_multi ops nr t ≡ ok (replicate nr (set_up idle ops)))
      × (exec_multi spawn nr 0 (replicate nr (set_up idle ops)) ≡ ok r)
      × Started spawn ops nr 0 r
      × (start_table spawn ops nr qs ≡ (if r.0 == 0 then ok r.1 else aborted))
unfolding start_table
start_table-Started spawn ops nr qs sound i x e =
    let begun = init_multi-idle nr qs e in
    let set = set_ops_multi-set_up ops nr i x in
    let (r, ran, s) = Returns-run (exec_multi-Started spawn ops nr 0 sound) in
    (replicate nr (set_up idle no_ops), r, begun, set, ran, s, ended r begun set ran)
  where
    ended :
        (r : ℕ × List Slot)
        → init_multi nr qs ≡ ok (0, replicate nr (set_up idle no_ops))
        → set_ops_multi ops nr (replicate nr (set_up idle no_ops))
          ≡ ok (replicate nr (set_up idle ops))
        → exec_multi spawn nr 0 (replicate nr (set_up idle ops)) ≡ ok r
        → start_table spawn ops nr qs ≡ (if r.0 == 0 then ok r.1 else aborted)
    ended (missing, t) begun set ran = elim (Bool-cases (missing == 0)) [
      | inl none_missing ↦ rw (start_table, begun, set, ran, none_missing) refl
      | inr short ↦ rw (start_table, begun, set, ran, short) refl
    ]
