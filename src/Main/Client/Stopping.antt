-- ===== src/Main/Client/Stopping.antt =====
-- Runs in which the queues of template-v1/src/main.c are shut down, for the tests.
use linux_c_template.Prelude.{true, ℕ, ◌≡◌, refl, false, List, [], ◌∷◌, arith}
use linux_c_template.Prelude.Lists.{replicate}
use linux_c_template.Lfq as Lfq
use linux_c_template.Threadwq.{kills, Kill, done, joined, System, works, Work}
use linux_c_template.Threadwq.Jobs.{quiet}
use linux_c_template.Main.Client.{One, first, beyond}
use linux_c_template.Main.Writer.{is_add}
use linux_c_template.Main.Client.Sample.{idle, handed, others}

-- Steps of the queues that are shut down.
pub data Many (ss : List (System (List ℕ))) : List (System (List ℕ)) → Type 0 where
  no_step : Many ss ss
  one_more :
      {ts us : List (System (List ℕ))}
      → Many ss ts
      → (o : One Lfq.sequence true ts quiet us) → is_add Lfq.sequence o ≡ false
      → Many ss us

Many-beyond :
    (s : System (List ℕ)) {ss ts : List (System (List ℕ))} → Many ss ts → Many (s ∷ ss) (s ∷ ts)
Many-beyond s no_step = no_step
Many-beyond s (one_more m o by) = one_more (Many-beyond s m) (beyond o) by

Many-append : {ss ts us : List (System (List ℕ))} → Many ss ts → Many ts us → Many ss us
Many-append m no_step = m
Many-append m (one_more n o by) = one_more (Many-append m n) o by

abbrev pub ended : System (List ℕ)
ended = record idle { running = 1; exit = 1; exit_ack = 1; pc = done; killer = joined }

pub idle-ended : (rest : List (System (List ℕ))) → Many (idle ∷ rest) (ended ∷ rest)
idle-ended rest =
    one_more
      (one_more
        (one_more
          (one_more
            (one_more
              (one_more
                (one_more
                  (one_more
                    (one_more
                      (one_more
                        (one_more no_step (first (works (Work.init_ok refl)) refl (λ h. cc)) refl)
                        (first (kills (Kill.kill refl)) refl (λ h. refl)) refl)
                      (first (kills (Kill.kill_lock refl refl)) refl (λ h. refl)) refl)
                    (first (kills (Kill.kill_exit refl)) refl (λ h. refl)) refl)
                  (first (kills (Kill.broadcast refl)) refl (λ h. refl)) refl)
                (first (kills (Kill.kill_unlock refl)) refl (λ h. refl)) refl)
              (first (works (Work.leave refl (λ e. omega arith))) refl (λ h. cc)) refl)
            (first (works (Work.flushed refl refl)) refl (λ h. cc)) refl)
          (first (works (Work.ack refl)) refl (λ h. cc)) refl)
        (first (kills (Kill.join refl (λ e. omega arith))) refl (λ h. refl)) refl)
      (first (kills (Kill.join_done refl refl)) refl (λ h. refl)) refl

-- The first queue when its job is finished.
abbrev pub finished_one : ℕ → System (List ℕ)
finished_one n = record handed { adders = n; pending = []; finished = 32 ∷ [] }

abbrev pub ended_one : ℕ → System (List ℕ)
ended_one n = record (finished_one n) { exit = 1; exit_ack = 1; pc = done; killer = joined }

finished_one-ended :
    (n : ℕ) (rest : List (System (List ℕ))) → Many (finished_one n ∷ rest) (ended_one n ∷ rest)
finished_one-ended n rest =
    Many-append
      (one_more
        (one_more
          (one_more
            (one_more
              (one_more
                (one_more
                  (one_more
                    (one_more no_step (first (works (Work.no_job refl refl)) refl (λ h. cc)) refl)
                    (first (works (Work.lock refl refl)) refl (λ h. cc)) refl)
                  (first (works (Work.block refl)) refl (λ h. cc)) refl)
                (first (kills (Kill.kill refl)) refl (λ h. refl)) refl)
              (first (kills (Kill.kill_lock refl refl)) refl (λ h. refl)) refl)
            (first (kills (Kill.kill_exit refl)) refl (λ h. refl)) refl)
          (first (kills (Kill.broadcast refl)) refl (λ h. refl)) refl)
        (first (kills (Kill.kill_unlock refl)) refl (λ h. refl)) refl)
      (one_more
        (one_more
          (one_more
            (one_more
              (one_more
                (one_more
                  (one_more no_step (first (works (Work.relock refl refl)) refl (λ h. cc)) refl)
                  (first (works (Work.unlock refl)) refl (λ h. cc)) refl)
                (first (works (Work.leave refl (λ e. omega arith))) refl (λ h. cc)) refl)
              (first (works (Work.flushed refl refl)) refl (λ h. cc)) refl)
            (first (works (Work.ack refl)) refl (λ h. cc)) refl)
          (first (kills (Kill.join refl (λ e. omega arith))) refl (λ h. refl)) refl)
        (first (kills (Kill.join_done refl refl)) refl (λ h. refl)) refl)

pub all-ended : (n : ℕ) → Many (finished_one n ∷ others) (ended_one n ∷ replicate 3 ended)
all-ended n = Many-append (finished_one-ended n others) (
    Many-beyond (ended_one n) (
      Many-append (idle-ended (idle ∷ idle ∷ [])) (
        Many-beyond ended
          (Many-append (idle-ended (idle ∷ [])) (Many-beyond ended (idle-ended []))))))

pub none-ended : Many (idle ∷ others) (ended ∷ replicate 3 ended)
none-ended = Many-append (idle-ended others) (
    Many-beyond ended (
      Many-append (idle-ended (idle ∷ idle ∷ [])) (
        Many-beyond ended
          (Many-append (idle-ended (idle ∷ [])) (Many-beyond ended (idle-ended []))))))
