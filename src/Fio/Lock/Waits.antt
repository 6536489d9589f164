-- ===== src/Fio/Lock/Waits.antt =====
-- What `fio_lock` of template-v1/src/lgu/fio/fio_lock.c leaves, after it has waited.
use linux_c_template.Prelude.{
  ℕ, ◌≡◌, ◌⊎◌, inl, inr, refl, true, false, Option, none, some, arith, ap, ◌∙◌,
}
use linux_c_template.Prelude.Tests.{Option-cases, Bool-cases}
use linux_c_template.Fio.Lock.{Files, Lawful, fio_lock}

module _ (fs : Files) (ok : Lawful fs) where
  -- What a call of `fio_lock` leaves, which may have waited while others ran.
  abbrev pub Waited : ℕ → fs.State → Option ℕ × fs.State → Type 0
  Waited path s (none, t) =
      ((t ≡ s) × (fs.open_file path s ≡ none))
      ⊎ ((fd : ℕ) × (u : fs.State) × (fs.open_file path s ≡ some (fd, u))
          × (fs.is_open u fd ≡ true)
          × (fs.is_open t fd ≡ false)
          × (fs.holds t fd ≡ false))
  Waited path s (some fd, t) =
      (fs.is_open t fd ≡ true)
      × (fs.file t fd ≡ path)
      × (fs.holds t fd ≡ true)
      × ((d : ℕ) → fs.holds t d ≡ true → fs.file t d ≡ path → d ≡ fd)

  -- If `open`, `flock` and `close` keep their promises, `fio_lock` returns the one descriptor that holds the lock of the file. Or it fails: then
  -- `open` failed and nothing has changed, or the descriptor that `open` gave is closed again and holds no lock.
  pub fio_lock-Waited : (path : ℕ) (s : fs.State) → Waited path s (fio_lock fs path s)
  unfolding fio_lock
  fio_lock-Waited path s = elim (Option-cases (fs.open_file path s)) [
    | inl failed ↦ rw (failed, fio_lock) (inl (refl, failed))
    | inr ((fd, t), opened) ↦
        let o = ok.open_file-some path fd s t opened in
        elim (Bool-cases (fs.flock_wait fd t).0) [
          | inl got ↦
              let u = (fs.flock_wait fd t).1 in
              let (v, m, k) = ok.flock_wait-true fd t u (ap (λ b. (b, u)) got) in
              let named = k.named ∙ m.named ∙ o.named in
              rw (opened, fio_lock, got)
                (
                  k.opened ∙ m.opened ∙ o.opened,
                  named,
                  k.has,
                  λ d h e. ground (
                    arith,
                    k.was_free d,
                    k.others.still_holds d,
                    k.others.same_file d,
                    m.named,
                    o.named,
                    k.named,
                  ),
                )
          | inr interrupted ↦
              rw (opened, fio_lock, interrupted)
                (let closed = ok.close-shut fd (fs.flock_wait fd t).1 in
                  inr (
                    fd,
                    t,
                    opened,
                    o.opened,
                    closed,
                    ok.shut (fs.close fd (fs.flock_wait fd t).1) fd closed,
                  ))
        ]
  ]
