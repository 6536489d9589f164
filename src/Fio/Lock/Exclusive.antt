-- ===== src/Fio/Lock/Exclusive.antt =====
-- Who holds a lock file after the calls of template-v1/src/lgu/fio/fio_lock.c.
use linux_c_template.Prelude.{
  ℕ, ◌≡◌, ◌≢◌, inl, inr, refl, true, false, Option, none, some, arith, sym, ap, ◌∙◌,
}
use linux_c_template.Prelude.Tests.{Option-cases, Bool-cases}
use linux_c_template.Fio.Lock.{Files, Others, Opened, Taken, Lawful, fio_trylock, fio_unlock}

-- No two descriptors hold the lock of one file.
abbrev pub Exclusive : (fs : Files) → fs.State → Type 0
Exclusive fs s =
    (a b : ℕ) → fs.holds s a ≡ true → fs.holds s b ≡ true → fs.file s a ≡ fs.file s b → a ≡ b

-- The same descriptors are open, on the same files, and hold the same locks.
pub record Same (fs : Files) (s t : fs.State) : Type 0 where
  pub same_open : (d : ℕ) → fs.is_open t d ≡ fs.is_open s d
  pub same_holds : (d : ℕ) → fs.holds t d ≡ fs.holds s d
  pub same_file : (d : ℕ) → fs.is_open s d ≡ true → fs.file t d ≡ fs.file s d

-- `fd` is a new descriptor that holds the lock of `path`, which was free, and all else is as it was.
pub record Locked (fs : Files) (path fd : ℕ) (s t : fs.State) : Type 0 where
  pub fresh : fs.is_open s fd ≡ false
  pub opened : fs.is_open t fd ≡ true
  pub named : fs.file t fd ≡ path
  pub has : fs.holds t fd ≡ true
  pub was_free : (d : ℕ) → fs.holds s d ≡ true → fs.file s d ≢ path
  pub others : Others fs fd s t

abbrev pub Tried : (fs : Files) → ℕ → fs.State → Option ℕ × fs.State → Type 0
Tried fs path s (none, t) = Same fs s t
Tried fs path s (some fd, t) = Locked fs path fd s t

module _ (fs : Files) (ok : Lawful fs) where
  is_open-holds : (s : fs.State) (d : ℕ) → fs.holds s d ≡ true → fs.is_open s d ≡ true
  is_open-holds s d h = elim (Bool-cases (fs.is_open s d)) [
    | inl e ↦ e
    | inr e ↦ cc (h, ok.shut s d e)
  ]

  Same-close :
      (s t : fs.State) (fd : ℕ)
      → fs.is_open s fd ≡ false
      → Others fs fd s t
      → Same fs s (fs.close fd t)
  Same-close s t fd fresh o =
      let shut = ok.close-shut fd t in
      let rest = ok.close-others fd t in
      record {
        same_open = λ d. ground (arith, shut, fresh, rest.still_open d, o.still_open d);
        same_holds = λ d. ground (
          arith,
          ok.shut (fs.close fd t) fd shut,
          ok.shut s fd fresh,
          rest.still_holds d,
          o.still_holds d,
        );
        same_file = λ d op. ground (arith, fresh, rest.same_file d, o.same_file d);
      }

  Opened-Taken :
      (path fd : ℕ) (s t u : fs.State)
      → Opened fs path fd s t
      → Taken fs fd t u
      → Locked fs path fd s u
  Opened-Taken path fd s t u o k = record {
    fresh = o.fresh;
    opened = k.opened ∙ o.opened;
    named = k.named ∙ o.named;
    has = k.has;
    was_free = was_free;
    others = record {
      still_open = λ d ne. k.others.still_open d ne ∙ o.others.still_open d ne;
      same_file = λ d ne. k.others.same_file d ne ∙ o.others.same_file d ne;
      still_holds = λ d ne. k.others.still_holds d ne ∙ o.others.still_holds d ne;
    };
  }
    where
      other : (d : ℕ) → fs.holds s d ≡ true → d ≢ fd
      other d h e = cc (is_open-holds s d h, ap (fs.is_open s) e, o.fresh)

      was_free : (d : ℕ) → fs.holds s d ≡ true → fs.file s d ≢ path
      was_free d h e =
          let ne = other d h in
          ne (
            k.was_free d (o.others.still_holds d ne ∙ h)
              (o.others.same_file d ne ∙ e ∙ sym o.named))

  -- If `open`, `flock` and `close` keep their promises, `fio_trylock` returns a new descriptor that
  -- holds the lock, which nobody held; or it fails, and every descriptor is as it was: the one that it opened is closed again.
  pub fio_trylock-Tried : (path : ℕ) (s : fs.State) → Tried fs path s (fio_trylock fs path s)
  unfolding fio_trylock
  fio_trylock-Tried path s = elim (Option-cases (fs.open_file path s)) [
    | inl failed ↦
        rw (failed, fio_trylock)
          (record { same_open = λ d. refl; same_holds = λ d. refl; same_file = λ d op. refl })
    | inr ((fd, t), opened) ↦
        let o = ok.open_file-some path fd s t opened in
        elim (Option-cases (fs.flock_nb fd t)) [
          | inl held ↦ rw (opened, fio_trylock, held) (Same-close s t fd o.fresh o.others)
          | inr (u, taken) ↦
              rw (opened, fio_trylock, taken)
                (Opened-Taken path fd s t u o (ok.flock_nb-some fd t u taken))
        ]
  ]

  Locked-Exclusive :
      (path fd : ℕ) (s t : fs.State) → Locked fs path fd s t → Exclusive fs s → Exclusive fs t
  Locked-Exclusive path fd s t l ex a b ha hb e = ground (
    arith,
    l.named,
    l.others.still_holds a,
    l.others.still_holds b,
    l.others.same_file a,
    l.others.same_file b,
    l.was_free a,
    l.was_free b,
    ex a b,
  )

  Same-Exclusive : (s t : fs.State) → Same fs s t → Exclusive fs s → Exclusive fs t
  Same-Exclusive s t m ex a b ha hb e =
      let sa = sym (m.same_holds a) ∙ ha in
      let sb = sym (m.same_holds b) ∙ hb in
      ex a b sa sb
        (sym (m.same_file a (is_open-holds s a sa)) ∙ e ∙ m.same_file b (is_open-holds s b sb))

  -- At most one descriptor holds a file's lock, also after `fio_trylock`.
  pub fio_trylock-Exclusive :
      (path : ℕ) (s : fs.State) → Exclusive fs s → Exclusive fs (fio_trylock fs path s).1
  fio_trylock-Exclusive path s ex = go (fio_trylock fs path s) (fio_trylock-Tried path s)
    where
      go : (r : Option ℕ × fs.State) → Tried fs path s r → Exclusive fs r.1
      go (none, t) same = Same-Exclusive s t same ex
      go (some fd, t) l = Locked-Exclusive path fd s t l ex

  -- A file that some descriptor holds locked, of this process or another, is not locked again.
  pub fio_trylock_held :
      (path d : ℕ) (s : fs.State)
      → fs.holds s d ≡ true
      → fs.file s d ≡ path
      → (fio_trylock fs path s).0 ≡ none
  fio_trylock_held path d s h e = go (fio_trylock fs path s) (fio_trylock-Tried path s)
    where
      go : (r : Option ℕ × fs.State) → Tried fs path s r → r.0 ≡ none
      go (none, t) same = refl
      go (some fd, t) l = absurd (l.was_free d h e)

  -- `fio_unlock` closes the descriptor, which then holds nothing, and touches no other.
  pub fio_unlock-Others :
      (fd : ℕ) (s : fs.State)
      → (fs.is_open (fio_unlock fs (some fd) s).1 fd ≡ false)
        × (fs.holds (fio_unlock fs (some fd) s).1 fd ≡ false)
        × Others fs fd s (fio_unlock fs (some fd) s).1
  unfolding fio_unlock
  fio_unlock-Others fd s =
      let u = fs.flock_un fd s in
      let shut = ok.close-shut fd u in
      let un = ok.flock_un-others fd s in
      let rest = ok.close-others fd u in
      (
        shut,
        ok.shut (fs.close fd u) fd shut,
        record {
          still_open = λ d ne. rest.still_open d ne ∙ un.still_open d ne;
          same_file = λ d ne. rest.same_file d ne ∙ un.same_file d ne;
          still_holds = λ d ne. rest.still_holds d ne ∙ un.still_holds d ne;
        },
      )

  -- `fio_unlock` of what `fio_trylock` returned leaves every descriptor as it was before.
  pub fio_trylock-fio_unlock :
      (path fd : ℕ) (s t : fs.State)
      → Locked fs path fd s t
      → Same fs s (fio_unlock fs (some fd) t).1
  fio_trylock-fio_unlock path fd s t l =
      let (shut, free, o) = fio_unlock-Others fd t in
      record {
        same_open = λ d. ground (arith, l.fresh, shut, o.still_open d, l.others.still_open d);
        same_holds = λ d.
            ground (arith, ok.shut s fd l.fresh, free, o.still_holds d, l.others.still_holds d);
        same_file = λ d op. ground (arith, l.fresh, o.same_file d, l.others.same_file d);
      }
