-- ===== src/Fio/Lock/Examples.antt =====
-- The theorems on template-v1/src/lgu/fio/fio_lock.c at a table of descriptors.
use linux_c_template.Prelude.{false, some, arith}
use linux_c_template.Fio.Lock.{fio_lock, fio_trylock, fio_unlock}
use linux_c_template.Fio.Lock.Exclusive.{
  Same, Locked, Tried, fio_trylock-Tried, Exclusive, fio_trylock-Exclusive, fio_trylock-fio_unlock,
}
use linux_c_template.Fio.Lock.Waits.{Waited, fio_lock-Waited}
use linux_c_template.Fio.Lock.Table.{Table, files, empty, files-Lawful}

-- Descriptor 3 holds the lock of file 7.
abbrev held : Table
held = record { used = 4; names = λ d. 7; gone = λ d. false; owner = λ p. some 3 }

fio_trylock-Tried_example : Tried files 7 held (fio_trylock files 7 held)
fio_trylock-Tried_example = fio_trylock-Tried files files-Lawful 7 held

empty-Exclusive : Exclusive files empty
empty-Exclusive a b h i e = ground arith

fio_trylock-Exclusive_example : Exclusive files (fio_trylock files 7 empty).1
fio_trylock-Exclusive_example = fio_trylock-Exclusive files files-Lawful 7 empty empty-Exclusive

fio_trylock-Locked : Locked files 7 3 empty (fio_trylock files 7 empty).1
unfolding fio_trylock
fio_trylock-Locked = fio_trylock-Tried files files-Lawful 7 empty

fio_trylock-fio_unlock_example :
    Same files empty (fio_unlock files (some 3) (fio_trylock files 7 empty).1).1
fio_trylock-fio_unlock_example =
    fio_trylock-fio_unlock files files-Lawful 7 3 empty (fio_trylock files 7 empty).1
      fio_trylock-Locked

fio_lock-Waited_example : Waited files files-Lawful 7 held (fio_lock files 7 held)
fio_lock-Waited_example = fio_lock-Waited files files-Lawful 7 held
