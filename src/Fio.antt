-- ===== src/Fio.antt =====
-- template-v1/src/lgu/fio: reading whole files and locking by files.
pub mod Easyrw
pub mod Lock
