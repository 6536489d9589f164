-- ===== src/Lgu.antt =====
-- template-v1/src/lgu: helpers that the other parts and the user's program call.
pub mod Hexdump
pub mod Atomic
pub mod Stdmsg
pub mod Asciidump
pub mod Tm
mod Examples
