-- ===== src/Userland.antt =====
-- userland/, the programs that run on the kernel.
pub mod Edit
pub mod Shell
pub mod Asm
pub mod Ecalc
pub mod Examples
