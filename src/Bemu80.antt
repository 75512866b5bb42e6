-- ===== src/Bemu80.antt =====
-- bemu80/bemu80.c, the Z80 emulator that the system is run on.
pub mod Machine
pub mod Alu
pub mod Devices
pub mod Ops
pub mod Prefix
pub mod Index
pub mod Step
pub mod Examples
