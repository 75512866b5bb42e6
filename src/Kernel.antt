-- ===== src/Kernel.antt =====
-- kernel/ and driver/: the terminal driver, the kernel's output and input, and its system calls.
pub mod Tty
pub mod Kstdio
pub mod Exec
pub mod Examples
