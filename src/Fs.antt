-- ===== src/Fs.antt =====
-- fs/mfs.c and fs/fd.c.
pub mod Disk
pub mod Layout
pub mod State
pub mod Bitmap
pub mod Names
pub mod Fd
pub mod Open
pub mod Read
pub mod Write
pub mod Seek
pub mod Delete
pub mod Roundtrip
pub mod Examples
