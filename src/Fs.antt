-- ===== src/Fs.antt =====
-- lab4_fs: a flat file system of one directory block and one block map, over a raw disk.
pub mod Bytes
pub mod Posix
pub mod Device
pub mod Rawdisk
pub mod Layout
pub mod Text
pub mod Chain
pub mod Support
pub mod Consistent
pub mod Format
pub mod Run
pub mod Ssfs
pub mod Info
pub mod Tests
