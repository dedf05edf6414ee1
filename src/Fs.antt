-- ===== src/Fs.antt =====
-- assign2: reading a Unix version 6 file system.
pub mod Disk
pub mod Inode
pub mod File
pub mod Directory
pub mod PathName
pub mod Checksum
pub mod Dump
mod Tests
