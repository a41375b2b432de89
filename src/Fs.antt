-- ===== src/Fs.antt =====
-- The file systems' core: paths, the directory tree, the files in memory and the file descriptors.
pub mod Path
pub mod Dir
pub mod Ram
pub mod Iob
pub mod Disk
pub mod Rom
mod Tests
