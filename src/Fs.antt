-- ===== src/Fs.antt =====
-- kernel/src/fs: inodes and the table of the open files.
pub mod Path
pub mod Inode
pub mod MemoryInode
pub mod FdTable
pub mod OpenFiles
pub mod Vfs
