-- ===== src/Fs.antt =====
-- The file system of src/fs.c.
pub mod State
pub mod Path
pub mod Directory
pub mod Inode
pub mod Create
pub mod File
pub mod Metadata
pub mod Listing
mod Tests
