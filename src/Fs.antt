-- ===== src/Fs.antt =====
-- The file server's file system, damnfs.c and damnfs.h: the state, the operations in the order of
-- the source, and below them what is proved.
pub mod State
pub mod Bitmap
pub mod Block
pub mod Dir
pub mod Path
pub mod File
pub mod Sample
mod Tests
