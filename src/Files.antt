-- ===== src/Files.antt =====
-- The file operations of include/iouxx/iouops/file.
pub mod Io
pub mod Open
pub mod Directory
pub mod Poll
