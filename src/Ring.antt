-- ===== src/Ring.antt =====
-- include/iouxx/iouringxx.hpp
pub mod Version
pub mod Liburing
pub mod State
pub mod Setup
pub mod Results
pub mod Operation
pub mod Tables
pub mod Lifecycle
pub mod Insert
pub mod Awaiter
pub mod Register
