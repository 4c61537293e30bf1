-- ===== src/Ip.antt =====
-- include/iouxx/iouops/network/ip.hpp
pub mod Bytes
pub mod V4
pub mod Port
pub mod Endpoint
pub mod SocketV4
pub mod SocketV6
pub mod V6
