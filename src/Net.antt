-- ===== src/Net.antt =====
-- The network operations of include/iouxx/iouops/network.
pub mod Sockets
pub mod Protocols
pub mod SendRecv
pub mod Prepare
pub mod Connecting
pub mod Options
pub mod Uds
