-- ===== src/Tests.antt =====
-- Runs on fixed inputs, and the theorems at concrete inputs.
mod V4
mod V6
mod Mapped
mod Sockets
mod Kernel
mod Rings
mod Buffers
mod Awaiters
mod Protocols
mod Networks
mod Files
mod Timeouts
mod Cancels
