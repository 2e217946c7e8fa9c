-- ===== src/Tests.antt =====
-- Runs of the code on small inputs, and the theorems at them.
pub mod Data
pub mod Send
pub mod Receive
pub mod Handshake
pub mod Tls
pub mod Table
pub mod Ipv4
pub mod Ip
pub mod Segments
pub mod Path
pub mod Rip
