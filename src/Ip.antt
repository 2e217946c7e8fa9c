-- ===== src/Ip.antt =====
-- pkg/ipStack without RIP: interfaces, the forwarding table, packets and forwarding.
pub mod Prefix
pub mod Types
pub mod Table
pub mod Match
pub mod Packet
pub mod Forward
pub mod Config
pub mod Init
pub mod Router
