-- ===== src/Rip.antt =====
-- pkg/ipStack/rip.go: the routing protocol.
pub mod Messages
pub mod Send
pub mod Update
