-- ===== src/Tls.antt =====
-- pkg/tlsStack: an authenticated key exchange and sealed records over a TCP connection. `none` is an
-- error that the code returns.
pub mod Bytes
pub mod Transport
pub mod OverTcp
pub mod Messages
pub mod Crypto
pub mod KeyExchange
pub mod Records
