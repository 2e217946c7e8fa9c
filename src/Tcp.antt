-- ===== src/Tcp.antt =====
-- pkg/tcpStack: sockets, connections and their buffers.
pub mod CircleBuf
pub mod Types
pub mod EarlyArrivals
pub mod Output
pub mod Receive
pub mod Send
pub mod Writer
pub mod Handshake
pub mod Table
pub mod Sockets
pub mod Dispatch
pub mod Segments
pub mod Stream
pub mod Transfer
