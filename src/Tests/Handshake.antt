-- ===== src/Tests/Handshake.antt =====
-- The handshake at concrete numbers.
use mini_tls.Prelude.{arith}
use mini_tls.Tcp.Handshake.{init_bufs}
use mini_tls.Tcp.Handshake.Agree.{Agree}
use mini_tls.Tcp.Handshake.Fresh.{Fresh, init_bufs-Fresh}
use mini_tls.Tests.Data.{small_entry, stream}

init_bufs-Fresh_example : Fresh stream stream (init_bufs small_entry 901 65535)
init_bufs-Fresh_example =
    init_bufs-Fresh stream stream small_entry 901 65535 (omega arith) (omega arith) (omega arith)
