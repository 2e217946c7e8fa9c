-- ===== src/Tcp/Handshake/Agree.antt =====
-- The two ends of a connection after the three-way handshake.
use mini_tls.Prelude.{◌≡◌, Option, none, some, List, [], ◌∷◌}
use mini_tls.Tcp.CircleBuf.{max_win_size}
use mini_tls.Tcp.Types.{Conn, SendRequest, TcpFields, established}

-- The ends name each other, and each expects the byte that the other sends next.
pub record Agree (a p : Conn) : Type 0 where
  pub states : (a.entry.state ≡ established) × (p.entry.state ≡ established)
  pub ports : (a.entry.local_port ≡ p.entry.dest_port) × (a.entry.dest_port ≡ p.entry.local_port)
  pub ips : (a.entry.local_ip ≡ p.entry.dest_ip) × (a.entry.dest_ip ≡ p.entry.local_ip)
  pub forth : a.send_buf.nxt ≡ p.recv_buf.nxt
  pub back : p.send_buf.nxt ≡ a.recv_buf.nxt
  pub windows :
      (a.send_buf.other_side_window ≡ max_win_size) × (p.send_buf.other_side_window ≡ max_win_size)

-- The header of the first request.
abbrev pub first_header : List SendRequest → Option TcpFields
first_header [] = none
first_header (r ∷ rs) = some r.tcp_header
