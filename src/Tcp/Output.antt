-- ===== src/Tcp/Output.antt =====
-- The segments that a connection sends, and the end of its resources: the send helpers of
-- pkg/tcpStack/doTcp.go and the teardown of closing.go.
use mini_tls.Prelude.{ℕ, true, Option, none, some, List, [], ◌∷◌, ◌++◌, if◌then◌else◌, bit_or}
use mini_tls.Tcp.Types.{
  State, closed, Timer, unset, stopped, running, TcpFields, Entry, Conn, RetransQueue, RetransEntry,
  available_window, flag_ack, flag_rst,
}

-- `entry.sendPacketFunc(request)` puts the request on the stack's channel.
abbrev pub enqueue : Entry → TcpFields → List ℕ → Entry
enqueue e header payload = record e {
  requests =
      e.requests
      ++ (record {
        tcp_header = header;
        payload = payload;
        source_ip = e.local_ip;
        dest_ip = e.dest_ip;
      }
          ∷ []);
}

abbrev pub send : Conn → TcpFields → List ℕ → Conn
send c header payload = record c { entry = enqueue c.entry header payload }

abbrev pub set_state : Conn → State → Conn
set_state c s = record c { entry = record (c.entry) { state = s } }

-- The header of a segment with the connection's ports and window.
abbrev pub header : Conn → ℕ → ℕ → ℕ → TcpFields
header c seq ack flags = record {
  src_port = c.entry.local_port;
  dst_port = c.entry.dest_port;
  seq_num = seq;
  ack_num = ack;
  flags = flags;
  window_size = available_window c.recv_buf;
}

-- `sendPureAck`
abbrev pub send_pure_ack : Conn → ℕ → Conn
send_pure_ack c other_side_seq = send c (header c c.entry.seq_num other_side_seq flag_ack) []

-- `sendSegment`
abbrev pub send_segment : Conn → List ℕ → ℕ → ℕ → Conn
send_segment c segment seq flags = send c (header c seq c.recv_buf.nxt flags) segment

-- `sendRST`: the acknowledgment number is left at zero.
abbrev pub send_rst : Conn → Conn
send_rst c = send c (header c c.entry.seq_num 0 (bit_or flag_rst flag_ack)) []

-- `startRtoTimer`
abbrev pub start_rto_timer : RetransQueue → Timer
start_rto_timer q = running q.rto

-- `retransQueue.timer.Stop()`, which panics at a nil timer.
abbrev pub stop_timer : Timer → Option Timer
stop_timer unset = none
stop_timer stopped = some stopped
stop_timer (running d) = some stopped

-- A timer for an empty queue, and one for any other.
abbrev pub timer_if_empty : List RetransEntry → Timer → Timer → Timer
timer_if_empty [] t u = t
timer_if_empty (x ∷ xs) t u = u

-- What `sendFin` and `sendLoop` do to the queue: the timer is started if the queue is empty.
abbrev pub enqueue_retrans : RetransQueue → RetransEntry → RetransQueue
enqueue_retrans q x = record q {
  array = q.array ++ (x ∷ []);
  timer = timer_if_empty q.array (start_rto_timer q) q.timer;
}

-- `teardown`: closing a channel twice panics.
abbrev pub teardown : Conn → Option Conn
teardown c =
    if c.torn_down
    then none
    else some (record c { torn_down = true; entry = record (c.entry) { removed = true } })

-- `state = CLOSED` and `teardown`, as `handleLastAck`, the timer of `timeWait`, a reset and the
-- last retransmission do.
abbrev pub close : Conn → Option Conn
close c = teardown (set_state c closed)

-- `timeWait`
abbrev pub start_time_wait : Conn → Conn
start_time_wait c = record c { time_wait_timer = running 6000000000 }
