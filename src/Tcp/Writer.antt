-- ===== src/Tcp/Writer.antt =====
-- The application's side of sending: `VWrite` and `VClose` of pkg/tcpStack/socketsAPI.go, and
-- `sendFin` of closing.go.
pub mod Write
pub mod Room
pub mod Fin
use mini_tls.Prelude.{
  ℕ, zero, suc, ◌+◌, min, Bool, true, false, ◌&&◌, Option, none, some, List, [], ◌∷◌, ltb, leb,
  ◌==◌, if◌then◌else◌, ◌>>=◌, length, take, drop, add32,
}
use mini_tls.Tcp.CircleBuf.{free_space, write_into_buf}
use mini_tls.Tcp.Output.{enqueue_retrans, header, send}
use mini_tls.Tcp.Receive.{is_closing}
use mini_tls.Tcp.Types.{
  Conn, SendBuf, State, close_wait, closed, established, fin_wait_1, fin_wait_2, flag_fin_ack,
  last_ack, time_wait,
}

-- What `VWrite` comes to: an error as the connection closes, a wait for `spaceAvailable` with the
-- bytes that are left, or all bytes written.
pub data WriteResult : Type 0 where
  closing : WriteResult
  blocked : List ℕ → Conn → WriteResult
  wrote : ℕ → Conn → WriteResult

-- A round of the loop of `VWrite` with space in the buffer.
pub write_chunk : Conn → List ℕ → Option Conn
write_chunk c bytes = do
  written ← write_into_buf c.send_buf.c_buf (add32 c.send_buf.lbw 1) bytes
  some (record c {
    send_buf = record (c.send_buf) {
      c_buf = written.0;
      lbw = add32 c.send_buf.lbw (length bytes);
      data_written = true;
    };
  })

-- The loop of `VWrite`; each round writes a byte at least, so `length + 1` rounds are enough.
pub write_loop : ℕ → Conn → List ℕ → ℕ → Option WriteResult
write_loop zero c bytes total = none
write_loop (suc fuel) c [] total = some (wrote total c)
write_loop (suc fuel) c (b ∷ bytes) total =
    let space = free_space c.send_buf.c_buf in
    let n = min (suc (length bytes)) space in
    let rest =
      (write_chunk c (take n (b ∷ bytes)) >>= λ c'.
      write_loop fuel c' (drop n (b ∷ bytes)) (total + n)) in
    if space == 0 then some (blocked (b ∷ bytes) c) else rest

-- The rest of `VWrite`, which goes on in its loop after a wait, without another look at the state.
pub vwrite_on : Conn → List ℕ → ℕ → Option WriteResult
unfolding write_loop
vwrite_on c bytes total = write_loop (suc (length bytes)) c bytes total

-- `VWrite` up to its return or its first wait.
unfoldable pub vwrite : Conn → List ℕ → Option WriteResult
unfolding vwrite_on write_chunk
vwrite c bytes = if is_closing c.entry.state then some closing else vwrite_on c bytes 0

abbrev pub fin_state : State → State
fin_state established = fin_wait_1
fin_state _ = last_ack

-- `sendFin`. The FIN takes a sequence number, and goes on the queue with length zero.
pub send_fin : ℕ → Conn → Conn
send_fin now c =
    let seq = c.entry.seq_num in
    let c' = send c (header c seq c.recv_buf.nxt flag_fin_ack) [] in
    let nxt = add32 c.send_buf.nxt 1 in
    record c' {
      retrans_queue = enqueue_retrans c.retrans_queue (record {
        seq_num = seq;
        len = 0;
        flags = flag_fin_ack;
        sent = now;
        retransmitted = false;
        num_retransmits = 0;
      });
      send_buf = record (c.send_buf) { nxt = nxt };
      entry = record (c'.entry) { seq_num = nxt; state = fin_state c.entry.state };
    }

-- What `VClose` on a connection comes to: two errors, another round of its wait for the send
-- buffer to run empty, or the FIN.
pub data CloseResult : Type 0 where
  closing in_handshake waiting : CloseResult
  fin_sent : Conn → CloseResult

-- `noneInFlight && noneUnsent`
abbrev pub all_acked : SendBuf → Bool
all_acked s = leb s.nxt s.una && ltb s.lbw s.nxt

abbrev pub close_on : State → CloseResult → CloseResult
close_on established r = r
close_on close_wait r = r
close_on fin_wait_1 r = closing
close_on fin_wait_2 r = closing
close_on last_ack r = closing
close_on time_wait r = closing
close_on closed r = closing
close_on _ r = in_handshake

-- A round of the loop of `VClose`, whatever the state has become meanwhile.
pub close_round : ℕ → Conn → CloseResult
close_round now c = if all_acked c.send_buf then fin_sent (send_fin now c) else waiting

-- `VClose` up to the first round of its loop. While it waits, `close_round` is repeated.
pub vclose : ℕ → Conn → CloseResult
unfolding close_round
vclose now c = close_on c.entry.state (close_round now c)
