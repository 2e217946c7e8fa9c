-- ===== src/Tcp/Receive.antt =====
-- The receiving side: `handlePayload` of pkg/tcpStack/doTcp.go, `handleFin` and `handleEarlyFin`
-- of closing.go, and `VRead` of socketsAPI.go.
pub mod Ring
pub mod Drain
pub mod Payload
pub mod Reader
pub mod InOrder
pub mod Delivery
pub mod Fin
use mini_tls.Prelude.{
  ℕ, zero, suc, ◌+◌, min, Bool, true, false, ◌&&◌, Option, none, some, List, ltb, leb, ◌==◌,
  if◌then◌else◌, ◌>>=◌, length, take, add32,
}
use mini_tls.Tcp.CircleBuf.{advance_base, free_space, read_from_buf, write_into_buf}
use mini_tls.Tcp.EarlyArrivals.{peek, pop_min, push_segment}
use mini_tls.Tcp.Output.{send_pure_ack, set_state, start_time_wait}
use mini_tls.Tcp.Types.{
  Conn, State, TcpFields, close_wait, closed, established, fin_wait_1, fin_wait_2, last_ack,
  time_wait,
}

-- The signal on `dataToRead`.
abbrev pub signal_data : Conn → Conn
signal_data c = record c { recv_buf = record (c.recv_buf) { data_to_read = true } }

-- The switch on the state at the end of `handleFin` and of `handleEarlyFin`.
abbrev pub fin_received : State → Conn → Conn
fin_received established c = signal_data (set_state c close_wait)
fin_received fin_wait_1 c = start_time_wait (set_state c time_wait)
fin_received fin_wait_2 c = start_time_wait (set_state c time_wait)
fin_received _ c = c

-- Both consume the FIN alike: the next expected number goes past it, and it is acknowledged.
abbrev pub consume_fin : Conn → ℕ → Conn
consume_fin c seq =
    let ack = add32 seq 1 in
    fin_received c.entry.state
      (send_pure_ack (record c { recv_buf = record (c.recv_buf) { nxt = ack; fin = 0 } }) ack)

-- `handleEarlyFin`
pub handle_early_fin : Conn → Conn
handle_early_fin c =
    if c.recv_buf.fin == 0
    then c
    else if c.recv_buf.fin == c.recv_buf.nxt
    then consume_fin c c.recv_buf.fin
    else c

-- `handleFin`
unfoldable pub handle_fin : Conn → TcpFields → Conn
handle_fin c0 hdr =
    let c = record c0 { recv_buf = record (c0.recv_buf) { fin = hdr.seq_num } } in
    if ltb c.recv_buf.nxt hdr.seq_num
    then c
    else if ltb hdr.seq_num c.recv_buf.nxt
    then send_pure_ack c c.recv_buf.nxt
    else consume_fin c hdr.seq_num

-- The end of a round of the loop below: `PopMin`, and its bytes go into the ring.
pub take_first : Conn → Option Conn
take_first c = do
  first ← pop_min c.recv_buf.early_arrivals
  written ← write_into_buf c.recv_buf.c_buf first.0.start_seq first.0.bytes
  some (record c {
    recv_buf = record (c.recv_buf) {
      c_buf = written.0;
      nxt = add32 c.recv_buf.nxt written.1;
      early_arrivals = first.1;
    };
  })

-- The loop of `handlePayload` that moves early arrivals into the ring, and looks for an early FIN
-- when there are none. Each round takes one out, so `length + 1` rounds are enough; `none` is a
-- panic, or fuel that ran out.
pub drain : ℕ → Conn → Option Conn
drain zero c = none
drain (suc fuel) c = elim (peek c.recv_buf.early_arrivals) [
  | none ↦ some (handle_early_fin c)
  | some first ↦
      let rest = (take_first c >>= drain fuel) in
      if first.start_seq == c.recv_buf.nxt && leb (length first.bytes) (free_space c.recv_buf.c_buf)
      then rest
      else some c
]

-- The part of `handlePayload` from the write on: the segment is the expected one, and there is
-- space.
pub accept_payload : Conn → List ℕ → Option Conn
accept_payload c payload = do
  written ← write_into_buf c.recv_buf.c_buf c.recv_buf.nxt payload
  let r = record (c.recv_buf) { c_buf = written.0; nxt = add32 c.recv_buf.nxt (length payload) }
  c' ← drain (length r.early_arrivals + 1) (record c { recv_buf = r })
  let c'' = signal_data c'
  some (send_pure_ack c'' c''.recv_buf.nxt)

-- `handlePayload`. The coin is the test of the clock that drops half of the segments while
-- `dropForRetrans` is set. `WriteIntoBuf` returns the length that it is given, so the branch for a
-- short write is never taken.
pub handle_payload : Bool → Conn → TcpFields → List ℕ → Option Conn
handle_payload coin c hdr payload =
    let r = c.recv_buf in
    let space = free_space r.c_buf in
    if c.entry.drop_for_retrans && coin
    then some c
    else if ltb r.nxt hdr.seq_num
    then some (
        send_pure_ack
          (record c {
            recv_buf = record r {
              early_arrivals = push_segment r.early_arrivals hdr.seq_num payload;
            };
          })
          r.nxt)
    else if ltb hdr.seq_num r.nxt
    then some (send_pure_ack c r.nxt)
    else if space == 0
    then some (send_pure_ack c r.nxt)
    else accept_payload c (if ltb space (length payload) then take space payload else payload)

-- What `VRead` comes to: an error as the connection closes, the end of the stream, a wait for
-- `dataToRead`, or a number of bytes in the caller's buffer.
pub data ReadResult : Type 0 where
  closing eof : ReadResult
  blocked : Conn → ReadResult
  got : ℕ → List ℕ → Conn → ReadResult

-- The states in which `VRead` and `VWrite` refuse.
abbrev pub is_closing : State → Bool
is_closing fin_wait_1 = true
is_closing fin_wait_2 = true
is_closing time_wait = true
is_closing last_ack = true
is_closing closed = true
is_closing _ = false

abbrev pub is_close_wait : State → Bool
is_close_wait close_wait = true
is_close_wait _ = false

-- The loop of `VRead` up to its return or its wait, as it starts and as it goes on after a wait: the
-- state is not looked at again, but for CLOSE_WAIT. A token that is there when the ring is empty is
-- taken, and the loop comes back to wait.
abbrev pub vread_on : Conn → List ℕ → Option ReadResult
vread_on c dest =
    let r = c.recv_buf in
    if r.c_buf.curr_size == 0
    then some (
        if is_close_wait c.entry.state
        then eof
        else blocked (record c { recv_buf = record r { data_to_read = false } }))
    else do
      read ← read_from_buf r.c_buf (add32 r.lbr 1) dest (min (length dest) r.c_buf.curr_size)
      some (
          got read.1 read.0 (record c {
            recv_buf = record r { c_buf = advance_base r.c_buf read.1; lbr = add32 r.lbr read.1 };
          }))

-- `VRead` up to its return or its first wait.
pub vread : Conn → List ℕ → Option ReadResult
vread c dest = if is_closing c.entry.state then some closing else vread_on c dest
