-- ===== src/Tcp/Dispatch.antt =====
-- The dispatch of a segment: `HandleTCP` of pkg/tcpStack/doTcp.go and `handleSyn` of handshake.go.
pub mod Resets
pub mod Closing
use mini_tls.Prelude.{
  ℕ, ◌+◌, bit_and, Bool, not, ◌&&◌, Option, none, some, List, [], ◌∷◌, ◌++◌, ltb, ◌==◌,
  if◌then◌else◌, ◌>>=◌, length,
}
use mini_tls.Tcp.Handshake.{
  Opened, failed, handle_ack_handshake, handle_syn_ack, kept, opened, send_ack_handshake,
  send_syn_ack, start_handshake_timer,
}
use mini_tls.Tcp.Output.{close}
use mini_tls.Tcp.Receive.{handle_fin, handle_payload}
use mini_tls.Tcp.Send.{Floats, handle_pure_ack}
use mini_tls.Tcp.Table.{
  Listener, Socket, Stack, connected, insert, listening, lookup, new_entry, opening, put_conn,
  put_opening, table_match,
}
use mini_tls.Tcp.Types.{
  Conn, Entry, State, TcpFields, close_wait, established, fin_wait_1, fin_wait_2, flag_ack,
  flag_fin, flag_rst, flag_syn, flag_syn_ack, has_flag, last_ack, syn_received, syn_sent,
}

-- The entry that `handleSyn` makes for a SYN.
abbrev pub passive_entry : ℕ → ℕ → TcpFields → ℕ → ℕ → Entry
passive_entry isn id hdr local_ip dest_ip = record new_entry {
  local_port = hdr.dst_port;
  local_ip = local_ip;
  dest_port = hdr.src_port;
  dest_ip = dest_ip;
  state = syn_received;
  socket_id = id;
  seq_num = isn;
}

-- `handleSyn`
pub handle_syn : ℕ → ℕ → Listener → TcpFields → ℕ → ℕ → Stack → Stack
handle_syn isn id l hdr local_ip dest_ip st =
    if not l.accepting_conns
    then st
    else if not (has_flag hdr.flags flag_syn)
    then st
    else put_opening (record st { next_id = st.next_id + 1 }) st.next_id (some id)
        (start_handshake_timer
          (send_syn_ack (passive_entry isn st.next_id hdr local_ip dest_ip) hdr.seq_num))

-- `listenSocket.connChan <- normalSocket`, which panics at a closed channel. Its capacity is five:
-- with more in the list the sender waits for `VAccept`.
hand_over : ℕ → ℕ → Stack → Option Stack
hand_over listener id st = elim (lookup listener st.listeners) [
  | none ↦ none
  | some l ↦
      if l.chan_closed
      then none
      else some (record st {
        listeners =
            insert listener (record l { conn_chan = l.conn_chan ++ (id ∷ []) }) st.listeners;
      })
]

-- The cases of `HandleTCP` for ESTABLISHED, FIN_WAIT_1, FIN_WAIT_2 and CLOSE_WAIT.
pub handle_open : Floats → ℕ → Bool → Conn → TcpFields → List ℕ → Option Conn
handle_open fl now coin c hdr payload =
    if has_flag hdr.flags flag_fin
    then some (handle_fin c hdr)
    else if (bit_and hdr.flags flag_syn_ack == flag_syn_ack) && (length payload == 0)
    then some (record c { entry = send_ack_handshake c.entry hdr.seq_num })
    else if has_flag hdr.flags flag_ack && (length payload == 0)
    then handle_pure_ack fl now c hdr
    else if ltb (length payload) 1
    then some c
    else handle_payload coin c hdr payload

-- The case for LAST_ACK.
pub handle_last : Floats → ℕ → Conn → TcpFields → List ℕ → Option Conn
handle_last fl now c hdr payload =
    if not (has_flag hdr.flags flag_ack && (length payload == 0))
    then some c
    else handle_pure_ack fl now c hdr

-- The switch of `HandleTCP` on the state of a connection.
pub handle_conn : Floats → ℕ → Bool → State → Conn → TcpFields → List ℕ → Option Conn
handle_conn fl now coin established c hdr payload = handle_open fl now coin c hdr payload
handle_conn fl now coin fin_wait_1 c hdr payload = handle_open fl now coin c hdr payload
handle_conn fl now coin fin_wait_2 c hdr payload = handle_open fl now coin c hdr payload
handle_conn fl now coin close_wait c hdr payload = handle_open fl now coin c hdr payload
handle_conn fl now coin last_ack c hdr payload = handle_last fl now c hdr payload
handle_conn fl now coin _ c hdr payload = some c

-- What a socket without buffers makes of a segment.
opening_step : State → Entry → TcpFields → Opened
opening_step syn_received e hdr = handle_ack_handshake e hdr
opening_step syn_sent e hdr = handle_syn_ack e hdr
opening_step _ e hdr = kept e

-- A connection of the passive side goes to its listener.
settle : ℕ → Option ℕ → Opened → Stack → Option Stack
settle id l (kept e) st = some (put_opening st id l e)
settle id l (failed e) st = some (put_opening st id l e)
settle id none (opened c) st = some (put_conn st id none c)
settle id (some listener) (opened c) st = hand_over listener id (put_conn st id (some listener) c)

-- The connection with buffers that `teardown` goes through. `normalSocket` of a listener is nil, and
-- so are the buffers of a socket in the handshake.
abbrev pub torn : Socket → Option (Option ℕ × Conn)
torn (listening e) = none
torn (opening l e) = none
torn (connected l c) = some (l, c)

-- The branch of `HandleTCP` for a reset, which comes before the look at the state: a nil pointer is a
-- panic.
reset : Stack → ℕ → Socket → Option Stack
reset st id s = do found ← torn s; c ← close found.1; some (put_conn st id found.0 c)

-- What is done with a segment that is no reset.
pub dispatch :
    Floats → ℕ → Bool → ℕ → TcpFields → List ℕ → ℕ → ℕ → Stack → ℕ → Socket → Option Stack
dispatch fl now coin isn hdr payload src_ip dest_ip st id (listening e) =
    elim (lookup id st.listeners) [
      | none ↦ none
      | some l ↦ some (handle_syn isn id l hdr dest_ip src_ip st)
    ]
dispatch fl now coin isn hdr payload src_ip dest_ip st id (opening l e) =
    settle id l (opening_step e.state e hdr) st
dispatch fl now coin isn hdr payload src_ip dest_ip st id (connected l c) =
    handle_conn fl now coin c.entry.state c hdr payload >>= λ c'. some (put_conn st id l c')

-- `HandleTCP` on a segment whose checksum is right, from `src_ip` to `dest_ip`.
pub handle_tcp : Floats → ℕ → Bool → ℕ → TcpFields → List ℕ → ℕ → ℕ → Stack → Option Stack
handle_tcp fl now coin isn hdr payload src_ip dest_ip st =
    elim (table_match hdr.src_port src_ip hdr.dst_port dest_ip st.socket_map none) [
      | none ↦ some st
      | some (id, s) ↦
          if has_flag hdr.flags flag_rst
          then reset st id s
          else dispatch fl now coin isn hdr payload src_ip dest_ip st id s
    ]
