-- ===== src/Tcp/Handshake.antt =====
-- pkg/tcpStack/handshake.go: the three-way handshake of one socket, and `initBufs` of doTcp.go.
pub mod Fresh
pub mod Agree
use mini_tls.Prelude.{
  ℕ, ◌+◌, Bool, true, false, not, ◌||◌, none, some, [], leb, ◌==◌, if◌then◌else◌, add32, sub32,
  bit_and,
}
use mini_tls.Tcp.CircleBuf.{max_win_size, new_circle_buf}
use mini_tls.Tcp.Types.{
  State, closed, syn_sent, syn_received, established, error, unset, running, TcpFields, Entry, Conn,
  max_retransmissions, rto_init, flag_syn, flag_ack, flag_syn_ack, has_flag,
}
use mini_tls.Tcp.Output.{enqueue}

-- The header of a segment of the handshake, which offers the whole window.
abbrev pub handshake_header : Entry → ℕ → ℕ → TcpFields
handshake_header e ack flags = record {
  src_port = e.local_port;
  dst_port = e.dest_port;
  seq_num = e.seq_num;
  ack_num = ack;
  flags = flags;
  window_size = max_win_size;
}

-- `sendSyn`
abbrev pub send_syn : Entry → Entry
send_syn e = enqueue e (handshake_header e 0 flag_syn) []

-- `sendSynAck`
abbrev pub send_syn_ack : Entry → ℕ → Entry
send_syn_ack e other_side_seq =
    enqueue e (handshake_header e (add32 other_side_seq 1) flag_syn_ack) []

-- `sendAckHandshake`
abbrev pub send_ack_handshake : Entry → ℕ → Entry
send_ack_handshake e passive_seq = enqueue e (handshake_header e (add32 passive_seq 1) flag_ack) []

-- `startSynRetransTimer` and `startSynAckRetransTimer`: two seconds.
abbrev pub start_handshake_timer : Entry → Entry
start_handshake_timer e = record e { handshake_timer = running 2000000000 }

-- `stopHandshakeTimer`
abbrev pub stop_handshake_timer : Entry → Entry
stop_handshake_timer e = record e { handshake_timer = unset }

-- `signalConnectResult`: a value that finds the channel full is lost.
abbrev pub signal_connect_result : Entry → State → Entry
signal_connect_result e s = record e {
  established = elim e.established [ none ↦ some s | some t ↦ some t ];
}

-- `initBufs`, with the empty retransmission queue that its callers make.
unfoldable pub init_bufs : Entry → ℕ → ℕ → Conn
init_bufs e other_side_seq window = record {
  entry = e;
  send_buf = record {
    c_buf = new_circle_buf max_win_size e.seq_num;
    nxt = e.seq_num;
    lbw = sub32 e.seq_num 1;
    una = e.seq_num;
    other_side_window = window;
    data_written = false;
    space_available = false;
    is_probing = false;
    window_updated = false;
    zwp_trigger = false;
  };
  recv_buf = record {
    c_buf = new_circle_buf max_win_size other_side_seq;
    lbr = sub32 other_side_seq 1;
    nxt = other_side_seq;
    early_arrivals = [];
    data_to_read = false;
    fin = 0;
  };
  retrans_queue = record { array = []; rto = rto_init; srtt = 0; timer = unset };
  time_wait_timer = unset;
  torn_down = false;
}

-- What a segment makes of a socket in the handshake: it stays, with or without an error, or it is
-- a connection.
pub data Opened : Type 0 where
  kept failed : Entry → Opened
  opened : Conn → Opened

-- `handleSynAck`
pub handle_syn_ack : Entry → TcpFields → Opened
unfolding init_bufs
handle_syn_ack e hdr =
    let heard = stop_handshake_timer (record e { received_syn = true }) in
    let e' = record heard {
      seq_num = hdr.ack_num;
      last_known_ack = hdr.ack_num;
      state = established;
    } in
    let acked = signal_connect_result (send_ack_handshake e' hdr.seq_num) established in
    if not (bit_and hdr.flags flag_syn_ack == flag_syn_ack)
    then failed (signal_connect_result e error)
    else if not (hdr.ack_num == add32 e.seq_num 1)
    then failed (signal_connect_result heard error)
    else opened (init_bufs acked (add32 hdr.seq_num 1) hdr.window_size)

-- `handleAckHandshake`, up to the hand-over to the listener.
pub handle_ack_handshake : Entry → TcpFields → Opened
unfolding init_bufs
handle_ack_handshake e hdr =
    let e' = stop_handshake_timer (record e {
      seq_num = add32 e.seq_num 1;
      received_syn_ack = true;
      state = established;
      last_known_ack = hdr.ack_num;
    }) in
    if not (has_flag hdr.flags flag_ack)
    then kept e
    else if not (hdr.ack_num == add32 e.seq_num 1)
    then failed e
    else opened (init_bufs e' hdr.seq_num max_win_size)

abbrev is_syn_sent : State → Bool
is_syn_sent syn_sent = true
is_syn_sent _ = false

abbrev is_syn_received : State → Bool
is_syn_received syn_received = true
is_syn_received _ = false

-- `sendSynRetrans`, run by the timer.
pub send_syn_retrans : Entry → Entry
send_syn_retrans e =
    if not (is_syn_sent e.state) || e.received_syn
    then e
    else if leb max_retransmissions e.num_syn_retransmissions
    then signal_connect_result (record e { state = closed; removed = true }) error
    else start_handshake_timer
        (send_syn (record e { num_syn_retransmissions = e.num_syn_retransmissions + 1 }))

-- `sendSynAckRetrans`, run by the timer.
pub send_syn_ack_retrans : Entry → ℕ → Entry
send_syn_ack_retrans e other_side_seq =
    if not (is_syn_received e.state) || e.received_syn_ack
    then e
    else if leb max_retransmissions e.num_syn_ack_retransmissions
    then record e { state = closed; removed = true }
    else start_handshake_timer (
        send_syn_ack (record e { num_syn_ack_retransmissions = e.num_syn_ack_retransmissions + 1 })
          other_side_seq)
