-- ===== src/Tcp/Types.antt =====
-- pkg/tcpStack/types.go: the states of a socket, and the records that hold a connection.
-- Mutexes are left out: every handler is one step. A channel of capacity one is the flag that it
-- holds a token. The callbacks `sendPacketFunc` and `removeSelf` are what they have been called
-- with: the requests in order, and whether the entry was removed from the table.
use mini_tls.Prelude.{ℕ, ◌%◌, ◌*◌, ◌^◌, Bool, Option, List, sub32, ◌==◌, not, bit_and}
use mini_tls.Tcp.CircleBuf.{CircleBuf, max_win_size}

pub data State : Type 0 where
  closed listen syn_sent syn_received established : State
  fin_wait_1 close_wait last_ack fin_wait_2 time_wait error : State

-- Durations and times are nanoseconds.
abbrev pub second : ℕ
second = 1000000000

abbrev pub max_seg_size : ℕ
max_seg_size = 1360

abbrev pub max_retransmissions : ℕ
max_retransmissions = 4

abbrev pub rto_min : ℕ
rto_min = 250000000

abbrev pub rto_max : ℕ
rto_max = 5 * second

abbrev pub rto_init : ℕ
rto_init = second

abbrev pub flag_fin : ℕ
flag_fin = 1

abbrev pub flag_syn : ℕ
flag_syn = 2

abbrev pub flag_rst : ℕ
flag_rst = 4

abbrev pub flag_ack : ℕ
flag_ack = 16

abbrev pub flag_syn_ack : ℕ
flag_syn_ack = 18

abbrev pub flag_fin_ack : ℕ
flag_fin_ack = 17

-- `flags & flag != 0`
abbrev pub has_flag : ℕ → ℕ → Bool
has_flag flags flag = not (bit_and flags flag == 0)

-- The fields of a TCP header that the stack reads and writes.
pub record TcpFields : Type 0 where
  pub src_port : ℕ
  pub dst_port : ℕ
  pub seq_num : ℕ
  pub ack_num : ℕ
  pub flags : ℕ
  pub window_size : ℕ

-- `SendRequest`
pub record SendRequest : Type 0 where
  pub tcp_header : TcpFields
  pub payload : List ℕ
  pub source_ip : ℕ
  pub dest_ip : ℕ

-- A `*time.Timer`: nil, stopped or fired, or running for a duration.
pub data Timer : Type 0 where
  unset stopped : Timer
  running : ℕ → Timer

-- `EarlyArrival`
pub record EarlyArrival : Type 0 where
  pub start_seq : ℕ
  pub end_seq : ℕ
  pub bytes : List ℕ

-- `SendBuf`
pub record SendBuf : Type 0 where
  pub c_buf : CircleBuf
  pub nxt : ℕ
  pub lbw : ℕ
  pub una : ℕ
  pub other_side_window : ℕ
  pub data_written : Bool
  pub space_available : Bool
  pub is_probing : Bool
  pub window_updated : Bool
  pub zwp_trigger : Bool

-- `RecvBuf`
pub record RecvBuf : Type 0 where
  pub c_buf : CircleBuf
  pub lbr : ℕ
  pub nxt : ℕ
  pub early_arrivals : List EarlyArrival
  pub data_to_read : Bool
  pub fin : ℕ

-- `RetransmissionEntry`
pub record RetransEntry : Type 0 where
  pub seq_num : ℕ
  pub len : ℕ
  pub flags : ℕ
  pub sent : ℕ
  pub retransmitted : Bool
  pub num_retransmits : ℕ

-- `RetransmissionQueue`
pub record RetransQueue : Type 0 where
  pub array : List RetransEntry
  pub rto : ℕ
  pub srtt : ℕ
  pub timer : Timer

-- `SocketTableEntry`, without the pointers to its socket. `established` is what the buffered
-- channel `establishedChan` holds.
pub record Entry : Type 0 where
  pub drop_for_retrans : Bool
  pub received_syn : Bool
  pub received_syn_ack : Bool
  pub num_syn_retransmissions : ℕ
  pub num_syn_ack_retransmissions : ℕ
  pub handshake_timer : Timer
  pub local_port : ℕ
  pub local_ip : ℕ
  pub dest_port : ℕ
  pub dest_ip : ℕ
  pub state : State
  pub socket_id : ℕ
  pub seq_num : ℕ
  pub last_known_ack : ℕ
  pub established : Option State
  pub requests : List SendRequest
  pub removed : Bool

-- `VTCPConn` after `initBufs`, with its table entry. `time_wait` is the timer of `timeWait`, and
-- `torn_down` says that `teardown` has closed the channels.
pub record Conn : Type 0 where
  pub entry : Entry
  pub send_buf : SendBuf
  pub recv_buf : RecvBuf
  pub retrans_queue : RetransQueue
  pub time_wait_timer : Timer
  pub torn_down : Bool

-- `getBytesInFlight`
abbrev pub bytes_in_flight : SendBuf → ℕ
bytes_in_flight s = sub32 s.nxt s.una

-- `getAvailableWindow`, a `uint16`
abbrev pub available_window : RecvBuf → ℕ
available_window r = sub32 max_win_size r.c_buf.curr_size % 2 ^ 16
