-- ===== src/Tcp/Sockets.antt =====
-- `VListen`, `VAccept`, `VConnect` and the listener's `VClose` of pkg/tcpStack/socketsAPI.go.
use mini_tls.Prelude.{
  ℕ, ◌+◌, Bool, true, false, not, Option, none, some, List, [], ◌∷◌, if◌then◌else◌, ◌>>=◌,
}
use mini_tls.Tcp.Handshake.{send_syn, start_handshake_timer}
use mini_tls.Tcp.Table.{
  Listener, Socket, Stack, delete, insert, listening, new_entry, port_is_unique, put_opening,
}
use mini_tls.Tcp.Types.{Entry, State, error, established, listen, syn_sent}

-- `VListen`
pub vlisten : ℕ → Stack → Stack
vlisten port st = record st {
  socket_map =
      insert st.next_id
        (listening (record new_entry { local_port = port; state = listen; socket_id = st.next_id }))
        st.socket_map;
  listeners =
      insert st.next_id
        (record { port = port; conn_chan = []; accepting_conns = false; chan_closed = false })
        st.listeners;
  next_id = st.next_id + 1;
}

-- `VAccept`: it waits, or takes the oldest connection. From a closed channel with nothing left it gets
-- nil, which is a panic.
pub data AcceptResult : Type 0 where
  waits : Stack → AcceptResult
  accepted : Stack → ℕ → AcceptResult

pub vaccept : ℕ → Listener → Stack → Option AcceptResult
vaccept id l st = take_oldest l.conn_chan
  where
    accepting : Listener
    accepting = record l { accepting_conns = true }

    take_oldest : List ℕ → Option AcceptResult
    take_oldest [] =
        if l.chan_closed
        then none
        else some (waits (record st { listeners = insert id accepting st.listeners }))
    take_oldest (c ∷ cs) = some (
        accepted
          (record st { listeners = insert id (record accepting { conn_chan = cs }) st.listeners })
          c)

-- The listener's `VClose`: false is its error. The entry's state is LISTEN until it goes.
pub vclose_listener : ℕ → Listener → Stack → Stack × Bool
vclose_listener id l st = if not l.accepting_conns then (st, false) else (
  record st {
    listeners = insert id (record l { accepting_conns = false; chan_closed = true }) st.listeners;
    socket_map = delete id st.socket_map;
  },
  true,
)

-- The first port of the random ones that no entry has.
pub fresh_port : List ℕ → List (ℕ × Socket) → Option ℕ
fresh_port [] m = none
fresh_port (p ∷ ps) m = let rest = fresh_port ps m in if port_is_unique p m then some p else rest

-- The entry that `VConnect` makes.
abbrev pub active_entry : ℕ → ℕ → ℕ → ℕ → ℕ → ℕ → Entry
active_entry isn id src_port local_ip port addr = record new_entry {
  local_port = src_port;
  local_ip = local_ip;
  dest_port = port;
  dest_ip = addr;
  state = syn_sent;
  socket_id = id;
  seq_num = isn;
}

-- `VConnect` up to its wait: `local_ip` is the answer of the IP layer, and `none` its error. The
-- ports and the initial sequence number are random.
pub vconnect : List ℕ → ℕ → Option ℕ → ℕ → ℕ → Stack → Option Stack
unfolding fresh_port
vconnect ports isn local_ip addr port st = do
  src_port ← fresh_port ports st.socket_map
  ip ← local_ip
  let e = active_entry isn st.next_id src_port ip port addr
  some (
      put_opening (record st { next_id = st.next_id + 1 }) st.next_id none
        (start_handshake_timer (send_syn e)))

-- What `VConnect` reads from `establishedChan`: its result, or it waits on.
pub data Connected : Type 0 where
  waiting success failure : Connected

abbrev connect_result : Option State → Connected
connect_result (some established) = success
connect_result (some error) = failure
connect_result _ = waiting
