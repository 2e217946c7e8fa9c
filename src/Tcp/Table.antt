-- ===== src/Tcp/Table.antt =====
-- The socket table of a host: `SocketTable`, `TCPStack` and `VTCPListener` of
-- pkg/tcpStack/types.go, `tableMatch` of doTcp.go and `portIsUnique` of socketsAPI.go. The table is
-- a list in the order in which Go's map is gone through, which is any.
pub mod Matching
use mini_tls.Prelude.{
  ℕ, Bool, true, false, not, ◌&&◌, Option, none, some, List, [], ◌∷◌, ◌++◌, ◌==◌, if◌then◌else◌,
}
use mini_tls.Tcp.Types.{State, closed, listen, unset, SendRequest, Entry, Conn}

-- What a table entry holds: `listenSocket` alone, a socket without buffers (with the listener that
-- it came from, if it is the passive side), or a connection with its buffers.
pub data Socket : Type 0 where
  listening : Entry → Socket
  opening : Option ℕ → Entry → Socket
  connected : Option ℕ → Conn → Socket

-- `VTCPListener`; `conn_chan` holds the ids of the connections that wait for `VAccept`.
pub record Listener : Type 0 where
  pub port : ℕ
  pub conn_chan : List ℕ
  pub accepting_conns : Bool
  pub chan_closed : Bool

-- `TCPStack` with its `SocketTable`. Listeners outlive their table entry, so they have a map of
-- their own, by the id of the entry.
pub record Stack : Type 0 where
  pub socket_map : List (ℕ × Socket)
  pub listeners : List (ℕ × Listener)
  pub next_id : ℕ
  pub send_requests : List SendRequest

module _ {ℓ} {V : Type ℓ} where
  unfoldable pub lookup : ℕ → List (ℕ × V) → Option V
  lookup k [] = none
  lookup k ((j, v) ∷ m) = if j == k then some v else lookup k m

  unfoldable pub insert : ℕ → V → List (ℕ × V) → List (ℕ × V)
  insert k v [] = (k, v) ∷ []
  insert k v ((j, w) ∷ m) = if j == k then (k, v) ∷ m else (j, w) ∷ insert k v m

  -- `delete(table.socketMap, socketID)`, which is `Remove`.
  unfoldable pub delete : ℕ → List (ℕ × V) → List (ℕ × V)
  delete k [] = []
  delete k ((j, w) ∷ m) = let rest = delete k m in if j == k then rest else (j, w) ∷ rest

abbrev pub entry_of : Socket → Entry
entry_of (listening e) = e
entry_of (opening l e) = e
entry_of (connected l c) = c.entry

abbrev pub is_listen : State → Bool
is_listen listen = true
is_listen _ = false

-- `tableMatch`: the first exact match, or else the last listener of the port.
unfoldable pub table_match :
    ℕ → ℕ → ℕ → ℕ → List (ℕ × Socket) → Option (ℕ × Socket) → Option (ℕ × Socket)
table_match src_port src_ip dest_port dest_ip [] found = found
table_match src_port src_ip dest_port dest_ip ((id, s) ∷ m) found =
    let e = entry_of s in
    let exact =
      not (is_listen e.state)
      && (e.local_port == dest_port)
      && (e.dest_port == src_port)
      && (e.local_ip == dest_ip)
      && (e.dest_ip == src_ip) in
    let rest =
      table_match src_port src_ip dest_port dest_ip m
        (if is_listen e.state && (e.local_port == dest_port) then some (id, s) else found) in
    if exact then some (id, s) else rest

-- `portIsUnique`
pub port_is_unique : ℕ → List (ℕ × Socket) → Bool
port_is_unique port [] = true
port_is_unique port ((id, s) ∷ m) = not ((entry_of s).local_port == port) && port_is_unique port m

-- The requests of an entry go to the stack's channel, and an entry that called `removeSelf` goes.
abbrev put_back : Stack → ℕ → Entry → Socket → Stack
put_back st id e s = record st {
  socket_map = if e.removed then delete id st.socket_map else insert id s st.socket_map;
  send_requests = st.send_requests ++ e.requests;
}

abbrev pub flushed : Entry → Entry
flushed e = record e { requests = [] }

abbrev pub put_conn : Stack → ℕ → Option ℕ → Conn → Stack
put_conn st id l c = put_back st id c.entry (connected l (record c { entry = flushed c.entry }))

abbrev pub put_opening : Stack → ℕ → Option ℕ → Entry → Stack
put_opening st id l e = put_back st id e (opening l (flushed e))

-- A new entry with no state of its own.
abbrev pub new_entry : Entry
new_entry = record {
  drop_for_retrans = false;
  received_syn = false;
  received_syn_ack = false;
  num_syn_retransmissions = 0;
  num_syn_ack_retransmissions = 0;
  handshake_timer = unset;
  local_port = 0;
  local_ip = 0;
  dest_port = 0;
  dest_ip = 0;
  state = closed;
  socket_id = 0;
  seq_num = 0;
  last_known_ack = 0;
  established = none;
  requests = [];
  removed = false;
}
