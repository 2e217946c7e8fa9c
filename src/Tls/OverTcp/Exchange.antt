-- ===== src/Tls/OverTcp/Exchange.antt =====
-- The key exchange over TCP, from the state in which the TCP handshake leaves the two connections.
use mini_tls.Prelude.{
  ℕ, ◌≤◌, ◌<◌, ◌≡◌, sym, ap, ◌∙◌, subst, false, some, List, [], ◌++◌, append-nil, arith, length,
  length-append, u32_mod,
}
use mini_tls.Tcp.CircleBuf.{max_win_size}
use mini_tls.Tcp.CircleBuf.Queue.{contents}
use mini_tls.Tcp.Handshake.{init_bufs}
use mini_tls.Tcp.Receive.{is_closing}
use mini_tls.Tcp.Types.{Entry, TcpFields, established}
use mini_tls.Tls.Crypto.{Crypto, IsSound, server_signed, user_signed}
use mini_tls.Tls.KeyExchange.{TlsConn, server_key_exchange, user_key_exchange}
use mini_tls.Tls.KeyExchange.Agree.{
  Done, body_size, first_message, key_exchange-Done, second_message, third_message,
}
use mini_tls.Tls.OverTcp.{Follow, Linked, TcpEnd, carried, tcp_transport}
use mini_tls.Tls.OverTcp.Law.{init_bufs-Linked, tcp_delivers}

-- An end of the TLS layer before the exchange.
abbrev pub unkeyed : TcpEnd → TlsConn TcpEnd
unkeyed e = record {
  tcp_conn = e;
  read_key = [];
  write_key = [];
  read_seq = 0;
  write_seq = 0;
  read_buf = [];
}

-- An established connection that has had nothing but `initBufs`, and the segments that come to it.
pub record Starts (e : Entry) (seq : ℕ) (incoming : List (TcpFields × List ℕ)) : Type 0 where
  pub is_open : e.state ≡ established
  pub none_dropped : e.drop_for_retrans ≡ false
  pub own_word : e.seq_num < u32_mod
  pub word : seq < u32_mod
  pub follow : Follow seq incoming

starts-Linked :
    (e : Entry) (seq window : ℕ) (incoming : List (TcpFields × List ℕ)) (bytes : List ℕ)
    → Starts e seq incoming
    → carried incoming ≡ bytes
    → length bytes ≤ max_win_size
    → Linked max_win_size (record { conn = init_bufs e seq window; incoming = incoming }) [] bytes
starts-Linked e seq window incoming bytes s is fit =
    subst (Linked max_win_size (record { conn = init_bufs e seq window; incoming = incoming }) [])
      is
      (init_bufs-Linked e seq window incoming s.is_open s.none_dropped s.own_word s.word s.follow
        (omega (arith, ap length is, fit)))

-- How a side ends: with these keys, its counters at zero, and these bytes in its TCP send buffer, to be
-- sent.
pub record Secured (conn : TlsConn TcpEnd) (write_key read_key sent : List ℕ) : Type 0 where
  pub writes_with : conn.write_key ≡ write_key
  pub reads_with : conn.read_key ≡ read_key
  pub counters : (conn.write_seq ≡ 0) × (conn.read_seq ≡ 0)
  pub buffered : contents conn.tcp_conn.conn.send_buf.c_buf ≡ sent
  pub still_open : is_closing conn.tcp_conn.conn.entry.state ≡ false

-- Two established TCP connections as `initBufs` makes them, with nothing written to either, and sound
-- cryptography. The messages of the other side come to each in order, in segments that carry bytes and
-- may cut the messages anywhere. Then both sides of the key exchange return without an error, with each
-- wait of `VRead` ended by a segment that `handlePayload` takes. Each side writes with the 32-byte key
-- that the other reads with, has its counters at zero, and has exactly its own messages in the send
-- buffer of its connection, which is still open.
pub key_exchange-Secured :
    (x : Crypto) (v : IsSound x) (a b : x.Private) (uk sk : x.SignKey) (e e' : Entry)
    (seq seq' window window' : ℕ) (incoming incoming' : List (TcpFields × List ℕ))
    → Starts e seq incoming
    → Starts e' seq' incoming'
    → carried incoming ≡ second_message x a b sk
    → carried incoming' ≡ first_message x a ++ third_message x a b uk
    → let user = unkeyed (record { conn = init_bufs e seq window; incoming = incoming }) in
      let server = unkeyed (record { conn = init_bufs e' seq' window'; incoming = incoming' }) in
      (u s : TlsConn TcpEnd) × (k k' : List ℕ) × (user_key_exchange tcp_transport x a uk
          (x.verify_key sk)
          user
        ≡ some u)
      × (server_key_exchange tcp_transport x b sk (x.verify_key uk) server ≡ some s)
      × (length k ≡ 32)
      × (length k' ≡ 32)
      × Secured u k k' (first_message x a ++ third_message x a b uk)
      × Secured s k' k (second_message x a b sk)
key_exchange-Secured x v a b uk sk e e' seq seq' window window' incoming incoming' h h' is is' =
    let second = second_message x a b sk in
    let first = first_message x a in
    let third = third_message x a b uk in
    let long = body_size x v b a sk (server_signed (x.public_key b) (x.public_key a)) in
    let long' = body_size x v a b uk (user_signed (x.public_key a) (x.public_key b)) in
    let user =
      starts-Linked e seq window incoming (second ++ []) h (is ∙ sym (append-nil second))
        (omega (arith, long, length-append second [])) in
    let server =
      starts-Linked e' seq' window' incoming' (first ++ (third ++ [])) h'
        (is' ∙ ap (◌++◌ first) (sym (append-nil third)))
        (omega (
          arith,
          long',
          v.public_key_size a,
          length-append first (third ++ []),
          length-append third [],
        )) in
    let d = tcp_delivers max_win_size in
    let r =
      key_exchange-Done tcp_transport tcp_transport d d x v a b uk sk
        (unkeyed (record { conn = init_bufs e seq window; incoming = incoming }))
        (unkeyed (record { conn = init_bufs e' seq' window'; incoming = incoming' })) [] [] [] []
        user server (omega arith) (omega arith) in
    (
      r.0,
      r.1,
      r.2,
      r.3,
      r.4,
      r.5,
      r.6,
      r.7,
      secured r.0 r.2 r.3 (first ++ third) r.8,
      secured r.1 r.3 r.2 second r.9,
    )
  where
    secured :
        (conn : TlsConn TcpEnd) (k k' sent : List ℕ)
        → Done x (tcp_delivers max_win_size) conn k k' sent []
        → Secured conn k k' sent
    secured conn k k' sent d = record {
      writes_with = d.writes_with;
      reads_with = d.reads_with;
      counters = (d.write_seq, d.read_seq);
      buffered = d.link.holds.held;
      still_open = d.link.open_state;
    }
