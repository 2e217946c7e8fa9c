-- ===== src/Tls/OverTcp.antt =====
-- The connection below the TLS layer: `VRead` and `VWrite` of pkg/tcpStack as a Transport, on a network
-- that brings segments.
pub mod Reads
pub mod Writes
pub mod Law
pub mod Exchange
use mini_tls.Prelude.{
  ℕ, ◌≤◌, ◌<◌, ◌≡◌, false, Option, none, some, List, [], ◌∷◌, ◌++◌, ◌>>=◌, length, take, replicate,
  add32,
}
use mini_tls.Tcp.CircleBuf.Inv.{IsValid}
use mini_tls.Tcp.CircleBuf.Queue.{contents}
use mini_tls.Tcp.Receive.{
  ReadResult, blocked, got, handle_payload, is_close_wait, is_closing, vread, vread_on,
}
use mini_tls.Tcp.Types.{Conn, TcpFields}
use mini_tls.Tcp.Writer.{WriteResult, vwrite, wrote}
use mini_tls.Tls.Transport.{Transport}

-- An end of a TCP connection, and the segments that are still to come to it.
pub record TcpEnd : Type 0 where
  pub conn : Conn
  pub incoming : List (TcpFields × List ℕ)

-- What a call of `VRead` comes to: its bytes, an error, or a wait, after which it goes on.
abbrev pub read_result :
    (Conn → Option (TcpEnd × List ℕ))
    → List (TcpFields × List ℕ)
    → ReadResult
    → Option (TcpEnd × List ℕ)
read_result resume incoming (got k dest c) =
    some (record { conn = c; incoming = incoming }, take k dest)
read_result resume incoming (blocked c) = resume c
read_result resume incoming _ = none

-- `VRead` with a buffer of `n` bytes, from its first wait on. While it waits for `dataToRead`,
-- `handlePayload` takes the next segment.
unfoldable pub tcp_read_on : List (TcpFields × List ℕ) → Conn → ℕ → Option (TcpEnd × List ℕ)
tcp_read_on [] c n = none
tcp_read_on ((hdr, payload) ∷ rest) c n = handle_payload false c hdr payload >>= λ c'.
    vread_on c' (replicate n 0) >>= read_result (λ waiting. tcp_read_on rest waiting n) rest

-- `VRead` with a buffer of `n` bytes.
abbrev pub tcp_read : List (TcpFields × List ℕ) → Conn → ℕ → Option (TcpEnd × List ℕ)
tcp_read incoming c n =
    vread c (replicate n 0) >>= read_result (λ waiting. tcp_read_on incoming waiting n) incoming

-- What a call of `VWrite` comes to; a wait for space is not gone through.
abbrev pub write_result : List (TcpFields × List ℕ) → WriteResult → Option (TcpEnd × ℕ)
write_result incoming (wrote n c) = some (record { conn = c; incoming = incoming }, n)
write_result incoming _ = none

unfoldable pub tcp_write : TcpEnd → List ℕ → Option (TcpEnd × ℕ)
tcp_write e bytes = vwrite e.conn bytes >>= write_result e.incoming

abbrev pub tcp_transport : Transport TcpEnd
tcp_transport = record { vread = λ e n. tcp_read e.incoming e.conn n; vwrite = tcp_write }

-- The send buffer holds all that was written, none of which is acknowledged yet.
pub record Holds (limit : ℕ) (c : Conn) (out : List ℕ) : Type 0 where
  pub valid : IsValid c.send_buf.c_buf
  pub size : c.send_buf.c_buf.max_size ≡ limit
  pub behind : add32 c.send_buf.lbw 1 ≡ add32 c.send_buf.c_buf.base_seq c.send_buf.c_buf.curr_size
  pub held : contents c.send_buf.c_buf ≡ out

-- The carried of segments, one after the other.
abbrev pub carried : List (TcpFields × List ℕ) → List ℕ
carried [] = []
carried ((hdr, payload) ∷ rest) = payload ++ carried rest

-- Each segment carries bytes, and starts where the one before it ends.
abbrev pub Follow : ℕ → List (TcpFields × List ℕ) → Type 0
Follow nxt [] = Unit
Follow nxt ((hdr, payload) ∷ rest) =
    (hdr.seq_num ≡ nxt) × (0 < length payload) × Follow (add32 nxt (length payload)) rest

-- The receive buffer holds the unread bytes, the segments that come bring those behind them, and there
-- is space for all.
pub record Awaits (c : Conn) (incoming : List (TcpFields × List ℕ)) (rest : List ℕ) : Type 0 where
  pub valid : IsValid c.recv_buf.c_buf
  pub base : c.recv_buf.c_buf.base_seq ≡ add32 c.recv_buf.lbr 1
  pub next : c.recv_buf.nxt ≡ add32 c.recv_buf.c_buf.base_seq c.recv_buf.c_buf.curr_size
  pub no_fin : c.recv_buf.fin ≡ 0
  pub none_early : c.recv_buf.early_arrivals ≡ []
  pub none_dropped : c.entry.drop_for_retrans ≡ false
  pub follow : Follow c.recv_buf.nxt incoming
  pub fits : length rest ≤ c.recv_buf.c_buf.max_size
  pub all : rest ≡ contents c.recv_buf.c_buf ++ carried incoming

-- An end of an open connection.
pub record Linked (limit : ℕ) (e : TcpEnd) (out rest : List ℕ) : Type 0 where
  pub open_state : is_closing e.conn.entry.state ≡ false
  pub not_close_wait : is_close_wait e.conn.entry.state ≡ false
  pub holds : Holds limit e.conn out
  pub awaits : Awaits e.conn e.incoming rest
