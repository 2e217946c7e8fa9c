-- ===== src/Tls/OverTcp/Law.antt =====
-- The TCP connections keep the law that the TLS layer relies on.
use mini_tls.Prelude.{
  ℕ, ◌≤◌, ◌<◌, ◌≡◌, refl, sym, ap, false, List, [], ◌++◌, arith, length, u32_mod,
}
use mini_tls.Tcp.CircleBuf.{max_win_size}
use mini_tls.Tcp.CircleBuf.Inv.{new_circle_buf-IsValid}
use mini_tls.Tcp.CircleBuf.Queue.{contents_none}
use mini_tls.Tcp.Handshake.{init_bufs}
use mini_tls.Tcp.Receive.{is_close_wait, is_closing}
use mini_tls.Tcp.Types.{Entry, TcpFields, established}
use mini_tls.Tls.OverTcp.{Follow, Linked, TcpEnd, carried, tcp_transport}
use mini_tls.Tls.OverTcp.Reads.{tcp_read-Progress}
use mini_tls.Tls.OverTcp.Writes.{tcp_write-Linked}
use mini_tls.Tls.Transport.{Delivers}

-- A connection whose send buffer holds all that was written, up to its size, and to which segments come
-- in order, gives by `VRead` and `VWrite` what the TLS layer relies on.
abbrev pub tcp_delivers : ℕ → Delivers tcp_transport
tcp_delivers limit = record {
  limit = limit;
  Link = Linked limit;
  reads = λ e out rest n l pos more.
      let r =
        tcp_read-Progress limit e.incoming e.conn out rest n (relink limit e out rest l) pos more in
      (r.after, r.size, r.result, r.some_bytes, r.within, r.bounded, r.linked);
  writes = tcp_write-Linked limit;
}
  where
    relink :
        (limit : ℕ) (e : TcpEnd) (out rest : List ℕ)
        → Linked limit e out rest
        → Linked limit (record { conn = e.conn; incoming = e.incoming }) out rest
    relink limit e out rest l = l

-- An established connection starts so, with its whole send buffer for what is written, where the
-- segments to come follow the number it expects and fit into its receive buffer.
pub init_bufs-Linked :
    (e : Entry) (seq window : ℕ) (incoming : List (TcpFields × List ℕ))
    → e.state ≡ established
    → e.drop_for_retrans ≡ false
    → e.seq_num < u32_mod
    → seq < u32_mod
    → Follow seq incoming
    → length (carried incoming) ≤ max_win_size
    → Linked max_win_size
        (record { conn = init_bufs e seq window; incoming = incoming })
        []
        (carried incoming)
unfolding init_bufs
init_bufs-Linked e seq window incoming s d w h f fit =
    let out_buf = new_circle_buf-IsValid max_win_size e.seq_num w in
    let in_buf = new_circle_buf-IsValid max_win_size seq h in
    record {
      open_state = ap is_closing s;
      not_close_wait = ap is_close_wait s;
      holds = record {
        valid = out_buf.0;
        size = out_buf.2;
        behind = omega (arith, out_buf.1, out_buf.3);
        held = contents_none _ out_buf.1;
      };
      awaits = record {
        valid = in_buf.0;
        base = omega (arith, in_buf.3);
        next = omega (arith, in_buf.3, in_buf.1);
        no_fin = refl;
        none_early = refl;
        none_dropped = d;
        follow = f;
        fits = omega (arith, fit, in_buf.2);
        all = sym (ap (λ q. q ++ carried incoming) (contents_none _ in_buf.1));
      };
    }
