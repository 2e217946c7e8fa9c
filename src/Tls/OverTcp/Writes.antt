-- ===== src/Tls/OverTcp/Writes.antt =====
-- `VWrite` of bytes that fit into the send buffer returns without a wait.
use mini_tls.Prelude.{
  ℕ, ◌+◌, ◌≤◌, ◌<◌, ◌≡◌, refl, sym, ap, ap₂, ◌∙◌, true, some, List, ◌++◌, arith, length, take,
  take-length, add32,
}
use mini_tls.Tcp.CircleBuf.{CircleBuf, free_space, seq_num_to_index}
use mini_tls.Tcp.CircleBuf.Inv.{free_space_lem}
use mini_tls.Tcp.CircleBuf.Queue.{contents}
use mini_tls.Tcp.CircleBuf.Span.{length-span}
use mini_tls.Tcp.Writer.Room.{vwrite-Appended}
use mini_tls.Tls.OverTcp.{Linked, TcpEnd, tcp_write}

pub length-contents : (cb : CircleBuf) → length (contents cb) ≡ cb.curr_size
length-contents cb = length-span cb.buf cb.max_size (seq_num_to_index cb cb.base_seq) cb.curr_size

pub tcp_write-Linked :
    (limit : ℕ) (e : TcpEnd) (out rest bytes : List ℕ)
    → Linked limit e out rest
    → 0 < length bytes
    → length out + length bytes ≤ limit
    → (e' : TcpEnd) × (k : ℕ) × (tcp_write e bytes ≡ some (e', k))
      × (0 < k)
      × (k ≤ length bytes)
      × Linked limit e' (out ++ take k bytes) rest
unfolding tcp_write
tcp_write-Linked limit e out rest bytes l pos room =
    let c = e.conn in
    let v = l.holds in
    let cb = c.send_buf.c_buf in
    let used : cb.curr_size ≡ length out = sym (length-contents cb) ∙ ap length v.held in
    let fit : length bytes ≤ free_space cb =
      omega (arith, free_space_lem v.valid, used, v.size, room) in
    let w = vwrite-Appended c bytes l.open_state v.valid v.behind pos fit in
    let a = w.2 in
    let all : take (length bytes) bytes ≡ bytes = take-length (length bytes) bytes (omega arith) in
    (
      record {
        conn = record c {
          send_buf = record (c.send_buf) {
            c_buf = w.0;
            lbw = add32 c.send_buf.lbw (length bytes);
            data_written = true;
          };
        };
        incoming = e.incoming;
      },
      length bytes,
      rw (w.1) refl,
      pos,
      omega arith,
      record {
        open_state = l.open_state;
        not_close_wait = l.not_close_wait;
        holds = record {
          valid = a.valid;
          size = a.capacity ∙ v.size;
          behind = omega (arith, v.behind, a.size, a.base);
          held = a.queue ∙ ap₂ ◌++◌ v.held (sym all);
        };
        awaits = record {
          valid = l.awaits.valid;
          base = l.awaits.base;
          next = l.awaits.next;
          no_fin = l.awaits.no_fin;
          none_early = l.awaits.none_early;
          none_dropped = l.awaits.none_dropped;
          follow = l.awaits.follow;
          fits = l.awaits.fits;
          all = l.awaits.all;
        };
      },
    )
