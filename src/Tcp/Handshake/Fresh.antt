-- ===== src/Tcp/Handshake/Fresh.antt =====
-- What a connection starts with: `initBufs` establishes the invariants of both directions.
-- A connection on which nothing was sent, written or received yet. The streams of the two
-- directions are any.
use mini_tls.Prelude.{ℕ, ◌<◌, ◌≡◌, refl, sym, ap, ◌∙◌, false, [], arith, u32_mod}
use mini_tls.Tcp.CircleBuf.{max_win_size}
use mini_tls.Tcp.CircleBuf.Inv.{new_circle_buf-IsValid}
use mini_tls.Tcp.CircleBuf.Queue.{contents_none}
use mini_tls.Tcp.Handshake.{init_bufs}
use mini_tls.Tcp.Receive.Ring.{Received}
use mini_tls.Tcp.Send.Rto.{QueueInv}
use mini_tls.Tcp.Send.Window.{Sending}
use mini_tls.Tcp.Stream.{bytes_of}
use mini_tls.Tcp.Types.{Conn, Entry}

pub record Fresh (out in_stream : ℕ → ℕ) (c : Conn) : Type 0 where
  pub sending : Sending out c.send_buf
  pub in_step : c.entry.seq_num ≡ c.send_buf.nxt
  pub received : Received in_stream c.recv_buf
  pub no_fin : c.recv_buf.fin ≡ 0
  pub queue : QueueInv c.retrans_queue
  pub idle : c.retrans_queue.array ≡ []
  pub up : c.torn_down ≡ false

-- For sequence numbers that are words, and ours not zero, `initBufs` makes such a connection.
pub init_bufs-Fresh :
    (out in_stream : ℕ → ℕ) (e : Entry) (seq window : ℕ)
    → 0 < e.seq_num
    → e.seq_num < u32_mod
    → seq < u32_mod
    → Fresh out in_stream (init_bufs e seq window)
unfolding init_bufs
init_bufs-Fresh out in_stream e seq window p w h =
    let out_buf = new_circle_buf-IsValid max_win_size e.seq_num w in
    let in_buf = new_circle_buf-IsValid max_win_size seq h in
    record {
      sending = record {
        valid = out_buf.0;
        una_pos = p;
        base = out_buf.3;
        word = omega (arith, out_buf.1);
        written = omega (arith, out_buf.1);
        sent_from = omega arith;
        sent_to = omega arith;
        held = contents_none _ out_buf.1 ∙ ap (bytes_of out e.seq_num) (sym out_buf.1);
      };
      in_step = refl;
      received = record {
        valid = in_buf.0;
        lbr_word = omega arith;
        base = omega (arith, in_buf.3);
        held = contents_none _ in_buf.1 ∙ ap (bytes_of in_stream _) (sym in_buf.1);
        early = tt;
        next = omega (arith, in_buf.3, in_buf.1);
      };
      no_fin = refl;
      queue = record { bounded = omega arith; armed = tt };
      idle = refl;
      up = refl;
    }
