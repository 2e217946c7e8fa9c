-- ===== src/Tests/Data.antt =====
-- A small connection: rings of eight bytes, and the stream whose byte is its sequence number.
use mini_tls.Prelude.{ℕ, ◌%◌, refl, false, [], ◌∷◌, arith}
use mini_tls.Tcp.CircleBuf.{CircleBuf}
use mini_tls.Tcp.CircleBuf.Inv.{IsValid}
use mini_tls.Tcp.Receive.Ring.{Received}
use mini_tls.Tcp.Send.Ack.{Sender}
use mini_tls.Tcp.Sockets.{active_entry}
use mini_tls.Tcp.Types.{Conn, Entry, established, rto_init, unset}

abbrev pub stream : ℕ → ℕ
stream n = n % 256

abbrev pub small_ring : ℕ → CircleBuf
small_ring base = record {
  buf = 0 ∷ 0 ∷ 0 ∷ 0 ∷ 0 ∷ 0 ∷ 0 ∷ 0 ∷ [];
  max_size = 8;
  curr_size = 0;
  base_seq = base;
  head = 0;
}

abbrev pub small_entry : Entry
small_entry = record (active_entry 100 0 40000 10 80 20) { seq_num = 101; state = established }

-- `initBufs` with smaller rings.
abbrev pub small : Conn
small = record {
  entry = small_entry;
  send_buf = record {
    c_buf = small_ring 101;
    nxt = 101;
    lbw = 100;
    una = 101;
    other_side_window = 4;
    data_written = false;
    space_available = false;
    is_probing = false;
    window_updated = false;
    zwp_trigger = false;
  };
  recv_buf = record {
    c_buf = small_ring 101;
    lbr = 100;
    nxt = 101;
    early_arrivals = [];
    data_to_read = false;
    fin = 0;
  };
  retrans_queue = record { array = []; rto = rto_init; srtt = 0; timer = unset };
  time_wait_timer = unset;
  torn_down = false;
}

pub small_ring-IsValid : IsValid (small_ring 101)
small_ring-IsValid = omega arith

pub small-Sender : Sender stream small
small-Sender = record {
  sending = record {
    valid = small_ring-IsValid;
    una_pos = omega arith;
    base = refl;
    word = omega arith;
    written = refl;
    sent_from = omega arith;
    sent_to = omega arith;
    held = refl;
  };
  in_step = refl;
  flight = (record { bounded = omega arith; armed = tt }, refl);
  honest = tt;
  state = refl;
}

pub small-Received : Received stream small.recv_buf
small-Received = record {
  valid = small_ring-IsValid;
  lbr_word = omega arith;
  base = refl;
  held = refl;
  early = tt;
  next = refl;
}
