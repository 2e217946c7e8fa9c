-- ===== src/Tests/Send.antt =====
-- The sending side on the small connection.
use mini_tls.Prelude.{
  ℕ, ◌+◌, ◌*◌, ◌/◌, ◌≤◌, ◌<◌, ◌≡◌, refl, ◌⊎◌, inl, true, false, some, List, [], ◌∷◌, arith,
  replicate,
}
use mini_tls.Tcp.CircleBuf.{
  copy_into, read_at, read_from_buf, slice, slice_from, write_at, write_into_buf,
}
use mini_tls.Tcp.Send.{
  Floats, Next, ack_queue, handle_pure_ack, retransmit_segment, send_round, send_rounds,
  window_wait,
}
use mini_tls.Tcp.Send.Ack.{
  Acked, Sender, after_old_ack, handle_pure_ack-Acked, handle_pure_ack_old, handle_pure_ack_probe,
}
use mini_tls.Tcp.Send.Retransmit.{Resent, retransmit_segment-Resent}
use mini_tls.Tcp.Send.Rounds.{Sent, send_rounds-Sent}
use mini_tls.Tcp.Send.Rto.{Popped, QueueInv, ack_queue-QueueInv}
use mini_tls.Tcp.Transfer.{Steps, and_then, no_step, sends, writes}
use mini_tls.Tcp.Types.{
  Conn, RetransEntry, RetransQueue, TcpFields, closed, flag_ack, max_retransmissions, rto_init,
  running, stopped,
}
use mini_tls.Tcp.Writer.{WriteResult, vwrite}
use mini_tls.Tcp.Writer.Write.{Ends, Written, vwrite-Written}
use mini_tls.Tests.Data.{small, small-Sender, small_entry, small_ring, stream}

-- Five bytes after_write, with the ring's first cells filled.
abbrev pub after_write : Conn
after_write = record small {
  send_buf = record (small.send_buf) {
    c_buf = record (small_ring 101) {
      buf = 101 ∷ 102 ∷ 103 ∷ 104 ∷ 105 ∷ 0 ∷ 0 ∷ 0 ∷ [];
      curr_size = 5;
    };
    lbw = 105;
    data_written = true;
  };
}

written_run :
    vwrite small (101 ∷ 102 ∷ 103 ∷ 104 ∷ 105 ∷ []) ≡ some (WriteResult.wrote 5 after_write)
unfolding vwrite write_into_buf write_at copy_into
written_run = refl

-- `sendLoop` on it: the window lets four of them go, in one segment.
abbrev pub after_send : Conn
after_send = record after_write {
  send_buf = record (after_write.send_buf) { nxt = 105 };
  retrans_queue = record (after_write.retrans_queue) {
    array =
        record {
          seq_num = 101;
          len = 4;
          flags = flag_ack;
          sent = 7;
          retransmitted = false;
          num_retransmits = 0;
        }
        ∷ [];
    timer = running rto_init;
  };
  entry = record small_entry {
    seq_num = 105;
    requests =
        record {
          tcp_header = record {
            src_port = 40000;
            dst_port = 80;
            seq_num = 101;
            ack_num = 101;
            flags = flag_ack;
            window_size = 65535;
          };
          payload = 101 ∷ 102 ∷ 103 ∷ 104 ∷ [];
          source_ip = 10;
          dest_ip = 20;
        }
        ∷ [];
  };
}

sent_run : send_rounds 6 7 after_write ≡ some (after_send, window_wait)
unfolding send_rounds send_round slice_from read_at read_from_buf slice copy_into replicate
sent_run = refl

-- The steps of this run.
pub small-Steps : Steps stream small after_send
unfolding send_rounds send_round slice_from read_at read_from_buf slice copy_into write_at replicate
    vwrite write_into_buf
small-Steps =
    and_then
      (and_then no_step (writes (101 ∷ 102 ∷ 103 ∷ 104 ∷ 105 ∷ []) 5 refl (omega arith) refl))
      (sends 6 7 window_wait (omega arith) refl)

abbrev head_entry : RetransEntry
head_entry = record {
  seq_num = 101;
  len = 4;
  flags = flag_ack;
  sent = 7;
  retransmitted = false;
  num_retransmits = 0;
}

after_write-Sender : Sender stream after_write
after_write-Sender = record {
  sending = record {
    valid = omega arith;
    una_pos = omega arith;
    base = refl;
    word = omega arith;
    written = refl;
    sent_from = omega arith;
    sent_to = omega arith;
    held = refl;
  };
  in_step = refl;
  flight = (record { bounded = omega arith; armed = tt }, refl);
  honest = tt;
  state = refl;
}

after_send-Sender : Sender stream after_send
after_send-Sender = record {
  sending = record {
    valid = omega arith;
    una_pos = omega arith;
    base = refl;
    word = omega arith;
    written = refl;
    sent_from = omega arith;
    sent_to = omega arith;
    held = refl;
  };
  in_step = refl;
  flight = (record { bounded = omega arith; armed = tt }, (refl, omega arith, refl));
  honest = ((omega arith, refl), tt);
  state = refl;
}

-- Roundings to whole nanoseconds.
abbrev floats : Floats
floats = record {
  smooth = λ srtt rtt. (85 * srtt + 15 * rtt) / 100;
  stretch = λ srtt. 165 * srtt / 100;
}

abbrev ack_of : ℕ → ℕ → TcpFields
ack_of n window = record {
  src_port = 80;
  dst_port = 40000;
  seq_num = 101;
  ack_num = n;
  flags = flag_ack;
  window_size = window;
}

vwrite-Written_example :
    let bytes : List ℕ = 101 ∷ 102 ∷ 103 ∷ 104 ∷ 105 ∷ 106 ∷ 107 ∷ 108 ∷ 109 ∷ [] in
    (c' : Conn) × (done : ℕ) × Ends (vwrite small bytes) 0 bytes c' done
    × Written stream small c' done
vwrite-Written_example =
    vwrite-Written stream small (101 ∷ 102 ∷ 103 ∷ 104 ∷ 105 ∷ 106 ∷ 107 ∷ 108 ∷ 109 ∷ [])
      small-Sender refl (omega arith)

send_rounds-Sent_example :
    (c' : Conn) × (next : Next) × (send_rounds 6 7 after_write ≡ some (c', next))
    × Sent stream after_write c' next
send_rounds-Sent_example =
    send_rounds-Sent stream 6 7 after_write after_write-Sender.sending refl (omega arith)

handle_pure_ack-Acked_example :
    (c' : Conn) × (handle_pure_ack floats 9 after_send (ack_of 105 4) ≡ some c')
    × Acked stream 105 4 after_send c'
handle_pure_ack-Acked_example =
    handle_pure_ack-Acked stream floats 9 after_send (ack_of 105 4) after_send-Sender (inl refl)

handle_pure_ack_old_example :
    (handle_pure_ack floats 9 after_send (ack_of 101 0)
      ≡ some (after_old_ack stream after_send (ack_of 101 0)))
    × Sender stream (after_old_ack stream after_send (ack_of 101 0))
handle_pure_ack_old_example =
    handle_pure_ack_old stream floats 9 after_send (ack_of 101 0) after_send-Sender
      (inl (omega arith))

retransmit_segment-Resent_example :
    (c' : Conn) × (retransmit_segment after_send ≡ some c')
    × (((0 < max_retransmissions) × Resent stream head_entry [] after_send c')
        ⊎ ((max_retransmissions ≤ 0)
            × (c'.entry.state ≡ closed)
            × (c'.entry.removed ≡ true)
            × (c'.retrans_queue.timer ≡ stopped)))
retransmit_segment-Resent_example =
    retransmit_segment-Resent stream after_send head_entry [] after_send-Sender refl refl

-- With the window closed and a probe on its way.
abbrev probing : Conn
probing = record after_write {
  send_buf = record (after_write.send_buf) { other_side_window = 0; is_probing = true };
}

probing-Sender : Sender stream probing
probing-Sender = record {
  sending = record {
    valid = omega arith;
    una_pos = omega arith;
    base = refl;
    word = omega arith;
    written = refl;
    sent_from = omega arith;
    sent_to = omega arith;
    held = refl;
  };
  in_step = refl;
  flight = (record { bounded = omega arith; armed = tt }, refl);
  honest = tt;
  state = refl;
}

handle_pure_ack_probe_example :
    (c' : Conn) × (handle_pure_ack floats 9 probing (ack_of 102 3) ≡ some c')
    × Sender stream c'
    × (c'.send_buf.una ≡ 102)
    × (c'.send_buf.nxt ≡ 102)
    × (c'.send_buf.lbw ≡ 105)
    × (c'.send_buf.other_side_window ≡ 3)
    × (c'.entry.requests ≡ probing.entry.requests)
handle_pure_ack_probe_example =
    handle_pure_ack_probe stream floats 9 probing (ack_of 102 3) probing-Sender refl refl
      (omega arith) refl

ack_queue-QueueInv_example :
    (q' : RetransQueue) × (ack_queue floats 9 105 after_send.retrans_queue ≡ some q')
    × QueueInv q'
    × Popped 105 after_send.retrans_queue.array q'.array
ack_queue-QueueInv_example =
    ack_queue-QueueInv floats 9 105 after_send.retrans_queue after_send-Sender.flight.0 (λ e. cc)
