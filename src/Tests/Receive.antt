-- ===== src/Tests/Receive.antt =====
-- The receiving side on the small connection.
use mini_tls.Prelude.{
  ℕ, ◌≤◌, ◌≡◌, refl, true, false, some, List, [], ◌∷◌, arith, take, drop, All, add32,
}
use mini_tls.Tcp.CircleBuf.{CircleBuf, advance_base, slice_from, write_into_buf}
use mini_tls.Tcp.CircleBuf.Queue.{Appended, contents, ring_refines_queue}
use mini_tls.Tcp.EarlyArrivals.{EarlyArrivals, pop_min, push_segment}
use mini_tls.Tcp.EarlyArrivals.Order.{made, pop_min_least, pushed}
use mini_tls.Tcp.Receive.Delivery.{
  Delivered, Event, arrives, deliver_all, deliver_all-Delivered, reads,
}
use mini_tls.Tcp.Receive.Ring.{Received}
use mini_tls.Tcp.Types.{Conn, EarlyArrival, TcpFields, flag_ack}
use mini_tls.Tests.Data.{small, small-Received, small_ring, stream}

abbrev segment : ℕ → ℕ → TcpFields
segment seq n = record {
  src_port = 40000;
  dst_port = 80;
  seq_num = seq;
  ack_num = 101;
  flags = flag_ack;
  window_size = 65535;
}

-- The second segment comes first, then the first one twice, with reads between them.
abbrev events : List Event
events =
    arrives false (segment 103 2) (103 ∷ 104 ∷ [])
    ∷ reads 4
    ∷ arrives false (segment 101 2) (101 ∷ 102 ∷ [])
    ∷ arrives true (segment 101 2) (101 ∷ 102 ∷ [])
    ∷ reads 3
    ∷ reads 8
    ∷ []

deliver_all-Delivered_example :
    (c' : Conn) × (out : List ℕ) × (deliver_all small events ≡ some (c', out))
    × Delivered stream small c' out
deliver_all-Delivered_example =
    deliver_all-Delivered stream events small small-Received refl
      ((omega arith, refl), (tt, ((omega arith, refl), ((omega arith, refl), (tt, (tt, tt))))))

-- With two unread bytes.
abbrev unread : Conn
unread = record small {
  recv_buf = record (small.recv_buf) {
    c_buf = record (small_ring 101) { buf = 101 ∷ 102 ∷ 0 ∷ 0 ∷ 0 ∷ 0 ∷ 0 ∷ 0 ∷ []; curr_size = 2 };
    nxt = 103;
  };
}

unread-Received : Received stream unread.recv_buf
unread-Received = record {
  valid = omega arith;
  lbr_word = omega arith;
  base = refl;
  held = refl;
  early = tt;
  next = refl;
}

ring_refines_queue_example :
    ((cb' : CircleBuf) × (write_into_buf unread.recv_buf.c_buf
          (add32 unread.recv_buf.c_buf.base_seq unread.recv_buf.c_buf.curr_size)
          (7 ∷ [])
        ≡ some (cb', 1))
      × Appended unread.recv_buf.c_buf (7 ∷ []) cb')
    × (contents (advance_base unread.recv_buf.c_buf 1) ≡ drop 1 (contents unread.recv_buf.c_buf))
    × (slice_from unread.recv_buf.c_buf 101 1 ≡ some (take 1 (contents unread.recv_buf.c_buf)))
ring_refines_queue_example =
    ring_refines_queue (7 ∷ []) 1 unread-Received.valid (omega arith) (omega arith)

-- Three arrivals that were put in out of order.
abbrev three_early : EarlyArrivals
three_early = push_segment (push_segment (push_segment [] 107 (7 ∷ [])) 103 (3 ∷ [])) 105 (5 ∷ [])

abbrev earliest : EarlyArrival
earliest = record { start_seq = 103; end_seq = 104; bytes = 3 ∷ [] }

pop_min_least_example : All (λ a. 103 ≤ a.start_seq) three_early
unfolding push_segment pop_min
pop_min_least_example =
    pop_min_least three_early
      (record { start_seq = 105; end_seq = 106; bytes = 5 ∷ [] }
        ∷ record { start_seq = 107; end_seq = 108; bytes = 7 ∷ [] }
        ∷ [])
      earliest (pushed 105 (5 ∷ []) (pushed 103 (3 ∷ []) (pushed 107 (7 ∷ []) made))) refl
