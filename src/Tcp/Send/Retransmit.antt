-- ===== src/Tcp/Send/Retransmit.antt =====
-- What the retransmission timer does to a connection that sends data.
use mini_tls.Prelude.{
  ℕ, ◌+◌, ◌*◌, ◌≤◌, ◌<◌, min, ◌≡◌, refl, sym, ap, ap₂, ◌∙◌, subst, ◌⊎◌, inl, inr, true, false, some,
  List, [], ◌∷◌, ◌++◌, arith, ltb, Bool-cases, All-append,
}
use mini_tls.Tcp.CircleBuf.{slice_from}
use mini_tls.Tcp.Output.{header, send_segment}
use mini_tls.Tcp.Send.{marked, resend, retransmit_segment}
use mini_tls.Tcp.Send.Ack.{Sender}
use mini_tls.Tcp.Send.Flight.{Tiles, Tiles-le}
use mini_tls.Tcp.Send.Window.{IsHonestRequest, slice-Sending}
use mini_tls.Tcp.Stream.{bytes_of, length-bytes_of}
use mini_tls.Tcp.Types.{Conn, RetransEntry, closed, max_retransmissions, rto_max, running, stopped}

module _ (S : ℕ → ℕ) where
  -- The head of the queue is sent again, with the timeout doubled up to its bound.
  pub record Resent (x : RetransEntry) (xs : List RetransEntry) (c c' : Conn) : Type 0 where
    pub sender : Sender S c'
    pub requests :
        c'.entry.requests
        ≡ c.entry.requests
          ++ (record {
            tcp_header = header c c.send_buf.una c.recv_buf.nxt x.flags;
            payload = bytes_of S c.send_buf.una x.len;
            source_ip = c.entry.local_ip;
            dest_ip = c.entry.dest_ip;
          }
              ∷ [])
    pub queue : c'.retrans_queue ≡ record (c.retrans_queue) {
      array = record x { retransmitted = true; num_retransmits = x.num_retransmits + 1 } ∷ xs;
      rto = min (2 * c.retrans_queue.rto) rto_max;
      timer = running (min (2 * c.retrans_queue.rto) rto_max);
    }
    pub send_buf : c'.send_buf ≡ c.send_buf
    pub recv_buf : c'.recv_buf ≡ c.recv_buf

  -- While segments are in flight, the timer does not panic. It sends the oldest again, with the
  -- bytes of the stream from `una` on; after four times it closes the connection.
  pub retransmit_segment-Resent :
      (c : Conn) (x : RetransEntry) (xs : List RetransEntry)
      → Sender S c
      → c.torn_down ≡ false
      → c.retrans_queue.array ≡ x ∷ xs
      → (c' : Conn) × (retransmit_segment c ≡ some c')
        × (((x.num_retransmits < max_retransmissions) × Resent x xs c c')
            ⊎ ((max_retransmissions ≤ x.num_retransmits)
                × (c'.entry.state ≡ closed)
                × (c'.entry.removed ≡ true)
                × (c'.retrans_queue.timer ≡ stopped)))
  unfolding retransmit_segment resend
  retransmit_segment-Resent c x xs v up e =
      let s = c.send_buf in
      let t : Tiles s.una (x ∷ xs) s.nxt = subst (λ l. Tiles s.una l s.nxt) e v.flight.1 in
      let d = min (c.retrans_queue.rto * 2) rto_max in
      elim (Bool-cases (ltb max_retransmissions (x.num_retransmits + 1))) [
        | inl over ↦ (
          record c {
            retrans_queue = record (c.retrans_queue) { array = marked x ∷ xs; timer = stopped };
            torn_down = true;
            entry = record (c.entry) { state = closed; removed = true };
          },
          rw (e, over, up),
          inr (ground arith, refl, refl, refl),
        )
        | inr again_once ↦
            let bytes = bytes_of S s.una x.len in
            let sliced : slice_from s.c_buf x.seq_num x.len ≡ some bytes =
              ap (λ q. slice_from s.c_buf q x.len) t.0
              ∙ slice-Sending S s s.una x.len v.sending (omega arith) (
                  omega (
                    arith,
                    Tiles-le (s.una + x.len) s.nxt xs t.2,
                    v.sending.sent_to,
                    v.sending.written,
                  )) in
            (
              record (send_segment c bytes x.seq_num x.flags) {
                retrans_queue = record (c.retrans_queue) {
                  array = marked x ∷ xs;
                  rto = d;
                  timer = running d;
                };
              },
              rw (e, again_once, sliced),
              inl (
                ground arith,
                record {
                  sender = record {
                    sending = v.sending;
                    in_step = v.in_step;
                    flight =
                        (record { bounded = omega (arith, v.flight.0.bounded.0); armed = tt }, t);
                    honest = All-append (IsHonestRequest S) _ _ v.honest (
                      (
                        omega (arith, t.0, v.sending.word),
                        sym (ap₂ (bytes_of S) t.0 (length-bytes_of S s.una x.len)),
                      ),
                      tt,
                    );
                    state = v.state;
                  };
                  requests =
                      ap
                        (λ q.
                          c.entry.requests
                          ++ (record {
                            tcp_header = header c q c.recv_buf.nxt x.flags;
                            payload = bytes;
                            source_ip = c.entry.local_ip;
                            dest_ip = c.entry.dest_ip;
                          }
                              ∷ []))
                        t.0;
                  queue =
                      ap
                        (λ d. record (c.retrans_queue) {
                          array = marked x ∷ xs;
                          rto = d;
                          timer = running d;
                        })
                        (omega arith);
                  send_buf = refl;
                  recv_buf = refl;
                },
              ),
            )
      ]
