-- ===== src/Tcp/Send/Window.antt =====
-- The send buffer against the stream that the application writes, and what `sendLoop` may send of
-- it. The sequence numbers in use do not pass 2 ^ 32, as the comparisons of the code suppose.
use mini_tls.Prelude.{
  ℕ, ◌+◌, ◌-◌, ◌≤◌, ◌<◌, ◌≡◌, refl, sym, ap, ◌∙◌, subst, inl, inr, Bool, true, ◌&&◌, some, [], ◌∷◌,
  ◌++◌, arith, ltb, leb, ◌==◌, Bool-cases, take, drop, All, All-append, u32_mod, add32,
}
use mini_tls.Tcp.CircleBuf.{slice_from}
use mini_tls.Tcp.CircleBuf.Inv.{IsValid, region}
use mini_tls.Tcp.CircleBuf.Queue.{contents, region-eq-take-drop}
use mini_tls.Tcp.CircleBuf.Read.{slice_from_lem}
use mini_tls.Tcp.Output.{header, send_segment}
use mini_tls.Tcp.Send.{
  Next, again, data_sent, no_data, probe_wait, send_data, send_probe, send_round, sendable,
  window_wait,
}
use mini_tls.Tcp.Send.Flight.{Tiles, Tiles-append}
use mini_tls.Tcp.Send.Rto.{QueueInv, enqueue_retrans-QueueInv}
use mini_tls.Tcp.Stream.{IsFrom, bytes_of, drop-bytes_of, length-bytes_of, take-bytes_of}
use mini_tls.Tcp.Types.{Conn, SendBuf, SendRequest, bytes_in_flight, flag_ack, max_seg_size}

-- The queue covers what is in flight, and its timer and timeout are in order.
abbrev pub InFlight : Conn → Type 0
InFlight c = QueueInv c.retrans_queue × Tiles c.send_buf.una c.retrans_queue.array c.send_buf.nxt

module _ (S : ℕ → ℕ) where
  -- The buffer holds the bytes from `una` to `lbw`, and `nxt` lies between.
  pub record Sending (s : SendBuf) : Type 0 where
    pub valid : IsValid s.c_buf
    pub una_pos : 0 < s.una
    pub base : s.c_buf.base_seq ≡ s.una
    pub word : s.una + s.c_buf.curr_size < u32_mod
    pub written : s.lbw + 1 ≡ s.una + s.c_buf.curr_size
    pub sent_from : s.una ≤ s.nxt
    pub sent_to : s.nxt ≤ s.lbw + 1
    pub held : contents s.c_buf ≡ bytes_of S s.una s.c_buf.curr_size

  -- Any stretch of the buffer is that stretch of the stream.
  pub slice-Sending :
      (s : SendBuf) (seq n : ℕ)
      → Sending s
      → s.una ≤ seq
      → seq + n ≤ s.una + s.c_buf.curr_size
      → slice_from s.c_buf seq n ≡ some (bytes_of S seq n)
  slice-Sending s seq n v lo hi =
      let k = seq - s.una in
      let at : add32 s.c_buf.base_seq k ≡ seq = omega (arith, v.base) in
      let e : s.c_buf.curr_size - k ≡ s.c_buf.curr_size - k = refl in
      slice_from_lem seq n v.valid (omega arith)
      ∙ ap some (
          ap (λ q. region s.c_buf q n) (sym at)
          ∙ region-eq-take-drop k n v.valid (omega arith)
          ∙ ap (λ l. take n (drop k l)) v.held
          ∙ ap (take n) (drop-bytes_of S s.una k s.c_buf.curr_size (omega arith) (omega arith))
          ∙ ap (λ q. take n (bytes_of S q (s.c_buf.curr_size - k))) {x = add32 s.una k} {y = seq}
              (omega arith)
          ∙ take-bytes_of S seq n (s.c_buf.curr_size - k) (omega arith))

  -- The window and the flags do not matter.
  pub Sending-flags :
      {s : SendBuf} {window : ℕ} {fresh space probing updated trigger : Bool}
      → Sending s
      → Sending (record s {
        other_side_window = window;
        data_written = fresh;
        space_available = space;
        is_probing = probing;
        window_updated = updated;
        zwp_trigger = trigger;
      })
  Sending-flags v = record {
    valid = v.valid;
    una_pos = v.una_pos;
    base = v.base;
    word = v.word;
    written = v.written;
    sent_from = v.sent_from;
    sent_to = v.sent_to;
    held = v.held;
  }

  -- The request that carries `n` bytes of the stream from a sequence number on.
  abbrev pub segment_of : Conn → ℕ → ℕ → SendRequest
  segment_of c seq n = record {
    tcp_header = header c seq c.recv_buf.nxt flag_ack;
    payload = bytes_of S seq n;
    source_ip = c.entry.local_ip;
    dest_ip = c.entry.dest_ip;
  }

  -- The payload of a request is of the stream, at its sequence number.
  abbrev pub IsHonestRequest : SendRequest → Type 0
  IsHonestRequest r = (r.tcp_header.seq_num < u32_mod) × IsFrom S r.tcp_header.seq_num r.payload

  honest-segment :
      (c : Conn) (seq n : ℕ)
      → seq < u32_mod
      → All IsHonestRequest c.entry.requests
      → All IsHonestRequest (c.entry.requests ++ (segment_of c seq n ∷ []))
  honest-segment c seq n w a =
      All-append IsHonestRequest _ _ a
        ((w, ap (bytes_of S seq) (sym (length-bytes_of S seq n))), tt)

  -- What a round of `sendLoop` has done when it ends in `next`.
  pub record Round (c c' : Conn) (next : Next) : Type 0 where
    pub keeps : Sending c'.send_buf
    pub in_step : c'.entry.seq_num ≡ c'.send_buf.nxt
    pub una : c'.send_buf.una ≡ c.send_buf.una
    pub lbw : c'.send_buf.lbw ≡ c.send_buf.lbw
    pub window : c'.send_buf.other_side_window ≡ c.send_buf.other_side_window
    pub state : c'.entry.state ≡ c.entry.state
    pub flight : InFlight c → InFlight c'
    pub honest : All IsHonestRequest c.entry.requests → All IsHonestRequest c'.entry.requests

  -- What each end of a round says.
  abbrev pub Ended : Next → Conn → Conn → Type 0
  Ended again c c' =
      (c'.send_buf.nxt ≡ c.send_buf.nxt + sendable c.send_buf)
      × (0 < sendable c.send_buf)
      × (sendable c.send_buf ≤ max_seg_size)
      × (bytes_in_flight c'.send_buf ≤ c.send_buf.other_side_window)
      × (c'.entry.requests
          ≡ c.entry.requests ++ (segment_of c c.send_buf.nxt (sendable c.send_buf) ∷ []))
  Ended no_data c c' = (c.send_buf.nxt ≡ c.send_buf.lbw + 1) × (c' ≡ c)
  Ended probe_wait c c' =
      (c.send_buf.other_side_window ≡ 0)
      × (c.send_buf.nxt ≡ c.send_buf.una)
      × (c'.send_buf.nxt ≡ c.send_buf.nxt)
      × (c'.entry.requests ≡ c.entry.requests ++ (segment_of c c.send_buf.una 1 ∷ []))
  Ended window_wait c c' = (c.send_buf.other_side_window ≤ bytes_in_flight c.send_buf) × (c' ≡ c)

  unchanged :
      (c : Conn) (next : Next)
      → Sending c.send_buf
      → c.entry.seq_num ≡ c.send_buf.nxt
      → Round c c next
  unchanged c next v e = record {
    keeps = v;
    in_step = e;
    una = refl;
    lbw = refl;
    window = refl;
    state = refl;
    flight = λ q. q;
    honest = λ a. a;
  }

  send_probe-Round :
      (c : Conn)
      → Sending c.send_buf
      → c.entry.seq_num ≡ c.send_buf.nxt
      → c.send_buf.other_side_window ≡ 0
      → c.send_buf.nxt ≤ c.send_buf.lbw
      → bytes_in_flight c.send_buf ≡ 0
      → (c' : Conn) × (send_probe c ≡ some (c', probe_wait))
        × Round c c' probe_wait
        × Ended probe_wait c c'
  unfolding send_probe
  send_probe-Round c v e shut unsent idle =
      let s = c.send_buf in
      let c1 = record c { send_buf = record s { is_probing = true } } in
      (
        send_segment c1 (bytes_of S s.una 1) s.una flag_ack,
        rw (slice-Sending s s.una 1 v (omega arith) (omega (arith, v.written, v.sent_from))),
        record {
          keeps = Sending-flags v;
          in_step = e;
          una = refl;
          lbw = refl;
          window = refl;
          state = refl;
          flight = λ q. q;
          honest = honest-segment c1 s.una 1 (omega (arith, v.word));
        },
        (shut, omega (arith, v.sent_from, v.sent_to, v.word), refl, refl),
      )

  send_data-Round :
      (now : ℕ) (c : Conn)
      → Sending c.send_buf
      → c.entry.seq_num ≡ c.send_buf.nxt
      → c.send_buf.nxt ≤ c.send_buf.lbw
      → bytes_in_flight c.send_buf < c.send_buf.other_side_window
      → (c' : Conn) × (send_data now c (sendable c.send_buf) ≡ some (c', again))
        × Round c c' again
        × Ended again c c'
  unfolding send_data
  send_data-Round now c v e unsent room =
      let s = c.send_buf in
      let n = sendable s in
      let fits : s.nxt + n ≤ s.una + s.c_buf.curr_size = omega (arith, v.written) in
      let bytes = bytes_of S s.nxt n in
      let nxt : add32 s.nxt n ≡ s.nxt + n = omega (arith, v.word) in
      let sent_now : c.entry.requests
            ++ (record (segment_of c s.nxt n) {
              tcp_header = header c c.entry.seq_num c.recv_buf.nxt flag_ack;
            }
                ∷ [])
          ≡ c.entry.requests ++ (segment_of c s.nxt n ∷ []) =
        ap
          (λ q.
            c.entry.requests
            ++ (record (segment_of c s.nxt n) { tcp_header = header c q c.recv_buf.nxt flag_ack }
                ∷ []))
          e in
      (
        data_sent now c n bytes,
        rw (slice-Sending s s.nxt n v v.sent_from fits),
        record {
          keeps = record {
            valid = v.valid;
            una_pos = v.una_pos;
            base = v.base;
            word = v.word;
            written = v.written;
            sent_from = omega (arith, nxt, v.sent_from);
            sent_to = omega (arith, nxt, fits, v.written);
            held = v.held;
          };
          in_step = refl;
          una = refl;
          lbw = refl;
          window = refl;
          state = refl;
          flight = λ q. (
            enqueue_retrans-QueueInv _ q.0,
            subst (Tiles s.una _) (sym nxt)
                (Tiles-append s.una s.nxt c.retrans_queue.array _ q.1 e (omega arith)),
          );
          honest = λ a.
              subst (All IsHonestRequest) (sym sent_now)
                (honest-segment c s.nxt n (omega (arith, v.word, v.sent_to, v.written)) a);
        },
        (nxt, omega arith, omega arith, omega (arith, v.sent_from, v.word), sent_now),
      )

  -- A round never panics. It sends between one byte and a segment's worth, exactly the next bytes of
  -- the stream, and no more than the window leaves; or it has nothing to send, or no window.
  pub send_round-Round :
      (now : ℕ) (c : Conn)
      → Sending c.send_buf
      → c.entry.seq_num ≡ c.send_buf.nxt
      → (c' : Conn) × (next : Next) × (send_round now c ≡ some (c', next))
        × Round c c' next
        × Ended next c c'
  unfolding send_round
  send_round-Round now c v e =
      let s = c.send_buf in
      elim (Bool-cases (ltb s.lbw s.nxt)) [
        | inl all_sent ↦ (c, no_data, rw all_sent, unchanged c no_data v e, (ground arith, refl))
        | inr unsent ↦ elim (Bool-cases (leb s.other_side_window (bytes_in_flight s))) [
          | inr room ↦
              let sent = send_data-Round now c v e (ground arith) (ground arith) in
              (sent.0, again, rw (unsent, room) sent.1, sent.2, sent.3)
          | inl full ↦
              elim (Bool-cases
                ((s.other_side_window == 0) && leb s.nxt s.lbw && (bytes_in_flight s == 0))) [
                  | inl probing ↦
                      let sent =
                        send_probe-Round c v e (ground arith) (ground arith) (ground arith) in
                      (sent.0, probe_wait, rw (unsent, full, probing) sent.1, sent.2, sent.3)
                  | inr waiting ↦ (
                    c,
                    window_wait,
                    rw (unsent, full, waiting),
                    unchanged c window_wait v e,
                    (ground arith, refl),
                  )
                ]
        ]
      ]
