-- ===== src/Tcp/Send/Rounds.antt =====
-- The inner loop of `sendLoop` as a whole: it ends, and it sends all that the window permits.
use mini_tls.Prelude.{
  ℕ, zero, suc, ◌+◌, ◌-◌, ◌≤◌, ◌<◌, ◌≡◌, refl, sym, ap, ap₂, ◌∙◌, subst, ◌⊎◌, inl, inr, some, List,
  [], ◌∷◌, ◌++◌, append-nil, append_assoc, arith, All, add32,
}
use mini_tls.Tcp.Send.{
  Next, again, no_data, probe_wait, send_round, send_rounds, sendable, window_wait,
}
use mini_tls.Tcp.Send.Window.{
  Ended, InFlight, IsHonestRequest, Round, Sending, segment_of, send_round-Round,
}
use mini_tls.Tcp.Stream.{bytes_of, bytes_of-add}
use mini_tls.Tcp.Types.{Conn, SendBuf, SendRequest, bytes_in_flight}

-- The bytes that some requests carry, in order.
abbrev pub payloads : List SendRequest → List ℕ
payloads [] = []
payloads (r ∷ rs) = r.payload ++ payloads rs

module _ (S : ℕ → ℕ) where
  -- Why the loop stopped.
  abbrev pub Stopped : Next → SendBuf → Type 0
  Stopped again s = ⊥
  Stopped no_data s = s.nxt ≡ s.lbw + 1
  Stopped _ s = s.other_side_window ≤ bytes_in_flight s

  pub record Sent (c c' : Conn) (next : Next) : Type 0 where
    pub keeps : Sending S c'.send_buf
    pub in_step : c'.entry.seq_num ≡ c'.send_buf.nxt
    pub una : c'.send_buf.una ≡ c.send_buf.una
    pub lbw : c'.send_buf.lbw ≡ c.send_buf.lbw
    pub state : c'.entry.state ≡ c.entry.state
    pub flight : InFlight c → InFlight c'
    pub honest :
        All (IsHonestRequest S) c.entry.requests → All (IsHonestRequest S) c'.entry.requests
    pub window : c'.send_buf.other_side_window ≡ c.send_buf.other_side_window
    pub further : c.send_buf.nxt ≤ c'.send_buf.nxt
    pub stopped : Stopped next c'.send_buf
    pub segments : List SendRequest
    pub probe : List SendRequest
    pub requests : c'.entry.requests ≡ c.entry.requests ++ segments ++ probe
    pub data_bytes :
        payloads segments ≡ bytes_of S c.send_buf.nxt (c'.send_buf.nxt - c.send_buf.nxt)
    pub probe_bytes : (probe ≡ []) ⊎ (payloads probe ≡ bytes_of S c'.send_buf.una 1)

  abbrev Loops : ℕ → ℕ → Conn → Type 0
  Loops fuel now c =
      (c' : Conn) × (next : Next) × (send_rounds fuel now c ≡ some (c', next)) × Sent c c' next

  stop-Sent :
      (c c' : Conn) (next : Next)
      → Round S c c' next
      → Stopped next c'.send_buf
      → c'.send_buf.nxt ≡ c.send_buf.nxt
      → (probe : List SendRequest) → c'.entry.requests ≡ c.entry.requests ++ probe
      → (probe ≡ []) ⊎ (payloads probe ≡ bytes_of S c'.send_buf.una 1)
      → Sent c c' next
  stop-Sent c c' next r stop same probe e p = record {
    keeps = r.keeps;
    in_step = r.in_step;
    una = r.una;
    lbw = r.lbw;
    state = r.state;
    flight = r.flight;
    honest = r.honest;
    window = r.window;
    further = omega arith;
    stopped = stop;
    segments = [];
    probe = probe;
    requests = e ∙ ap (λ l. l ++ probe) (sym (append-nil c.entry.requests));
    data_bytes = ap (bytes_of S c.send_buf.nxt) {x = 0} (omega arith);
    probe_bytes = p;
  }

  one_more :
      (c c1 c' : Conn) (next : Next)
      → Sending S c.send_buf
      → Round S c c1 again
      → Ended S again c c1
      → Sent c1 c' next
      → Sent c c' next
  one_more c c1 c' next v r end rest =
      let n = sendable c.send_buf in
      let first = segment_of S c c.send_buf.nxt n in
      let m = c'.send_buf.nxt - c1.send_buf.nxt in
      record {
        keeps = rest.keeps;
        in_step = rest.in_step;
        una = rest.una ∙ r.una;
        lbw = rest.lbw ∙ r.lbw;
        state = rest.state ∙ r.state;
        flight = λ q. rest.flight (r.flight q);
        honest = λ a. rest.honest (r.honest a);
        window = rest.window ∙ r.window;
        further = omega (arith, rest.further, end.0);
        stopped = rest.stopped;
        segments = first ∷ rest.segments;
        probe = rest.probe;
        requests =
            rest.requests
            ∙ ap (λ l. (l ++ rest.segments) ++ rest.probe) end.4
            ∙ ap (λ l. l ++ rest.probe) (append_assoc c.entry.requests (first ∷ []) rest.segments);
        data_bytes =
            ap₂ ◌++◌ {x = bytes_of S c.send_buf.nxt n} refl (
              rest.data_bytes
              ∙ ap (λ q. bytes_of S q m) {x = c1.send_buf.nxt} {y = add32 c.send_buf.nxt n}
                  (omega (arith, end.0, v.word, r.keeps.sent_to, r.keeps.written, r.keeps.word)))
            ∙ sym (bytes_of-add S c.send_buf.nxt n m (omega (arith, v.word, v.written, v.sent_to)))
            ∙ ap (bytes_of S c.send_buf.nxt) (omega (arith, end.0, rest.further));
        probe_bytes = rest.probe_bytes;
      }

  go_on :
      (fuel now : ℕ) (c c1 : Conn) (next : Next)
      → Sending S c.send_buf
      → c.send_buf.lbw + 1 - c.send_buf.nxt < suc fuel
      → send_round now c ≡ some (c1, next)
      → Round S c c1 next
      → Ended S next c c1
      → (Sending S c1.send_buf
          → c1.entry.seq_num ≡ c1.send_buf.nxt
          → c1.send_buf.lbw + 1 - c1.send_buf.nxt < fuel
          → Loops fuel now c1)
      → Loops (suc fuel) now c
  unfolding send_rounds
  go_on fuel now c c1 again v h e r end loop =
      let rest =
        loop r.keeps r.in_step
          (omega (arith, end.0, end.1, r.lbw, r.keeps.sent_to, r.keeps.written, v.sent_to)) in
      (rest.0, rest.1, rw e rest.2, one_more c c1 rest.0 rest.1 v r end rest.3)
  go_on fuel now c c1 no_data v h e r end loop = (
    c1,
    no_data,
    rw e,
    stop-Sent c c1 no_data r
        (ap (λ d. d.send_buf.nxt) end.1 ∙ end.0 ∙ ap (λ d. d.send_buf.lbw + 1) (sym end.1))
        (ap (λ d. d.send_buf.nxt) end.1) []
        (ap (λ d. d.entry.requests) end.1 ∙ sym (append-nil c.entry.requests)) (inl refl),
  )
  go_on fuel now c c1 window_wait v h e r end loop = (
    c1,
    window_wait,
    rw e,
    stop-Sent c c1 window_wait r
        (subst (λ d. d.send_buf.other_side_window ≤ bytes_in_flight d.send_buf) (sym end.1) end.0)
        (ap (λ d. d.send_buf.nxt) end.1) []
        (ap (λ d. d.entry.requests) end.1 ∙ sym (append-nil c.entry.requests)) (inl refl),
  )
  go_on fuel now c c1 probe_wait v h e r end loop = (
    c1,
    probe_wait,
    rw e,
    stop-Sent c c1 probe_wait r (omega (arith, r.window, end.0)) end.2
        (segment_of S c c.send_buf.una 1 ∷ []) end.3 (inr (ap (λ q. bytes_of S q 1) (sym r.una))),
  )

  -- With fuel beyond the number of unsent bytes the loop ends, without a panic, when all is sent or
  -- the window is used up. The segments that it has sent carry exactly the bytes of the stream from
  -- `nxt` to the new `nxt`, followed at most by a probe with the first unacknowledged byte.
  pub send_rounds-Sent :
      (fuel now : ℕ) (c : Conn)
      → Sending S c.send_buf
      → c.entry.seq_num ≡ c.send_buf.nxt
      → c.send_buf.lbw + 1 - c.send_buf.nxt < fuel
      → (c' : Conn) × (next : Next) × (send_rounds fuel now c ≡ some (c', next)) × Sent c c' next
  unfolding send_rounds
  send_rounds-Sent zero now c v e h = absurd (omega arith)
  send_rounds-Sent (suc fuel) now c v e h =
      let first = send_round-Round S now c v e in
      go_on fuel now c first.0 first.1 v h first.2 first.3 first.4
        (send_rounds-Sent fuel now first.0)
