-- ===== src/Tcp/Dispatch/Closing.antt =====
-- A connection is closed from both ends, each with everything acknowledged.
use mini_tls.Prelude.{
  ℕ, ◌+◌, ◌<◌, ◌≡◌, refl, sym, ap, ◌∙◌, subst, ◌⊎◌, inl, inr, true, false, Option, some, [], ◌∷◌,
  ◌++◌, arith, u32_mod, add32,
}
use mini_tls.Tcp.Dispatch.{handle_conn, handle_last, handle_open}
use mini_tls.Tcp.Output.{header}
use mini_tls.Tcp.Receive.{handle_fin}
use mini_tls.Tcp.Receive.Fin.{after_fin, handle_fin_expected}
use mini_tls.Tcp.Send.{Floats, handle_pure_ack}
use mini_tls.Tcp.Send.Ack.{can_send}
use mini_tls.Tcp.Send.Fin.{Awaits, fin_wait_1-acked, last_ack-acked}
use mini_tls.Tcp.Send.Rto.{QueueInv}
use mini_tls.Tcp.Types.{
  Conn, TcpFields, close_wait, closed, established, fin_wait_1, fin_wait_2, flag_ack, flag_fin_ack,
  last_ack, time_wait,
}
use mini_tls.Tcp.Writer.{CloseResult, fin_state, vclose}
use mini_tls.Tcp.Writer.Fin.{Idle, bare, vclose-Awaits}

-- What `HandleTCP` makes of a segment without data for a connection.
abbrev pub hears : Floats → ℕ → Conn → TcpFields → Option Conn
hears fl now c hdr = handle_conn fl now false c.entry.state c hdr []

-- A close: the states of the two ends from step to step, and the segments between them.
pub record Closes (fl : Floats) (now : ℕ) (a b : Conn) : Type 0 where
  -- `VClose` at the first end sends a FIN, which the second one acknowledges.
  pub a1 : Conn
  pub b1 : Conn
  pub fin_a : TcpFields
  pub ack_b : TcpFields
  pub first : vclose now a ≡ CloseResult.fin_sent a1
  pub first_sent : a1.entry.requests ≡ a.entry.requests ++ (bare a fin_a ∷ [])
  pub first_state : a1.entry.state ≡ fin_wait_1
  pub first_heard : hears fl now b fin_a ≡ some b1
  pub first_answer : b1.entry.requests ≡ b.entry.requests ++ (bare b ack_b ∷ [])
  pub half_closed : b1.entry.state ≡ close_wait
  pub a2 : Conn
  pub answer_heard : hears fl now a1 ack_b ≡ some a2
  pub waiting : a2.entry.state ≡ fin_wait_2
  -- Then `VClose` at the second end does the same the other way.
  pub b2 : Conn
  pub a3 : Conn
  pub fin_b : TcpFields
  pub ack_a : TcpFields
  pub second : vclose now b1 ≡ CloseResult.fin_sent b2
  pub second_sent : b2.entry.requests ≡ b1.entry.requests ++ (bare b1 fin_b ∷ [])
  pub second_state : b2.entry.state ≡ last_ack
  pub second_heard : hears fl now a2 fin_b ≡ some a3
  pub second_answer : a3.entry.requests ≡ a2.entry.requests ++ (bare a2 ack_a ∷ [])
  pub a_done : a3.entry.state ≡ time_wait
  pub b3 : Conn
  pub last_heard : hears fl now b2 ack_a ≡ some b3
  pub b_done : (b3.entry.state ≡ closed) × (b3.entry.removed ≡ true)

-- A FIN in a state that takes one.
hears-fin :
    (fl : Floats) (now : ℕ) (c : Conn) (hdr : TcpFields)
    → (c.entry.state ≡ established) ⊎ (c.entry.state ≡ fin_wait_2)
    → hdr.flags ≡ flag_fin_ack
    → hears fl now c hdr ≡ some (handle_fin c hdr)
unfolding handle_conn handle_open
hears-fin fl now c hdr (inl s) f = rw (s, f, handle_conn) refl
hears-fin fl now c hdr (inr s) f = rw (s, f, handle_conn) refl

-- An acknowledgment.
hears-ack :
    (fl : Floats) (now : ℕ) (c : Conn) (hdr : TcpFields)
    → (c.entry.state ≡ fin_wait_1) ⊎ (c.entry.state ≡ last_ack)
    → hdr.flags ≡ flag_ack
    → hears fl now c hdr ≡ handle_pure_ack fl now c hdr
unfolding handle_conn handle_open handle_last
hears-ack fl now c hdr (inl s) f = rw (s, f, handle_conn) refl
hears-ack fl now c hdr (inr s) f = rw (s, f, handle_conn) refl

-- An idle connection stays idle when only its receiving side and its state change.
Idle-after :
    (c c' : Conn)
    → Idle c
    → c'.send_buf ≡ c.send_buf
    → c'.retrans_queue ≡ c.retrans_queue
    → c'.torn_down ≡ c.torn_down
    → c'.entry.seq_num ≡ c.entry.seq_num
    → Idle c'
Idle-after c c' v s q t n = record {
  acked = ap (λ b. b.una) s ∙ v.acked ∙ ap (λ b. b.nxt) (sym s);
  written = ap (λ b. b.lbw + 1) s ∙ v.written ∙ ap (λ b. b.nxt) (sym s);
  word = subst (λ b. b.nxt + 1 < u32_mod) (sym s) v.word;
  in_step = n ∙ v.in_step ∙ ap (λ b. b.nxt) (sym s);
  quiet = ap (λ k. k.array) q ∙ v.quiet;
  queue = subst QueueInv (sym q) v.queue;
  up = t ∙ v.up;
}

-- One direction of a close: `closer` is the first end behind its FIN, `peer` the second one behind its
-- answer.
record HalfClose (now : ℕ) (c d : Conn) : Type 0 where
  closer : Conn
  fin : TcpFields
  answer : TcpFields
  sends : vclose now c ≡ CloseResult.fin_sent closer
  sent : closer.entry.requests ≡ c.entry.requests ++ (bare c fin ∷ [])
  state : closer.entry.state ≡ fin_state c.entry.state
  keeps : closer.recv_buf ≡ c.recv_buf
  awaits : Awaits closer c.send_buf.nxt
  is_fin : fin.flags ≡ flag_fin_ack
  is_ack : answer.flags ≡ flag_ack
  number : answer.ack_num ≡ c.send_buf.nxt + 1
  peer_state : (handle_fin d fin).entry.state ≡ after_fin d.entry.state
  answered : (handle_fin d fin).entry.requests ≡ d.entry.requests ++ (bare d answer ∷ [])
  peer_sends : (handle_fin d fin).send_buf ≡ d.send_buf
  peer_idle : Idle d → Idle (handle_fin d fin)

half_close :
    (now : ℕ) (c d : Conn)
    → Idle c
    → can_send c.entry.state ≡ true
    → d.recv_buf.nxt ≡ c.send_buf.nxt
    → HalfClose now c d
half_close now c d v can expects =
    let fin = header c c.entry.seq_num c.recv_buf.nxt flag_fin_ack in
    let r = vclose-Awaits now c v can in
    let h = handle_fin_expected d fin (v.in_step ∙ sym expects) in
    record {
      closer = r.0;
      fin = fin;
      answer = header d d.entry.seq_num (add32 fin.seq_num 1) flag_ack;
      sends = r.1;
      sent = r.3;
      state = r.2;
      keeps = r.4;
      awaits = r.6;
      is_fin = refl;
      is_ack = refl;
      number = omega (arith, v.in_step, v.word);
      peer_state = ap (λ e. e.state) h.0;
      answered = ap (λ e. e.requests) h.0;
      peer_sends = h.2;
      peer_idle = λ i. Idle-after d (handle_fin d fin) i h.2 h.3 h.4 (ap (λ e. e.seq_num) h.0);
    }

-- Two established connections with nothing in flight, each of which expects the number that the other
-- sends next, go through the four segments of a close: FIN_WAIT_1 and CLOSE_WAIT, FIN_WAIT_2,
-- LAST_ACK and TIME_WAIT, and the second one to call `VClose` ends CLOSED and off the table.
pub four_way_close :
    (fl : Floats) (now : ℕ) (a b : Conn)
    → Idle a
    → Idle b
    → a.entry.state ≡ established
    → b.entry.state ≡ established
    → b.recv_buf.nxt ≡ a.send_buf.nxt
    → a.recv_buf.nxt ≡ b.send_buf.nxt
    → Closes fl now a b
four_way_close fl now a b va vb sa sb forth back =
    let x = half_close now a b va (ap can_send sa) forth in
    let s1 : x.closer.entry.state ≡ fin_wait_1 = x.state ∙ ap fin_state sa in
    let b1 = handle_fin b x.fin in
    let t1 : b1.entry.state ≡ close_wait = x.peer_state ∙ ap after_fin sb in
    let r = fin_wait_1-acked fl now a.send_buf.nxt x.closer x.answer x.awaits x.number s1 in
    let s2 : r.0.entry.state ≡ fin_wait_2 = ap (λ e. e.state) r.2 in
    let v1 = x.peer_idle vb in
    let expects : r.0.recv_buf.nxt ≡ b1.send_buf.nxt =
      ap (λ q. q.nxt) (r.3 ∙ x.keeps) ∙ back ∙ ap (λ q. q.nxt) (sym x.peer_sends) in
    let y = half_close now b1 r.0 v1 (ap can_send t1) expects in
    let t2 : y.closer.entry.state ≡ last_ack = y.state ∙ ap fin_state t1 in
    let l = last_ack-acked fl now b1.send_buf.nxt y.closer y.answer y.awaits y.number t2 in
    record {
      a1 = x.closer;
      b1 = b1;
      fin_a = x.fin;
      ack_b = x.answer;
      first = x.sends;
      first_sent = x.sent;
      first_state = s1;
      first_heard = hears-fin fl now b x.fin (inl sb) x.is_fin;
      first_answer = x.answered;
      half_closed = t1;
      a2 = r.0;
      answer_heard = hears-ack fl now x.closer x.answer (inl s1) x.is_ack ∙ r.1;
      waiting = s2;
      b2 = y.closer;
      a3 = handle_fin r.0 y.fin;
      fin_b = y.fin;
      ack_a = y.answer;
      second = y.sends;
      second_sent = y.sent;
      second_state = t2;
      second_heard = hears-fin fl now r.0 y.fin (inr s2) y.is_fin;
      second_answer = y.answered;
      a_done = y.peer_state ∙ ap after_fin s2;
      b3 = l.0;
      last_heard = hears-ack fl now y.closer y.answer (inr t2) y.is_ack ∙ l.1;
      b_done = (ap (λ e. e.state) l.2, ap (λ e. e.removed) l.2);
    }
