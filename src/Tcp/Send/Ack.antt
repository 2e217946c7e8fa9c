-- ===== src/Tcp/Send/Ack.antt =====
-- What `handlePureAck` does to a connection that sends data.
use mini_tls.Prelude.{
  ℕ, ◌+◌, ◌≤◌, ◌<◌, ◌≡◌, refl, sym, ap, ap₂, ◌∙◌, subst, ◌⊎◌, inl, inr, Bool, true, false, none,
  some, [], arith, ltb, ◌==◌, if◌then◌else◌, drop, All, add32, sub32,
}
use mini_tls.Tcp.CircleBuf.{advance_base}
use mini_tls.Tcp.CircleBuf.Inv.{advance_base-IsValid, advance_base_lem}
use mini_tls.Tcp.CircleBuf.Queue.{contents-advance_base}
use mini_tls.Tcp.Send.{Floats, ack_new, ack_probe, after_ack, handle_pure_ack, trigger_probe}
use mini_tls.Tcp.Send.Flight.{IsEnd, IsEnd-some, Tiles, Tiles-IsEnd, pop_acked-Tiles}
use mini_tls.Tcp.Send.Rto.{ack_queue_popped}
use mini_tls.Tcp.Send.Window.{InFlight, IsHonestRequest, Sending, Sending-flags}
use mini_tls.Tcp.Stream.{bytes_of, drop-bytes_of}
use mini_tls.Tcp.Types.{
  Conn, SendBuf, State, TcpFields, close_wait, closed, error, established, fin_wait_1, fin_wait_2,
  last_ack, listen, syn_received, syn_sent, time_wait,
}
use mini_tls.Tcp.Writer.{CloseResult, close_on}

-- The states in which data is sent.
abbrev pub can_send : State → Bool
can_send established = true
can_send close_wait = true
can_send _ = false

after_ack-can_send :
    (s : State) (b : Bool) (c : Conn)
    → can_send s ≡ true
    → after_ack s b c
      ≡ some
          (trigger_probe (record c { send_buf = record (c.send_buf) { space_available = true } }))
after_ack-can_send established b c h = refl
after_ack-can_send close_wait b c h = refl
after_ack-can_send closed b c h = cc
after_ack-can_send listen b c h = cc
after_ack-can_send syn_sent b c h = cc
after_ack-can_send syn_received b c h = cc
after_ack-can_send fin_wait_1 b c h = cc
after_ack-can_send last_ack b c h = cc
after_ack-can_send fin_wait_2 b c h = cc
after_ack-can_send time_wait b c h = cc
after_ack-can_send error b c h = cc

pub close_on-can_send : (s : State) (r : CloseResult) → can_send s ≡ true → close_on s r ≡ r
close_on-can_send s r = elim s as (λ t. can_send t ≡ true → close_on t r ≡ r) [
  | established ↦ λ h. refl
  | close_wait ↦ λ h. refl
  | _ ↦ λ h. cc
]

module _ (S : ℕ → ℕ) where
  -- A connection that sends data: the buffer, the queue and what was sent are of the stream.
  pub record Sender (c : Conn) : Type 0 where
    pub sending : Sending S c.send_buf
    pub in_step : c.entry.seq_num ≡ c.send_buf.nxt
    pub flight : InFlight c
    pub honest : All (IsHonestRequest S) c.entry.requests
    pub state : can_send c.entry.state ≡ true

  -- The front of the buffer is given up to a number that was acknowledged.
  Sending-advance :
      (s : SendBuf) (ack nxt : ℕ)
      → Sending S s
      → s.una < ack
      → ack ≤ nxt
      → nxt ≤ s.lbw + 1
      → Sending S
          (record s { una = ack; nxt = nxt; c_buf = advance_base s.c_buf (sub32 ack s.una) })
  Sending-advance s ack nxt v lo hi top =
      let k = sub32 ack s.una in
      let k_le : k ≤ s.c_buf.curr_size = omega (arith, v.word, v.written) in
      let after = advance_base_lem k v.valid k_le in
      record {
        valid = advance_base-IsValid k v.valid;
        una_pos = omega arith;
        base = omega (arith, after.1, v.base, v.word, v.written);
        word = omega (arith, after.0, v.word);
        written = omega (arith, after.0, v.written);
        sent_from = hi;
        sent_to = top;
        held =
            contents-advance_base k v.valid k_le
            ∙ ap (drop k) v.held
            ∙ drop-bytes_of S s.una k s.c_buf.curr_size (omega (arith, v.word)) k_le
            ∙ ap₂ (bytes_of S) {x = add32 s.una k} {y = ack} (omega (arith, v.word, v.written))
                (sym after.0);
      }

  pub record Acked (ack window : ℕ) (c c' : Conn) : Type 0 where
    pub sender : Sender c'
    pub una : c'.send_buf.una ≡ ack
    pub nxt : c'.send_buf.nxt ≡ c.send_buf.nxt
    pub lbw : c'.send_buf.lbw ≡ c.send_buf.lbw
    pub window_new : c'.send_buf.other_side_window ≡ window
    pub requests : c'.entry.requests ≡ c.entry.requests
    pub received : c'.recv_buf ≡ c.recv_buf

  -- The acknowledgment of a segment in flight does not panic. It moves `una` there, gives up the
  -- bytes and the queue entries before it, and takes the new window.
  pub handle_pure_ack-Acked :
      (fl : Floats) (now : ℕ) (c : Conn) (seg : TcpFields)
      → Sender c
      → IsEnd seg.ack_num c.retrans_queue.array
      → (c' : Conn) × (handle_pure_ack fl now c seg ≡ some c')
        × Acked seg.ack_num seg.window_size c c'
  unfolding handle_pure_ack ack_new
  handle_pure_ack-Acked fl now c seg v h =
      let s = c.send_buf in
      let ack = seg.ack_num in
      let bounds = Tiles-IsEnd s.una s.nxt ack c.retrans_queue.array v.flight.1 h in
      let not_new : ltb s.nxt ack ≡ false = ground (arith, bounds.1) in
      let is_new : ltb s.una ack ≡ true = ground (arith, bounds.0) in
      let queue =
        ack_queue_popped fl now ack c.retrans_queue v.flight.0
          (IsEnd-some ack c.retrans_queue.array h) in
      let s' = record s {
        other_side_window = seg.window_size;
        una = ack;
        c_buf = advance_base s.c_buf (sub32 ack s.una);
      } in
      let c1 = record c {
        send_buf = record s' { space_available = true };
        retrans_queue = queue.0;
      } in
      (
        trigger_probe c1,
        rw (not_new, is_new, queue.1)
            (after_ack-can_send c.entry.state (ack == s.nxt)
              (record c { send_buf = s'; retrans_queue = queue.0 }) v.state),
        record {
          sender = record {
            sending =
                Sending-flags S
                  (Sending-advance s ack s.nxt v.sending bounds.0 bounds.1 v.sending.sent_to);
            in_step = v.in_step;
            flight = (
              queue.2,
              subst (λ xs. Tiles ack xs s.nxt) (sym queue.3)
                  (pop_acked-Tiles s.una s.nxt ack c.retrans_queue.array none v.flight.1
                    (omega (arith, v.sending.sent_to, v.sending.written, v.sending.word)) h),
            );
            honest = v.honest;
            state = v.state;
          };
          una = refl;
          nxt = refl;
          lbw = refl;
          window_new = refl;
          requests = refl;
          received = refl;
        },
      )

  -- What an acknowledgment leaves: with nothing new it brings its window, and beyond what was sent it
  -- is dropped.
  abbrev pub after_old_ack : Conn → TcpFields → Conn
  after_old_ack c seg =
      if ltb c.send_buf.nxt seg.ack_num
      then c
      else record c { send_buf = record (c.send_buf) { other_side_window = seg.window_size } }

  -- An acknowledgment of nothing new changes the window to its own, and nothing else. One of what was
  -- not sent, outside a probe, changes nothing. Neither panics, and the invariant of the sender stays.
  pub handle_pure_ack_old :
      (fl : Floats) (now : ℕ) (c : Conn) (seg : TcpFields)
      → Sender c
      → (seg.ack_num ≤ c.send_buf.una)
        ⊎ ((c.send_buf.nxt < seg.ack_num) × (c.send_buf.is_probing ≡ false))
      → (handle_pure_ack fl now c seg ≡ some (after_old_ack c seg)) × Sender (after_old_ack c seg)
  unfolding handle_pure_ack
  handle_pure_ack_old fl now c seg v (inl old) =
      let s = c.send_buf in
      let not_new : ltb s.nxt seg.ack_num ≡ false = ground (arith, v.sending.sent_from) in
      let is_old : ltb s.una seg.ack_num ≡ false = ground arith in
      let kept : Sender (record c { send_buf = record s { other_side_window = seg.window_size } }) =
        record {
          sending = Sending-flags S v.sending;
          in_step = v.in_step;
          flight = v.flight;
          honest = v.honest;
          state = v.state;
        } in
      (rw (not_new, is_old) refl, rw not_new kept)
  handle_pure_ack_old fl now c seg v (inr (beyond, idle)) =
      let e : ltb c.send_buf.nxt seg.ack_num ≡ true = ground arith in (rw (e, idle) refl, rw e v)

  -- The acknowledgment of a probe takes its byte as sent and received.
  pub handle_pure_ack_probe :
      (fl : Floats) (now : ℕ) (c : Conn) (seg : TcpFields)
      → Sender c
      → c.retrans_queue.array ≡ []
      → c.send_buf.is_probing ≡ true
      → c.send_buf.nxt ≤ c.send_buf.lbw
      → seg.ack_num ≡ c.send_buf.nxt + 1
      → (c' : Conn) × (handle_pure_ack fl now c seg ≡ some c')
        × Sender c'
        × (c'.send_buf.una ≡ seg.ack_num)
        × (c'.send_buf.nxt ≡ seg.ack_num)
        × (c'.send_buf.lbw ≡ c.send_buf.lbw)
        × (c'.send_buf.other_side_window ≡ seg.window_size)
        × (c'.entry.requests ≡ c.entry.requests)
  unfolding handle_pure_ack
  handle_pure_ack_probe fl now c seg v idle probing unsent e =
      let s = c.send_buf in
      let vs = v.sending in
      let beyond : ltb s.nxt seg.ack_num ≡ true = ground arith in
      let next : (seg.ack_num == add32 s.nxt 1) ≡ true = ground (arith, vs.word, vs.written) in
      let una : s.una ≡ s.nxt = subst (λ xs. Tiles s.una xs s.nxt) idle v.flight.1 in
      (
        ack_probe c seg,
        rw (beyond, probing, next),
        record {
          sending = Sending-flags S (
              Sending-advance s seg.ack_num seg.ack_num vs (omega arith) (omega arith)
                (omega arith));
          in_step = refl;
          flight = (v.flight.0, subst (λ xs. Tiles seg.ack_num xs seg.ack_num) (sym idle) refl);
          honest = v.honest;
          state = v.state;
        },
        refl,
        refl,
        refl,
        refl,
        refl,
      )
