-- ===== src/Tcp/Dispatch/Resets.antt =====
-- Where the code panics or stalls: a second teardown, and sequence numbers that have wrapped.
use mini_tls.Prelude.{
  ℕ, ◌+◌, ◌≤◌, ◌<◌, ◌≡◌, refl, sym, ◌∙◌, subst, inl, inr, true, false, none, some, List, ◌∷◌, arith,
  ltb, Bool-cases,
}
use mini_tls.Tcp.EarlyArrivals.{down, up}
use mini_tls.Tcp.Output.{close}
use mini_tls.Tcp.Send.{Floats, handle_pure_ack, retransmit_segment}
use mini_tls.Tcp.Types.{Conn, RetransEntry, TcpFields, closed, max_retransmissions, running}
use mathlib.Core.Option.{none-ne-some, some-injective}

closed_twice : (c : Conn) → c.torn_down ≡ true → close c ≡ none
closed_twice c down = rw down refl

closed_once :
    (c : Conn)
    → c.torn_down ≡ false
    → close c
      ≡ some (record c {
        torn_down = true;
        entry = record (c.entry) { state = closed; removed = true };
      })
closed_once c up = rw up refl

-- When a connection is closed, by the timer of TIME_WAIT say, while its retransmission timer is
-- running, that timer runs on. With a segment in flight that has been sent four more times, its
-- timeout closes the connection again, which is a panic.
pub retransmit_segment_closed :
    (c c' : Conn) (d : ℕ) (x : RetransEntry) (xs : List RetransEntry)
    → c.retrans_queue.timer ≡ running d
    → close c ≡ some c'
    → c.retrans_queue.array ≡ x ∷ xs
    → max_retransmissions ≤ x.num_retransmits
    → (c'.retrans_queue.timer ≡ running d) × (retransmit_segment c' ≡ none)
unfolding retransmit_segment
retransmit_segment_closed c c' d x xs timer e q many = elim (Bool-cases c.torn_down) [
  | inl down ↦ absurd (none-ne-some c' (sym (closed_twice c down) ∙ e))
  | inr up ↦
      let is : record c {
        torn_down = true;
        entry = record (c.entry) { state = closed; removed = true };
      }
          ≡ c' =
        some-injective _ c' (sym (closed_once c up) ∙ e) in
      let over : ltb max_retransmissions (x.num_retransmits + 1) ≡ true = ground arith in
      (
        subst (λ k. k.retrans_queue.timer ≡ running d) is timer,
        subst (λ k. retransmit_segment k ≡ none) is (rw (q, over) refl),
      )
]

-- Once the numbers in flight have gone past 2 ^ 32, so that `nxt` is less than `una`, no
-- acknowledgment at all moves `una` or takes a segment off the queue, and none panics.
pub handle_pure_ack_wrapped :
    (fl : Floats) (now : ℕ) (c : Conn) (seg : TcpFields)
    → c.send_buf.nxt < c.send_buf.una
    → c.send_buf.is_probing ≡ false
    → (c' : Conn) × (handle_pure_ack fl now c seg ≡ some c')
      × (c'.send_buf.una ≡ c.send_buf.una)
      × (c'.send_buf.nxt ≡ c.send_buf.nxt)
      × (c'.send_buf.c_buf ≡ c.send_buf.c_buf)
      × (c'.retrans_queue ≡ c.retrans_queue)
unfolding handle_pure_ack
handle_pure_ack_wrapped fl now c seg w idle = elim (Bool-cases (ltb c.send_buf.nxt seg.ack_num)) [
  | inl beyond ↦ (c, rw (beyond, idle) refl, refl, refl, refl, refl)
  | inr within ↦
      let old : ltb c.send_buf.una seg.ack_num ≡ false = ground arith in
      (
        record c { send_buf = record (c.send_buf) { other_side_window = seg.window_size } },
        rw (within, old) refl,
        refl,
        refl,
        refl,
        refl,
      )
]
