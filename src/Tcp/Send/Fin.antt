-- ===== src/Tcp/Send/Fin.antt =====
-- The answer to a FIN that is all that is in flight.
use mini_tls.Prelude.{
  ℕ, ◌+◌, ◌<◌, ◌≡◌, refl, ap, ◌∙◌, true, false, none, some, [], ◌∷◌, arith, ltb, leb, ◌==◌, u32_mod,
  add32, sub32,
}
use mini_tls.Tcp.CircleBuf.{advance_base}
use mini_tls.Tcp.Output.{set_state}
use mini_tls.Tcp.Send.{Floats, ack_new, after_ack, handle_pure_ack, pop_acked, trigger_probe}
use mini_tls.Tcp.Send.Rto.{QueueInv, ack_queue_popped}
use mini_tls.Tcp.Types.{
  Conn, RetransEntry, RetransQueue, TcpFields, closed, fin_wait_1, fin_wait_2, last_ack,
}

-- A FIN with this number is in flight, and nothing else.
pub record Awaits (c : Conn) (fin : ℕ) : Type 0 where
  pub una : c.send_buf.una ≡ fin
  pub nxt : c.send_buf.nxt ≡ fin + 1
  pub word : fin + 1 < u32_mod
  pub queue : QueueInv c.retrans_queue
  pub entry : RetransEntry
  pub flight : c.retrans_queue.array ≡ entry ∷ []
  pub is_fin : (entry.seq_num ≡ fin) × (entry.len ≡ 0)
  pub up : c.torn_down ≡ false

-- What the acknowledgment changes before the state is looked at.
abbrev taken : Conn → TcpFields → RetransQueue → Conn
taken c seg q = record c {
  send_buf = record (c.send_buf) {
    other_side_window = seg.window_size;
    una = seg.ack_num;
    c_buf = advance_base c.send_buf.c_buf (sub32 seg.ack_num c.send_buf.una);
  };
  retrans_queue = q;
}

-- The acknowledgment of the FIN.
fin_acked :
    (fl : Floats) (now fin : ℕ) (c : Conn) (seg : TcpFields)
    → Awaits c fin
    → seg.ack_num ≡ fin + 1
    → (q : RetransQueue) × (q.array ≡ [])
      × (handle_pure_ack fl now c seg ≡ after_ack c.entry.state true (taken c seg q))
unfolding handle_pure_ack ack_new pop_acked
fin_acked fl now fin c seg v e =
    let s = c.send_buf in
    let ack = seg.ack_num in
    let q = ack_queue_popped fl now ack c.retrans_queue v.queue (λ n. cc (n, v.flight)) in
    let not_beyond : ltb s.nxt ack ≡ false = ground (arith, v.nxt) in
    let is_new : ltb s.una ack ≡ true = ground (arith, v.una) in
    let all : (ack == s.nxt) ≡ true = ground (arith, v.nxt) in
    let popped : leb (add32 v.entry.seq_num v.entry.len) ack ≡ true =
      ground (arith, v.is_fin.0, v.is_fin.1, v.word) in
    (
      q.0,
      q.3 ∙ ap (λ l. (pop_acked ack l none).1) v.flight ∙ rw popped refl,
      rw (not_beyond, is_new, q.1, all) refl,
    )

-- The active side goes on to FIN_WAIT_2.
pub fin_wait_1-acked :
    (fl : Floats) (now fin : ℕ) (c : Conn) (seg : TcpFields)
    → Awaits c fin
    → seg.ack_num ≡ fin + 1
    → c.entry.state ≡ fin_wait_1
    → (c' : Conn) × (handle_pure_ack fl now c seg ≡ some c')
      × (c'.entry ≡ record (c.entry) { state = fin_wait_2 })
      × (c'.recv_buf ≡ c.recv_buf)
      × (c'.retrans_queue.array ≡ [])
fin_wait_1-acked fl now fin c seg v e st =
    let a = fin_acked fl now fin c seg v e in
    let c1 = taken c seg a.0 in
    let c2 = set_state c1 fin_wait_2 in
    (
      trigger_probe (record c2 { send_buf = record (c2.send_buf) { space_available = true } }),
      a.2 ∙ ap (λ s. after_ack s true c1) st,
      refl,
      refl,
      a.1,
    )

-- The passive side is closed, and its entry goes.
pub last_ack-acked :
    (fl : Floats) (now fin : ℕ) (c : Conn) (seg : TcpFields)
    → Awaits c fin
    → seg.ack_num ≡ fin + 1
    → c.entry.state ≡ last_ack
    → (c' : Conn) × (handle_pure_ack fl now c seg ≡ some c')
      × (c'.entry ≡ record (c.entry) { state = closed; removed = true })
      × (c'.torn_down ≡ true)
last_ack-acked fl now fin c seg v e st =
    let a = fin_acked fl now fin c seg v e in
    let c1 = taken c seg a.0 in
    (
      record c1 { torn_down = true; entry = record (c1.entry) { state = closed; removed = true } },
      a.2 ∙ ap (λ s. after_ack s true c1) st ∙ rw (v.up) refl,
      refl,
      refl,
    )
