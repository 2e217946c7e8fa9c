-- ===== src/Tcp/Receive/Drain.antt =====
-- The loop that moves early arrivals into the ring ends and keeps the bytes in order.
use mini_tls.Prelude.{
  ℕ, zero, suc, ◌≤◌, ◌<◌, ◌≡◌, ◌≢◌, ◌⊎◌, inl, inr, refl, ap, sym, ◌∙◌, ◌&&◌, some, length, leb,
  ◌==◌, add32, arith, Bool-cases, Option-cases, subst,
}
use mini_tls.Tcp.CircleBuf.{free_space}
use mini_tls.Tcp.EarlyArrivals.{peek}
use native.Mathlib.Nat.{le_of_eq, le_trans}
use mini_tls.Tcp.Types.{State, established, RecvBuf, Conn}
use mini_tls.Tcp.Receive.{fin_received, consume_fin, drain, handle_early_fin}
use mini_tls.Tcp.Output.{send_pure_ack}
use mini_tls.Tcp.Receive.Ring.{Received, take_first-Received}

-- `r` is `r0` after its FIN, which came as the next number, was consumed.
pub record Consumed (fin : ℕ) (r0 r : RecvBuf) : Type 0 where
  pub there : fin ≢ 0
  pub expected : fin ≡ r0.nxt
  pub past : r.nxt ≡ add32 fin 1
  pub cleared : r.fin ≡ 0
  pub ring : r.c_buf ≡ r0.c_buf
  pub read : r.lbr ≡ r0.lbr

fin_received-recv_buf :
    (s : State) (c : Conn)
    → (fin_received s c).recv_buf
      ≡ record (c.recv_buf) { data_to_read = (fin_received s c).recv_buf.data_to_read }
fin_received-recv_buf established c = refl
fin_received-recv_buf _ c = refl

module _ (S : ℕ → ℕ) where
  -- How the receiving side of `c'` comes from that of `c`: in order, or with the FIN consumed.
  pub record Grown (c c' : Conn) : Type 0 where
    pub unread : c'.recv_buf.lbr ≡ c.recv_buf.lbr
    pub more : c.recv_buf.c_buf.curr_size ≤ c'.recv_buf.c_buf.curr_size
    pub order :
        (Received S c'.recv_buf × (c'.recv_buf.fin ≡ c.recv_buf.fin))
        ⊎ ((r0 : RecvBuf) × Received S r0 × Consumed c.recv_buf.fin r0 c'.recv_buf)

  consume_fin-Consumed :
      (c : Conn) (fin : ℕ)
      → fin ≢ 0
      → fin ≡ c.recv_buf.nxt
      → Consumed fin c.recv_buf (consume_fin c fin).recv_buf
  consume_fin-Consumed c fin p e =
      let ack = add32 fin 1 in
      let c1 =
        send_pure_ack (record c { recv_buf = record (c.recv_buf) { nxt = ack; fin = 0 } }) ack in
      let after = fin_received-recv_buf c.entry.state c1 in
      record {
        there = p;
        expected = e;
        past = ap (λ r. r.nxt) after;
        cleared = ap (λ r. r.fin) after;
        ring = ap (λ r. r.c_buf) after;
        read = ap (λ r. r.lbr) after;
      }

  pub Grown-refl : (c : Conn) → Received S c.recv_buf → Grown c c
  Grown-refl c v = record { unread = refl; more = omega arith; order = inl (v, refl) }

  pub acked-Grown : (c : Conn) (k : ℕ) → Received S c.recv_buf → Grown c (send_pure_ack c k)
  acked-Grown c k v = record { unread = refl; more = omega arith; order = inl (v, refl) }

  pub handle_early_fin-Grown : (c : Conn) → Received S c.recv_buf → Grown c (handle_early_fin c)
  unfolding handle_early_fin
  handle_early_fin-Grown c v = elim (Bool-cases (c.recv_buf.fin == 0)) [
    | inl none_yet ↦ rw none_yet (Grown-refl c v)
    | inr some_fin ↦ elim (Bool-cases (c.recv_buf.fin == c.recv_buf.nxt)) [
      | inr later ↦ rw (some_fin, later) (Grown-refl c v)
      | inl now ↦
          let done = consume_fin-Consumed c c.recv_buf.fin (ground arith) (ground arith) in
          rw (some_fin, now)
            (record {
              unread = done.read;
              more = le_of_eq (ap (λ b. b.curr_size) (sym done.ring));
              order = inr (c.recv_buf, v, done);
            })
    ]
  ]

  pub Grown-trans :
      {a b c : Conn}
      → b.recv_buf.lbr ≡ a.recv_buf.lbr
      → a.recv_buf.c_buf.curr_size ≤ b.recv_buf.c_buf.curr_size
      → b.recv_buf.fin ≡ a.recv_buf.fin
      → Grown b c
      → Grown a c
  Grown-trans {a} {b} {c} l m f g = record {
    unread = g.unread ∙ l;
    more = le_trans m g.more;
    order =
        subst
          (λ k.
            (Received S c.recv_buf × (c.recv_buf.fin ≡ k))
            ⊎ ((r0 : RecvBuf) × Received S r0 × Consumed k r0 c.recv_buf))
          f g.order;
  }

  -- The draining loop ends, does not panic, and keeps the bytes in order.
  pub drain-Grown :
      (fuel : ℕ) (c : Conn)
      → Received S c.recv_buf
      → length c.recv_buf.early_arrivals < fuel
      → (c' : Conn) × (drain fuel c ≡ some c') × Grown c c'
  unfolding drain
  drain-Grown zero c v h = absurd (omega arith)
  drain-Grown (suc fuel) c v h = elim (Option-cases (peek c.recv_buf.early_arrivals)) [
    | inl e ↦ (handle_early_fin c, rw (e, drain), handle_early_fin-Grown c v)
    | inr (x, e) ↦
        elim (Bool-cases
          (x.start_seq == c.recv_buf.nxt && leb (length x.bytes) (free_space c.recv_buf.c_buf))) [
            | inr stop ↦ (c, rw (e, stop, drain), Grown-refl c v)
            | inl go ↦
                let step = take_first-Received S c x v e (ground arith) (ground arith) in
                let rest = drain-Grown fuel step.0 step.2 (omega (arith, step.3)) in
                (rest.0, rw (e, go, step.1, drain) rest.1, Grown-trans step.4 step.5 step.6 rest.2)
          ]
  ]
