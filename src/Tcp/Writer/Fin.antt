-- ===== src/Tcp/Writer/Fin.antt =====
-- `VClose` with everything acknowledged.
use mini_tls.Prelude.{
  ℕ, ◌+◌, ◌<◌, ◌≡◌, refl, ap, ◌∙◌, true, false, [], ◌∷◌, ◌++◌, arith, ltb, leb, u32_mod, add32,
}
use mini_tls.Tcp.Output.{header}
use mini_tls.Tcp.Send.Ack.{can_send, close_on-can_send}
use mini_tls.Tcp.Send.Fin.{Awaits}
use mini_tls.Tcp.Send.Rto.{QueueInv, enqueue_retrans-QueueInv}
use mini_tls.Tcp.Types.{Conn, RetransEntry, SendRequest, TcpFields, flag_fin_ack}
use mini_tls.Tcp.Writer.{CloseResult, close_round, fin_state, send_fin, vclose}

-- The request that carries a segment without data.
abbrev pub bare : Conn → TcpFields → SendRequest
bare c hdr = record {
  tcp_header = hdr;
  payload = [];
  source_ip = c.entry.local_ip;
  dest_ip = c.entry.dest_ip;
}

-- Everything that was written has been sent and acknowledged.
pub record Idle (c : Conn) : Type 0 where
  pub acked : c.send_buf.una ≡ c.send_buf.nxt
  pub written : c.send_buf.lbw + 1 ≡ c.send_buf.nxt
  pub word : c.send_buf.nxt + 1 < u32_mod
  pub in_step : c.entry.seq_num ≡ c.send_buf.nxt
  pub quiet : c.retrans_queue.array ≡ []
  pub queue : QueueInv c.retrans_queue
  pub up : c.torn_down ≡ false

-- `VClose` on an idle connection sends a FIN with the next number, and waits for its answer in
-- FIN_WAIT_1, or in LAST_ACK on the passive side.
pub vclose-Awaits :
    (now : ℕ) (c : Conn)
    → Idle c
    → can_send c.entry.state ≡ true
    → let fin = header c c.entry.seq_num c.recv_buf.nxt flag_fin_ack in
      (c' : Conn) × (vclose now c ≡ CloseResult.fin_sent c')
      × (c'.entry.state ≡ fin_state c.entry.state)
      × (c'.entry.requests ≡ c.entry.requests ++ (bare c fin ∷ []))
      × (c'.recv_buf ≡ c.recv_buf)
      × (c'.entry.seq_num ≡ c.send_buf.nxt + 1)
      × Awaits c' c.send_buf.nxt
unfolding vclose close_round send_fin
vclose-Awaits now c v can =
    let s = c.send_buf in
    let acked : leb s.nxt s.una ≡ true = ground (arith, v.acked) in
    let sent : ltb s.lbw s.nxt ≡ true = ground (arith, v.written) in
    let fin_entry : RetransEntry = record {
      seq_num = c.entry.seq_num;
      len = 0;
      flags = flag_fin_ack;
      sent = now;
      retransmitted = false;
      num_retransmits = 0;
    } in
    let next : add32 s.nxt 1 ≡ s.nxt + 1 = omega (arith, v.word) in
    (
      send_fin now c,
      close_on-can_send c.entry.state _ can ∙ rw (acked, sent) refl,
      refl,
      refl,
      refl,
      next,
      record {
        una = v.acked;
        nxt = next;
        word = v.word;
        queue = enqueue_retrans-QueueInv _ v.queue;
        entry = fin_entry;
        flight = ap (λ l. l ++ (fin_entry ∷ [])) v.quiet;
        is_fin = (v.in_step, refl);
        up = v.up;
      },
    )
