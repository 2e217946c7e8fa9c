-- ===== src/Tcp/Receive/Fin.antt =====
-- What an expected FIN does to a connection.
use mini_tls.Prelude.{◌≡◌, refl, ap, false, [], ◌∷◌, ◌++◌, arith, ltb, add32}
use mini_tls.Tcp.Output.{header}
use mini_tls.Tcp.Receive.{fin_received, handle_fin}
use mini_tls.Tcp.Types.{
  Conn, State, TcpFields, close_wait, established, fin_wait_1, fin_wait_2, flag_ack, time_wait,
}

-- The state after a FIN that was expected.
abbrev pub after_fin : State → State
after_fin established = close_wait
after_fin fin_wait_1 = time_wait
after_fin fin_wait_2 = time_wait
after_fin s = s

fin_received_lem :
    (s : State) (c : Conn)
    → c.entry.state ≡ s
    → ((fin_received s c).entry ≡ record (c.entry) { state = after_fin s })
      × ((fin_received s c).recv_buf.nxt ≡ c.recv_buf.nxt)
      × ((fin_received s c).send_buf ≡ c.send_buf)
      × ((fin_received s c).retrans_queue ≡ c.retrans_queue)
      × ((fin_received s c).torn_down ≡ c.torn_down)
fin_received_lem established c e = (refl, refl, refl, refl, refl)
fin_received_lem fin_wait_1 c e = (refl, refl, refl, refl, refl)
fin_received_lem fin_wait_2 c e = (refl, refl, refl, refl, refl)
fin_received_lem _ c e = (ap (λ s. record (c.entry) { state = s }) e, refl, refl, refl, refl)

-- The expected FIN is acknowledged with the number behind it, and the state follows; the sending side
-- stays as it was.
pub handle_fin_expected :
    (c : Conn) (hdr : TcpFields)
    → hdr.seq_num ≡ c.recv_buf.nxt
    → let ack = add32 hdr.seq_num 1 in
      let c' = handle_fin c hdr in
      (c'.entry ≡ record (c.entry) {
        state = after_fin c.entry.state;
        requests =
            c.entry.requests
            ++ (record {
              tcp_header = header c c.entry.seq_num ack flag_ack;
              payload = [];
              source_ip = c.entry.local_ip;
              dest_ip = c.entry.dest_ip;
            }
                ∷ []);
      })
      × (c'.recv_buf.nxt ≡ ack)
      × (c'.send_buf ≡ c.send_buf)
      × (c'.retrans_queue ≡ c.retrans_queue)
      × (c'.torn_down ≡ c.torn_down)
unfolding handle_fin
handle_fin_expected c hdr e =
    let later : ltb c.recv_buf.nxt hdr.seq_num ≡ false = ground arith in
    let earlier : ltb hdr.seq_num c.recv_buf.nxt ≡ false = ground arith in
    rw (later, earlier) (fin_received_lem c.entry.state _ refl)
