-- ===== src/Tcp/Transfer.antt =====
-- Both ends of one direction of a connection: what the sender puts on the network, and what the
-- receiver's application reads of it.
use mini_tls.Prelude.{
  ℕ, ◌+◌, ◌-◌, ◌≤◌, ◌<◌, ◌≡◌, ◌⊎◌, true, false, some, List, [], ◌∷◌, length, u32_mod, add32,
}
use mini_tls.Tcp.Receive.Delivery.{Event, arrives, reads}
use mini_tls.Tcp.Send.{Floats, Next, handle_pure_ack, retransmit_segment, send_rounds}
use mini_tls.Tcp.Send.Ack.{Sender}
use mini_tls.Tcp.Send.Flight.{IsEnd}
use mini_tls.Tcp.Stream.{IsFrom}
use mini_tls.Tcp.Types.{Conn, RetransEntry, SendRequest, TcpFields, max_retransmissions}
use mini_tls.Tcp.Writer.{WriteResult, vwrite, vwrite_on}

-- The segment is one of those that were sent, or the event is a call of `VRead`.
abbrev pub IsCarried : List SendRequest → Event → Type 0
IsCarried [] (arrives coin hdr payload) = ⊥
IsCarried (r ∷ rs) (arrives coin hdr payload) =
    ((hdr ≡ r.tcp_header) × (payload ≡ r.payload)) ⊎ IsCarried rs (arrives coin hdr payload)
IsCarried rs (reads n) = Unit {0}

module _ (S : ℕ → ℕ) where
  -- The steps of a sender on an open connection: the application writes the next bytes of the stream,
  -- also after a wait, `sendLoop` goes round, the timer sends again within its limit, and
  -- acknowledgments come that end at a segment in flight, bring nothing new, answer a probe, or are of
  -- what was not sent. The numbers stay below 2 ^ 32.
  pub data Step : Conn → Conn → Type 0 where
    writes :
        {c c' : Conn} (bytes : List ℕ) (n : ℕ)
        → IsFrom S (add32 c.send_buf.lbw 1) bytes
        → c.send_buf.lbw + 1 + length bytes < u32_mod
        → vwrite c bytes ≡ some (WriteResult.wrote n c')
        → Step c c'
    writes_part :
        {c c' : Conn} (bytes left : List ℕ)
        → IsFrom S (add32 c.send_buf.lbw 1) bytes
        → c.send_buf.lbw + 1 + length bytes < u32_mod
        → vwrite c bytes ≡ some (WriteResult.blocked left c')
        → Step c c'
    resumes :
        {c c' : Conn} (bytes : List ℕ) (total n : ℕ)
        → IsFrom S (add32 c.send_buf.lbw 1) bytes
        → c.send_buf.lbw + 1 + length bytes < u32_mod
        → vwrite_on c bytes total ≡ some (WriteResult.wrote n c')
        → Step c c'
    resumes_part :
        {c c' : Conn} (bytes left : List ℕ) (total : ℕ)
        → IsFrom S (add32 c.send_buf.lbw 1) bytes
        → c.send_buf.lbw + 1 + length bytes < u32_mod
        → vwrite_on c bytes total ≡ some (WriteResult.blocked left c')
        → Step c c'
    sends :
        {c c' : Conn} (fuel now : ℕ) (next : Next)
        → c.send_buf.lbw + 1 - c.send_buf.nxt < fuel
        → send_rounds fuel now c ≡ some (c', next)
        → Step c c'
    hears_new :
        {c c' : Conn} (fl : Floats) (now : ℕ) (seg : TcpFields)
        → IsEnd seg.ack_num c.retrans_queue.array
        → handle_pure_ack fl now c seg ≡ some c'
        → Step c c'
    hears_old :
        {c c' : Conn} (fl : Floats) (now : ℕ) (seg : TcpFields)
        → seg.ack_num ≤ c.send_buf.una
        → handle_pure_ack fl now c seg ≡ some c'
        → Step c c'
    hears_unsent :
        {c c' : Conn} (fl : Floats) (now : ℕ) (seg : TcpFields)
        → c.send_buf.nxt < seg.ack_num
        → c.send_buf.is_probing ≡ false
        → handle_pure_ack fl now c seg ≡ some c'
        → Step c c'
    hears_probe :
        {c c' : Conn} (fl : Floats) (now : ℕ) (seg : TcpFields)
        → c.retrans_queue.array ≡ []
        → c.send_buf.is_probing ≡ true
        → c.send_buf.nxt ≤ c.send_buf.lbw
        → seg.ack_num ≡ c.send_buf.nxt + 1
        → handle_pure_ack fl now c seg ≡ some c'
        → Step c c'
    times_out :
        {c c' : Conn} (x : RetransEntry) (xs : List RetransEntry)
        → c.torn_down ≡ false
        → c.retrans_queue.array ≡ x ∷ xs
        → x.num_retransmits < max_retransmissions
        → retransmit_segment c ≡ some c'
        → Step c c'

  pub data Steps : Conn → Conn → Type 0 where
    no_step : {c : Conn} → Steps c c
    and_then : {a b c : Conn} → Steps a b → Step b c → Steps a c

  abbrev Keeps : WriteResult → Type 0
  Keeps WriteResult.closing = Unit {0}
  Keeps (WriteResult.blocked left c) = Sender S c
  Keeps (WriteResult.wrote n c) = Sender S c
