-- ===== src/Tcp/Send.antt =====
-- The sending side: `handlePureAck`, `sendLoop` and the retransmissions of
-- pkg/tcpStack/doTcp.go. A time is an argument of the step.
pub mod Rto
pub mod Window
pub mod Rounds
pub mod Flight
pub mod Ack
pub mod Retransmit
pub mod Fin
use mini_tls.Prelude.{
  ℕ, zero, suc, ◌+◌, ◌-◌, ◌*◌, min, max, Bool, true, false, not, ◌&&◌, ◌||◌, Option, none, some,
  List, [], ◌∷◌, ltb, leb, ◌==◌, if◌then◌else◌, ◌>>=◌, add32, sub32,
}
use mini_tls.Tcp.CircleBuf.{advance_base, slice_from}
use mini_tls.Tcp.Output.{
  close, enqueue_retrans, send_segment, set_state, start_rto_timer, stop_timer, timer_if_empty,
}
use mini_tls.Tcp.Types.{
  Conn, RetransEntry, RetransQueue, SendBuf, State, TcpFields, bytes_in_flight, fin_wait_1,
  fin_wait_2, flag_ack, last_ack, max_retransmissions, max_seg_size, rto_max, rto_min, running,
  stopped,
}

-- The two roundings of float64 that the timeout goes through: `0.85 * srtt + 0.15 * rtt` and
-- `1.65 * srtt`, in nanoseconds.
pub record Floats : Type 0 where
  pub smooth : ℕ → ℕ → ℕ
  pub stretch : ℕ → ℕ

-- `computeNewSrtt`
abbrev pub compute_new_srtt : Floats → RetransQueue → ℕ → ℕ
compute_new_srtt fl q rtt = if q.srtt == 0 then rtt else fl.smooth q.srtt rtt

-- `updateRto`
pub update_rto : Floats → RetransQueue → ℕ → RetransQueue
update_rto fl q rtt =
    let srtt = compute_new_srtt fl q rtt in
    record q { srtt = srtt; rto = max rto_min (min (fl.stretch srtt) rto_max) }

-- The loop of `handlePureAck` over the queue: the entries that end at or before the number are
-- popped, and the last of them is kept.
pub pop_acked :
    ℕ → List RetransEntry → Option RetransEntry → Option RetransEntry × List RetransEntry
pop_acked ack [] last = (last, [])
pop_acked ack (x ∷ xs) last =
    let rest = pop_acked ack xs (some x) in
    if leb (add32 x.seq_num x.len) ack then rest else (last, x ∷ xs)

-- Karn: a segment that was sent again gives no sample.
pub sample : Floats → ℕ → Option RetransEntry → RetransQueue → RetransQueue
sample fl now none q = q
sample fl now (some x) q = if x.retransmitted then q else update_rto fl q (now - x.sent)

pub rearm : RetransQueue → RetransQueue
rearm q = record q { timer = timer_if_empty q.array q.timer (start_rto_timer q) }

-- The queue after an acknowledgment of new data.
pub ack_queue : Floats → ℕ → ℕ → RetransQueue → Option RetransQueue
unfolding pop_acked sample rearm
ack_queue fl now ack q = do
  timer ← stop_timer q.timer
  let popped = pop_acked ack q.array none
  some (rearm (sample fl now popped.0 (record q { timer = timer; array = popped.1 })))

-- The branch of a probe that was taken: one byte beyond `nxt`.
abbrev pub ack_probe : Conn → TcpFields → Conn
ack_probe c seg =
    let s = c.send_buf in
    record c {
      send_buf = record s {
        other_side_window = seg.window_size;
        una = seg.ack_num;
        nxt = seg.ack_num;
        c_buf = advance_base s.c_buf (sub32 seg.ack_num s.una);
        space_available = true;
        window_updated = true;
      };
      entry = record (c.entry) { seq_num = seg.ack_num };
    }

-- The end of `handlePureAck`: probing starts at a closed window with data to send.
abbrev pub trigger_probe : Conn → Conn
trigger_probe c =
    let s = c.send_buf in
    let probe = s.other_side_window == 0 && leb s.nxt s.lbw && not s.is_probing in
    record c {
      send_buf = record s {
        is_probing = s.is_probing || probe;
        zwp_trigger = s.zwp_trigger || probe;
        window_updated = true;
      };
    }

-- The states after the acknowledgment of a FIN; `none` is a panic of `teardown`.
abbrev pub after_ack : State → Bool → Conn → Option Conn
after_ack fin_wait_1 true c =
    let c' = set_state c fin_wait_2 in
    some (trigger_probe (record c' { send_buf = record (c'.send_buf) { space_available = true } }))
after_ack last_ack true c = close c
after_ack _ _ c =
    some (trigger_probe (record c { send_buf = record (c.send_buf) { space_available = true } }))

-- The branch of new data: `una` moves up, and the ring and the queue with it.
pub ack_new : Floats → ℕ → Conn → TcpFields → Option Conn
unfolding ack_queue
ack_new fl now c seg = do
  let s = c.send_buf
  let s' = record s {
    other_side_window = seg.window_size;
    una = seg.ack_num;
    c_buf = advance_base s.c_buf (sub32 seg.ack_num s.una);
  }
  queue ← ack_queue fl now seg.ack_num c.retrans_queue
  after_ack c.entry.state (seg.ack_num == s.nxt) (record c { send_buf = s'; retrans_queue = queue })

-- `handlePureAck`. `HandleTCP` calls it for connections on the table only, from which `teardown` has
-- taken those whose channels are closed, so it signals on open ones.
unfoldable pub handle_pure_ack : Floats → ℕ → Conn → TcpFields → Option Conn
unfolding ack_new
handle_pure_ack fl now c seg =
    let s = c.send_buf in
    if ltb s.nxt seg.ack_num
    then some (if s.is_probing && (seg.ack_num == add32 s.nxt 1) then ack_probe c seg else c)
    else if ltb s.una seg.ack_num
    then ack_new fl now c seg
    else some (record c { send_buf = record s { other_side_window = seg.window_size } })

-- What a round of the inner loop of `sendLoop` ends in: the next round, the wait for data, the
-- wait for an answer to a probe or its timer, the wait for a larger window.
pub data Next : Type 0 where
  again no_data probe_wait window_wait : Next

-- The zero-window probe: one byte from `una` on, outside the retransmission queue.
unfoldable pub send_probe : Conn → Option (Conn × Next)
send_probe c = do
  byte ← slice_from c.send_buf.c_buf c.send_buf.una 1
  let c' = record c { send_buf = record (c.send_buf) { is_probing = true } }
  some (send_segment c' byte c.send_buf.una flag_ack, probe_wait)

-- The connection once a segment with some bytes from `nxt` on was sent.
abbrev pub data_sent : ℕ → Conn → ℕ → List ℕ → Conn
data_sent now c n bytes =
    let seq = c.entry.seq_num in
    let c' =
      send_segment (record c { send_buf = record (c.send_buf) { is_probing = false } }) bytes seq
        flag_ack in
    let nxt = add32 c.send_buf.nxt n in
    record c' {
      retrans_queue = enqueue_retrans c.retrans_queue (record {
        seq_num = seq;
        len = n;
        flags = flag_ack;
        sent = now;
        retransmitted = false;
        num_retransmits = 0;
      });
      send_buf = record (c'.send_buf) { nxt = nxt };
      entry = record (c'.entry) { seq_num = nxt };
    }

-- A segment of `n` bytes from `nxt` on.
unfoldable pub send_data : ℕ → Conn → ℕ → Option (Conn × Next)
send_data now c n = do
  bytes ← slice_from c.send_buf.c_buf c.send_buf.nxt n
  some (data_sent now c n bytes, again)

-- How many bytes the next segment has: what is there, cut to the window and to the segment size.
abbrev pub sendable : SendBuf → ℕ
sendable s =
    min (min (add32 (sub32 s.lbw s.nxt) 1) (s.other_side_window - bytes_in_flight s)) max_seg_size

-- A round of the inner loop of `sendLoop`.
unfoldable pub send_round : ℕ → Conn → Option (Conn × Next)
unfolding send_probe send_data
send_round now c =
    let s = c.send_buf in
    if ltb s.lbw s.nxt
    then some (c, no_data)
    else if leb s.other_side_window (bytes_in_flight s)
    then (if (s.other_side_window == 0) && leb s.nxt s.lbw && (bytes_in_flight s == 0)
        then send_probe c
        else some (c, window_wait))
    else send_data now c (sendable s)

-- The rounds until one waits; `none` is a panic, or fuel that ran out.
unfoldable pub send_rounds : ℕ → ℕ → Conn → Option (Conn × Next)
send_rounds zero now c = none
send_rounds (suc fuel) now c = send_round now c >>= λ r. elim r.1 [
  | again ↦ send_rounds fuel now r.0
  | next ↦ some (r.0, next)
]

-- The head of the queue as it is sent again.
abbrev pub marked : RetransEntry → RetransEntry
marked x = record x { retransmitted = true; num_retransmits = x.num_retransmits + 1 }

-- The part of `retransmitSegment` that sends: the timeout doubles, and the timer starts anew.
pub resend : Conn → RetransEntry → List RetransEntry → Option Conn
resend c x xs = do
  bytes ← slice_from c.send_buf.c_buf x.seq_num x.len
  let rto = min (c.retrans_queue.rto * 2) rto_max
  some (record (send_segment c bytes x.seq_num x.flags) {
    retrans_queue = record (c.retrans_queue) {
      array = marked x ∷ xs;
      rto = rto;
      timer = running rto;
    };
  })

-- `retransmitSegment` on the array of the queue. An empty one is read out of range.
abbrev pub retransmit : Conn → List RetransEntry → Option Conn
retransmit c [] = none
retransmit c (x ∷ xs) =
    if ltb max_retransmissions (x.num_retransmits + 1)
    then close (record c {
      retrans_queue = record (c.retrans_queue) { array = marked x ∷ xs; timer = stopped };
    })
    else resend c x xs

-- `retransmitSegment`, which the timer runs.
unfoldable pub retransmit_segment : Conn → Option Conn
unfolding resend
retransmit_segment c = retransmit c c.retrans_queue.array
