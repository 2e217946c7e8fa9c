-- ===== src/Tcp/Send/Rto.antt =====
-- The retransmission timeout stays within its bounds, and the timer runs exactly while something
-- is in flight.
use mini_tls.Prelude.{
  ℕ, ◌≤◌, ◌<◌, ◌≡◌, refl, sym, ap, subst, ◌≢◌, inl, inr, Option, none, some, List, [], ◌∷◌, ◌++◌,
  arith, leb, Bool-cases, All, add32,
}
use mini_tls.Tcp.Output.{enqueue_retrans, stop_timer, timer_if_empty}
use mini_tls.Tcp.Send.{Floats, ack_queue, pop_acked, rearm, sample, update_rto}
use mini_tls.Tcp.Types.{
  RetransEntry, RetransQueue, Timer, rto_max, rto_min, running, stopped, unset,
}

abbrev pub IsBounded : RetransQueue → Type 0
IsBounded q = (rto_min ≤ q.rto) × (q.rto ≤ rto_max)

-- Whatever the rounding of the floats does, a new sample leaves the timeout between the bounds.
pub update_rto-IsBounded :
    (fl : Floats) (q : RetransQueue) (rtt : ℕ) → IsBounded (update_rto fl q rtt)
unfolding update_rto
update_rto-IsBounded fl q rtt = omega arith

-- The timer runs if, and only if, the queue holds a segment.
abbrev pub IsArmed : List RetransEntry → Timer → Type 0
IsArmed [] (running d) = ⊥
IsArmed [] _ = Unit
IsArmed (x ∷ xs) (running d) = Unit
IsArmed (x ∷ xs) _ = ⊥

pub record QueueInv (q : RetransQueue) : Type 0 where
  pub bounded : IsBounded q
  pub armed : IsArmed q.array q.timer

IsArmed-append :
    (xs : List RetransEntry) (x : RetransEntry) (d : ℕ) (t : Timer)
    → IsArmed xs t
    → IsArmed (xs ++ (x ∷ [])) (timer_if_empty xs (running d) t)
IsArmed-append [] x d t a = tt
IsArmed-append (y ∷ xs) x d (running e) a = tt
IsArmed-append (y ∷ xs) x d unset a = absurd a
IsArmed-append (y ∷ xs) x d stopped a = absurd a

-- Putting a segment on the queue starts the timer if need be.
pub enqueue_retrans-QueueInv :
    {q : RetransQueue} (x : RetransEntry) → QueueInv q → QueueInv (enqueue_retrans q x)
enqueue_retrans-QueueInv {q} x v = record {
  bounded = v.bounded;
  armed = IsArmed-append q.array x q.rto q.timer v.armed;
}

sample-IsBounded :
    (fl : Floats) (now : ℕ) (last : Option RetransEntry) (q : RetransQueue)
    → IsBounded q
    → IsBounded (sample fl now last q)
      × ((sample fl now last q).array ≡ q.array)
      × ((sample fl now last q).timer ≡ q.timer)
unfolding sample update_rto
sample-IsBounded fl now none q b = (b, refl, refl)
sample-IsBounded fl now (some x) q b = ground arith

IsArmed-rearm :
    (xs : List RetransEntry) (d : ℕ) → IsArmed xs (timer_if_empty xs stopped (running d))
IsArmed-rearm [] d = tt
IsArmed-rearm (x ∷ xs) d = tt

rearm-QueueInv : (q : RetransQueue) → IsBounded q → q.timer ≡ stopped → QueueInv (rearm q)
unfolding rearm
rearm-QueueInv q b e = record {
  bounded = b;
  armed =
      subst (λ t. IsArmed q.array (timer_if_empty q.array t (running q.rto))) (sym e)
        (IsArmed-rearm q.array q.rto);
}

stop_running :
    (xs : List RetransEntry) (t : Timer) → IsArmed xs t → xs ≢ [] → stop_timer t ≡ some stopped
stop_running [] t a h = absurd (h refl)
stop_running (x ∷ xs) (running d) a h = refl
stop_running (x ∷ xs) unset a h = absurd a
stop_running (x ∷ xs) stopped a h = absurd a

pub ack_queue_popped :
    (fl : Floats) (now ack : ℕ) (q : RetransQueue)
    → QueueInv q
    → q.array ≢ []
    → (q' : RetransQueue) × (ack_queue fl now ack q ≡ some q')
      × QueueInv q'
      × (q'.array ≡ (pop_acked ack q.array none).1)
unfolding ack_queue
ack_queue_popped fl now ack q v h =
    let popped = pop_acked ack q.array none in
    let q1 = record q { timer = stopped; array = popped.1 } in
    let s = sample-IsBounded fl now popped.0 q1 v.bounded in
    let q2 = sample fl now popped.0 q1 in
    (rearm q2, rw (stop_running q.array q.timer v.armed h), rearm-QueueInv q2 s.0 s.2, s.1)

-- The segment ends at or before the number.
abbrev pub IsAcked : ℕ → RetransEntry → Type 0
IsAcked ack x = add32 x.seq_num x.len ≤ ack

-- The first of them is not acknowledged.
abbrev pub StartsUnacked : ℕ → List RetransEntry → Type 0
StartsUnacked ack [] = Unit
StartsUnacked ack (x ∷ xs) = ack < add32 x.seq_num x.len

-- What an acknowledgment leaves of a queue: acknowledged segments are gone from its front, up to the
-- first that is not.
pub record Popped (ack : ℕ) (before after : List RetransEntry) : Type 0 where
  pub gone : List RetransEntry
  pub split : before ≡ gone ++ after
  pub acked : All (IsAcked ack) gone
  pub stops : StartsUnacked ack after

pop_acked-Popped :
    (ack : ℕ) (xs : List RetransEntry) (last : Option RetransEntry)
    → Popped ack xs (pop_acked ack xs last).1
unfolding pop_acked
pop_acked-Popped ack [] last = record { gone = []; split = refl; acked = tt; stops = tt }
pop_acked-Popped ack (x ∷ xs) last = elim (Bool-cases (leb (add32 x.seq_num x.len) ack)) [
  | inl old ↦
      let rest = pop_acked-Popped ack xs (some x) in
      let end : add32 x.seq_num x.len ≤ ack = ground (arith, old) in
      rw old (record {
        gone = x ∷ rest.gone;
        split = ap (◌∷◌ x) rest.split;
        acked = (end, rest.acked);
        stops = rest.stops;
      })
  | inr new ↦
      let left : ack < add32 x.seq_num x.len = ground (arith, new) in
      rw new (record { gone = []; split = refl; acked = tt; stops = left })
]

-- With something in flight an acknowledgment of new data finds a timer to stop. It takes segments that
-- end at or before its number off the front of the queue, until one does not, keeps the timeout between
-- its bounds, and leaves the timer running exactly if segments are left.
pub ack_queue-QueueInv :
    (fl : Floats) (now ack : ℕ) (q : RetransQueue)
    → QueueInv q
    → q.array ≢ []
    → (q' : RetransQueue) × (ack_queue fl now ack q ≡ some q')
      × QueueInv q'
      × Popped ack q.array q'.array
ack_queue-QueueInv fl now ack q v h =
    let r = ack_queue_popped fl now ack q v h in
    (r.0, r.1, r.2, subst (Popped ack q.array) (sym r.3) (pop_acked-Popped ack q.array none))
