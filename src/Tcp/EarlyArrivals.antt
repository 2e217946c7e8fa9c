-- ===== src/Tcp/EarlyArrivals.antt =====
-- pkg/tcpStack/earlyArrivals.go: the heap of segments that came too early, ordered by their first
-- sequence number, with the sift loops of `container/heap` that its methods serve.
pub mod Elements
pub mod Rise
pub mod Sink
pub mod Order
use mini_tls.Prelude.{
  ℕ, zero, suc, ◌+◌, ◌-◌, ◌*◌, ◌/◌, Bool, false, ◌&&◌, ◌||◌, not, Option, none, some, List, [], ◌∷◌,
  ◌++◌, length, take, get_elem?, set, ltb, leb, ◌==◌, if◌then◌else◌, add32,
}
use mini_tls.Tcp.Types.{EarlyArrival}

abbrev pub EarlyArrivals : Type 0
EarlyArrivals = List EarlyArrival

-- `Less`; an index out of range, at which Go panics, is no less. The loops stay in range.
pub less : EarlyArrivals → ℕ → ℕ → Bool
less h i j = elim (get_elem? h i) [
  | none ↦ false
  | some a ↦ elim (get_elem? h j) [ none ↦ false | some b ↦ ltb a.start_seq b.start_seq ]
]

-- `Swap`
pub swap : EarlyArrivals → ℕ → ℕ → EarlyArrivals
swap h i j = elim (get_elem? h i) [
  | none ↦ h
  | some a ↦ elim (get_elem? h j) [ none ↦ h | some b ↦ set (set h i b) j a ]
]

-- `up(h, j)` of container/heap. The index falls, so `j + 1` rounds are enough.
pub up : ℕ → EarlyArrivals → ℕ → EarlyArrivals
up zero h j = h
up (suc fuel) h j =
    let i = (j - 1) / 2 in
    let rest = up fuel (swap h i j) i in if i == j || not (less h j i) then h else rest

-- The lesser child of a node, of which `left` is in range.
pub child : EarlyArrivals → ℕ → ℕ → ℕ
child h left n = if ltb (left + 1) n && less h (left + 1) left then left + 1 else left

-- `down(h, i, n)`. The index grows, so `n` rounds are enough.
pub down : ℕ → EarlyArrivals → ℕ → ℕ → EarlyArrivals
down zero h i n = h
down (suc fuel) h i n =
    let j = child h (2 * i + 1) n in
    let rest = down fuel (swap h i j) j n in
    if leb n (2 * i + 1) then h else if not (less h j i) then h else rest

-- `heap.Push` over the method `Push`
pub heap_push : EarlyArrivals → EarlyArrival → EarlyArrivals
unfolding up swap less
heap_push h x = up (suc (length h)) (h ++ (x ∷ [])) (length h)

-- `heap.Pop` over the method `Pop`: the last element after the root went there.
pub heap_pop : EarlyArrivals → Option (EarlyArrival × EarlyArrivals)
unfolding down child swap less
heap_pop h =
    let n = length h - 1 in
    let h' = down n (swap h 0 n) 0 n in
    elim (get_elem? h' n) [ none ↦ none | some x ↦ some (x, take n h') ]

-- `PushSegment`
unfoldable pub push_segment : EarlyArrivals → ℕ → List ℕ → EarlyArrivals
unfolding heap_push
push_segment h start_seq bytes =
    if length bytes == 0
    then h
    else heap_push h
        (record { start_seq = start_seq; end_seq = add32 start_seq (length bytes); bytes = bytes })

-- `Peek`
abbrev pub peek : EarlyArrivals → Option EarlyArrival
peek h = get_elem? h 0

-- `PopMin`
unfoldable pub pop_min : EarlyArrivals → Option (EarlyArrival × EarlyArrivals)
unfolding heap_pop
pop_min h = if length h == 0 then none else heap_pop h
