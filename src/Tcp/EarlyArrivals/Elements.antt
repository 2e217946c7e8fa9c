-- ===== src/Tcp/EarlyArrivals/Elements.antt =====
-- The heap operations only move elements: what holds of all of them goes on to hold, `PopMin` takes
-- the element that `Peek` shows, and the lengths are right.
use mini_tls.Prelude.{
  ℕ, zero, suc, ◌+◌, ◌-◌, ◌*◌, ◌/◌, ◌<◌, ◌≡◌, ◌≢◌, inl, inr, refl, ◌∙◌, not, some, List, [], ◌∷◌,
  length, take, All, All-get_elem?, All-set, All-append, All-take, length-set, length-take,
  get_elem?-set, get_elem?-within, get_elem?, set, leb, ◌==◌, ◌||◌, arith, Bool-cases, Option-cases,
  add32,
}
use mini_tls.Tcp.Types.{EarlyArrival}
use mini_tls.Tcp.EarlyArrivals.{
  child, EarlyArrivals, less, swap, up, down, heap_pop, push_segment, peek, pop_min,
}

module _ (P : EarlyArrival → Type 0) where
  swap-All : (h : EarlyArrivals) (i j : ℕ) → All P h → All P (swap h i j)
  unfolding swap
  swap-All h i j a = elim (Option-cases (get_elem? h i)) [
    | inl e ↦ rw (e, swap) a
    | inr (x, e) ↦ elim (Option-cases (get_elem? h j)) [
      | inl f ↦ rw (e, f, swap) a
      | inr (y, f) ↦
          rw (e, f, swap)
            (All-set P (set h i y) j x (All-set P h i y a (All-get_elem? P h j y a f))
              (All-get_elem? P h i x a e))
    ]
  ]

  up-All : (fuel : ℕ) (h : EarlyArrivals) (j : ℕ) → All P h → All P (up fuel h j)
  unfolding up
  up-All zero h j a = a
  up-All (suc fuel) h j a = elim (Bool-cases ((j - 1) / 2 == j || not (less h j ((j - 1) / 2)))) [
    | inl e ↦ rw e a
    | inr e ↦
        rw e (up-All fuel (swap h ((j - 1) / 2) j) ((j - 1) / 2) (swap-All h ((j - 1) / 2) j a))
  ]

  down-All : (fuel : ℕ) (h : EarlyArrivals) (i n : ℕ) → All P h → All P (down fuel h i n)
  unfolding down
  down-All zero h i n a = a
  down-All (suc fuel) h i n a =
      let j = child h (2 * i + 1) n in
      elim (Bool-cases (leb n (2 * i + 1))) [
        | inl e ↦ rw e a
        | inr e ↦ elim (Bool-cases (not (less h j i))) [
          | inl f ↦ rw (e, f) a
          | inr f ↦ rw (e, f) (down-All fuel (swap h i j) j n (swap-All h i j a))
        ]
      ]

  -- A predicate of the new segment and of all in the heap holds of all in the new heap.
  pub push_segment-All :
      (h : EarlyArrivals) (seq : ℕ) (bytes : List ℕ)
      → All P h
      → P (record { start_seq = seq; end_seq = add32 seq (length bytes); bytes = bytes })
      → All P (push_segment h seq bytes)
  unfolding push_segment
  push_segment-All h seq bytes a p = elim (Bool-cases (length bytes == 0)) [
    | inl e ↦ rw e a
    | inr e ↦ rw e (up-All (suc (length h)) _ (length h) (All-append P h _ a (p, tt)))
  ]

pub length-swap : (h : EarlyArrivals) (i j : ℕ) → length (swap h i j) ≡ length h
unfolding swap
length-swap h i j = elim (Option-cases (get_elem? h i)) [
  | inl e ↦ rw (e, swap)
  | inr (x, e) ↦ elim (Option-cases (get_elem? h j)) [
    | inl f ↦ rw (e, f, swap)
    | inr (y, f) ↦ rw (e, f, swap) (length-set (set h i y) j x ∙ length-set h i y)
  ]
]

pub length-down : (fuel : ℕ) (h : EarlyArrivals) (i n : ℕ) → length (down fuel h i n) ≡ length h
unfolding down
length-down zero h i n = refl
length-down (suc fuel) h i n =
    let j = child h (2 * i + 1) n in
    ground (arith, length-down fuel (swap h i j) j n, length-swap h i j)

-- Elements at other indices stay.
get_elem?-swap_ne :
    (h : EarlyArrivals) (i j k : ℕ) → i ≢ k → j ≢ k → get_elem? (swap h i j) k ≡ get_elem? h k
unfolding swap
get_elem?-swap_ne h i j k p q = elim (Option-cases (get_elem? h i)) [
  | inl e ↦ rw (e, swap)
  | inr (x, e) ↦ elim (Option-cases (get_elem? h j)) [
    | inl f ↦ rw (e, f, swap)
    | inr (y, f) ↦
        rw (e, f, swap) (ground (arith, get_elem?-set (set h i y) j k x, get_elem?-set h i k y))
  ]
]

pub child-lt : (h : EarlyArrivals) (left n : ℕ) → left < n → child h left n < n
unfolding child
child-lt h left n p = ground arith

-- `down` stays below its bound.
get_elem?-down :
    (fuel : ℕ) (h : EarlyArrivals) (i n : ℕ) → i < n → get_elem? (down fuel h i n) n ≡ get_elem? h n
unfolding down
get_elem?-down zero h i n p = refl
get_elem?-down (suc fuel) h i n p =
    let j = child h (2 * i + 1) n in
    ground (
      arith,
      child-lt h (2 * i + 1) n,
      get_elem?-down fuel (swap h i j) j n,
      get_elem?-swap_ne h i j n,
    )

get_elem?-swap_root :
    (h : EarlyArrivals) (n : ℕ) {x : EarlyArrival}
    → get_elem? h 0 ≡ some x
    → n < length h
    → get_elem? (swap h 0 n) n ≡ some x
unfolding swap
get_elem?-swap_root h n {x} e p =
    let (y, f) = get_elem?-within h n p in
    rw (e, f, swap) (ground (arith, get_elem?-set (set h 0 y) n n x, length-set h 0 y))

root_at_end :
    (h : EarlyArrivals) (n : ℕ) {x : EarlyArrival}
    → get_elem? h 0 ≡ some x
    → n < length h
    → get_elem? (down n (swap h 0 n) 0 n) n ≡ some x
unfolding down
root_at_end h zero e p = get_elem?-swap_root h 0 e p
root_at_end h (suc n) e p =
    get_elem?-down (suc n) (swap h 0 (suc n)) 0 (suc n) (omega arith)
    ∙ get_elem?-swap_root h (suc n) e p

pub heap_pop_lem :
    (h : EarlyArrivals) (n : ℕ) {x : EarlyArrival}
    → length h ≡ n + 1
    → get_elem? h 0 ≡ some x
    → heap_pop h ≡ some (x, take n (down n (swap h 0 n) 0 n))
unfolding heap_pop
heap_pop_lem h n l e =
    let s : length h - 1 ≡ n = omega arith in
    rw (s, root_at_end h n e (omega arith), heap_pop) (rw s)

-- Of a heap that shows an element, `PopMin` takes that element and leaves one fewer; a predicate
-- of all in the heap holds of it and of all that are left.
pub pop_min_lem :
    (P : EarlyArrival → Type 0) (h : EarlyArrivals) {x : EarlyArrival}
    → peek h ≡ some x
    → All P h
    → (rest : EarlyArrivals) × (pop_min h ≡ some (x, rest))
      × (length rest + 1 ≡ length h)
      × All P rest
      × P x
unfolding pop_min
pop_min_lem P [] e a = cc
pop_min_lem P (y ∷ h) {x} e a = (
  take (length h) moved,
  ground (arith, heap_pop_lem (y ∷ h) n {x = x} (omega arith) e),
  omega (arith, length-take n moved, length-down n (swap (y ∷ h) 0 n) 0 n, length-swap (y ∷ h) 0 n),
  All-take P (length h) moved (down-All P n (swap (y ∷ h) 0 n) 0 n (swap-All P (y ∷ h) 0 n a)),
  All-get_elem? P (y ∷ h) 0 x a e,
)
  where
    n : ℕ
    n = length h

    moved : EarlyArrivals
    moved = down n (swap (y ∷ h) 0 n) 0 n
