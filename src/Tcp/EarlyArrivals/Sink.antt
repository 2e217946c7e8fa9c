-- ===== src/Tcp/EarlyArrivals/Sink.antt =====
-- The loop of `down`, which restores the order of the heap after an element went to the root.
use mini_tls.Prelude.{
  ℕ, zero, suc, ◌+◌, ◌-◌, ◌*◌, ◌/◌, ◌≤◌, ◌<◌, ◌≡◌, sym, subst, ◌≢◌, inl, inr, not, arith, leb, ◌==◌,
  Bool-cases, ==→eq, length,
}
use mini_tls.Tcp.EarlyArrivals.{EarlyArrivals, child, down, less, swap}
use mini_tls.Tcp.EarlyArrivals.Elements.{length-swap}
use mini_tls.Tcp.EarlyArrivals.Rise.{IsHeap, less_lem, start_at, start_at-swap}

-- What the loop of `down` keeps at index `i`: the order but for `i` and its children.
pub record Sinking (h : EarlyArrivals) (i n : ℕ) : Type 0 where
  pub rest : (k : ℕ) → 0 < k → k < n → (k - 1) / 2 ≢ i → start_at h ((k - 1) / 2) ≤ start_at h k
  pub over :
      (k : ℕ) → 0 < k → k < n → (k - 1) / 2 ≡ i → 0 < i → start_at h ((i - 1) / 2) ≤ start_at h k

-- The lesser child.
child_lem :
    (h : EarlyArrivals) (i n k : ℕ)
    → n ≤ length h
    → 2 * i + 1 < n
    → 0 < k
    → k < n
    → (k - 1) / 2 ≡ i
    → start_at h (child h (2 * i + 1) n) ≤ start_at h k
unfolding child
child_lem h i n k all left lo hi is =
    let test = less_lem h (2 * i + 1 + 1) (2 * i + 1) in ground (arith, test, all, left, lo, hi, is)

child_parent : (h : EarlyArrivals) (i n : ℕ) → (child h (2 * i + 1) n - 1) / 2 ≡ i
unfolding child
child_parent h i n = ground arith

child_bounds :
    (h : EarlyArrivals) (i n : ℕ)
    → 2 * i + 1 < n
    → (i < child h (2 * i + 1) n) × (child h (2 * i + 1) n < n)
unfolding child
child_bounds h i n left = (ground (arith, left), ground (arith, left))

swap-Sinking :
    (h : EarlyArrivals) (i j n : ℕ)
    → n ≤ length h
    → i < j
    → j < n
    → (j - 1) / 2 ≡ i
    → ((k : ℕ) → 0 < k → k < n → (k - 1) / 2 ≡ i → start_at h j ≤ start_at h k)
    → start_at h j < start_at h i
    → Sinking h i n
    → Sinking (swap h i j) j n
swap-Sinking h i j n all below within parent least lt v =
    let at = λ (k : ℕ). start_at-swap h i j k (omega arith) (omega arith) in
    record {
      rest = λ k lo hi ne. ground (
        arith,
        at k,
        at ((k - 1) / 2),
        v.rest k,
        v.over j,
        least k,
        lo,
        hi,
        ne,
        lt,
        parent,
        below,
        within,
      );
      over = λ k lo hi is pos.
          ground (arith, at k, at ((j - 1) / 2), v.rest k, lo, hi, is, parent, below, within);
    }

-- Nothing is above its children any more.
sunk :
    (h : EarlyArrivals) (i n : ℕ)
    → Sinking h i n
    → ((k : ℕ) → 0 < k → k < n → (k - 1) / 2 ≡ i → start_at h i ≤ start_at h k)
    → IsHeap n h
unfolding IsHeap
sunk h i n v last = λ k lo hi. elim (Bool-cases ((k - 1) / 2 == i)) [
  | inl e ↦
      let is = ==→eq ((k - 1) / 2) i e in
      subst (λ m. start_at h m ≤ start_at h k) (sym is) (last k lo hi is)
  | inr e ↦ v.rest k lo hi (ground arith)
]

pub down-IsHeap :
    (fuel : ℕ) (h : EarlyArrivals) (i n : ℕ)
    → n ≤ fuel + i
    → n ≤ length h
    → Sinking h i n
    → IsHeap n (down fuel h i n)
unfolding down
down-IsHeap zero h i n enough all v = sunk h i n v (λ k lo hi is. absurd (omega arith))
down-IsHeap (suc fuel) h i n enough all v =
    let j = child h (2 * i + 1) n in
    elim (Bool-cases (leb n (2 * i + 1))) [
      | inl leaf ↦ rw leaf (sunk h i n v (λ k lo hi is. absurd (ground (arith, leaf))))
      | inr inner ↦
          let left : 2 * i + 1 < n = ground (arith, inner) in
          let b = child_bounds h i n left in
          let least = λ (k : ℕ). child_lem h i n k all left in
          let test = less_lem h j i (omega arith) (omega arith) in
          elim (Bool-cases (not (less h j i))) [
            | inl stop ↦
                rw (inner, stop)
                  (sunk h i n v (λ k lo hi is. ground (arith, stop, test, least k lo hi is)))
            | inr go ↦
                let lt : start_at h j < start_at h i = ground (arith, go, test) in
                rw (inner, go)
                  (down-IsHeap fuel (swap h i j) j n (omega arith)
                    (omega (arith, length-swap h i j, all))
                    (swap-Sinking h i j n all b.0 b.1 (child_parent h i n) least lt v))
          ]
    ]
