-- ===== src/Tcp/EarlyArrivals/Rise.antt =====
-- The order of the heap, and the loop of `up`, which restores it after an element came in.
use mini_tls.Prelude.{
  ℕ, zero, suc, ◌-◌, ◌/◌, ◌≤◌, ◌<◌, ◌≡◌, refl, sym, subst, ◌≢◌, inl, inr, not, ◌||◌, Option, none,
  some, arith, ltb, ◌==◌, if◌then◌else◌, Bool-cases, ==→eq, length, get_elem?, set, length-set,
  get_elem?-set, get_elem?-within,
}
use mini_tls.Tcp.EarlyArrivals.{EarlyArrivals, less, swap, up}
use mini_tls.Tcp.EarlyArrivals.Elements.{length-swap}
use mini_tls.Tcp.Types.{EarlyArrival}

-- The sequence number at an index.
abbrev pub start_of : Option EarlyArrival → ℕ
start_of none = 0
start_of (some a) = a.start_seq

abbrev pub start_at : EarlyArrivals → ℕ → ℕ
start_at h i = start_of (get_elem? h i)

-- Below `n`, no element starts before its parent.
unfoldable pub IsHeap : ℕ → EarlyArrivals → Type 0
IsHeap n h = (i : ℕ) → 0 < i → i < n → start_at h ((i - 1) / 2) ≤ start_at h i

pub less_lem :
    (h : EarlyArrivals) (i j : ℕ)
    → i < length h
    → j < length h
    → less h i j ≡ ltb (start_at h i) (start_at h j)
unfolding less
less_lem h i j p q =
    let a = get_elem?-within h i p in let b = get_elem?-within h j q in rw (a.1, b.1, less) refl

pub start_at-swap :
    (h : EarlyArrivals) (i j k : ℕ)
    → i < length h
    → j < length h
    → start_at (swap h i j) k
      ≡ (if k == j then start_at h i else if k == i then start_at h j else start_at h k)
unfolding swap
start_at-swap h i j k p q =
    let (a, e) = get_elem?-within h i p in
    let (b, f) = get_elem?-within h j q in
    rw (e, f, swap)
      (ground (
        arith,
        get_elem?-set (set h i b) j k a,
        get_elem?-set h i k b,
        length-set h i b,
        e,
        f,
        p,
        q,
      ))

-- What the loop of `up` keeps at index `j`: the order but for `j` and its parent.
pub record Rising (h : EarlyArrivals) (j : ℕ) : Type 0 where
  pub rest : (i : ℕ) → 0 < i → i < length h → i ≢ j → start_at h ((i - 1) / 2) ≤ start_at h i
  pub over :
      (i : ℕ)
      → 0 < i
      → i < length h
      → (i - 1) / 2 ≡ j
      → 0 < j
      → start_at h ((j - 1) / 2) ≤ start_at h i

swap-Rising :
    (h : EarlyArrivals) (j : ℕ)
    → 0 < j
    → j < length h
    → start_at h j < start_at h ((j - 1) / 2)
    → Rising h j
    → Rising (swap h ((j - 1) / 2) j) ((j - 1) / 2)
swap-Rising h j pos within lt v =
    let p = (j - 1) / 2 in
    let at = λ (k : ℕ). start_at-swap h p j k (omega arith) within in
    let size : length (swap h p j) ≡ length h = length-swap h p j in
    let up_p = v.rest p in
    record {
      rest = λ i lo hi ne.
          let hi' : i < length h = omega (arith, hi, size) in
          ground (arith, at i, at ((i - 1) / 2), v.rest i, v.over i, lo, hi', ne, lt, pos);
      over = λ i lo hi is lo_p.
          let hi' : i < length h = omega (arith, hi, size) in
          ground
            (arith, at i, at ((p - 1) / 2), v.rest i, up_p, lo, hi', is, lo_p, lt, pos, within);
    }

pub length-up : (fuel : ℕ) (h : EarlyArrivals) (j : ℕ) → length (up fuel h j) ≡ length h
unfolding up
length-up zero h j = refl
length-up (suc fuel) h j =
    let i = (j - 1) / 2 in ground (arith, length-up fuel (swap h i j) i, length-swap h i j)

-- Nothing is below its parent any more.
risen :
    (h : EarlyArrivals) (j : ℕ)
    → Rising h j
    → (0 < j → start_at h ((j - 1) / 2) ≤ start_at h j)
    → IsHeap (length h) h
unfolding IsHeap
risen h j v last = λ i lo hi. elim (Bool-cases (i == j)) [
  | inl e ↦
      subst (λ k. start_at h ((k - 1) / 2) ≤ start_at h k) (sym (==→eq i j e))
        (last (omega (arith, ==→eq i j e, lo)))
  | inr e ↦ v.rest i lo hi (ground arith)
]

pub up-IsHeap :
    (fuel : ℕ) (h : EarlyArrivals) (j : ℕ)
    → j < fuel
    → j < length h
    → Rising h j
    → IsHeap (length h) (up fuel h j)
unfolding up
up-IsHeap zero h j enough within v = absurd (omega arith)
up-IsHeap (suc fuel) h j enough within v =
    let i = (j - 1) / 2 in
    let test = less_lem h j i within (omega arith) in
    elim (Bool-cases (i == j || not (less h j i))) [
      | inl stop ↦ rw stop (risen h j v (λ pos. ground (arith, stop, test, pos)))
      | inr go ↦
          let pos : 0 < j = ground (arith, go) in
          let lt : start_at h j < start_at h i = ground (arith, go, test) in
          let later =
            up-IsHeap fuel (swap h i j) i (omega arith) (omega (arith, length-swap h i j, within))
              (swap-Rising h j pos within lt v) in
          rw go (subst (λ n. IsHeap n (up fuel (swap h i j) i)) (length-swap h i j) later)
    ]
