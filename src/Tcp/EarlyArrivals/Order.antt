-- ===== src/Tcp/EarlyArrivals/Order.antt =====
-- The heap keeps its order: no element starts before its parent, so the root starts first.
use mini_tls.Prelude.{
  ℕ, zero, suc, ◌+◌, ◌-◌, ◌/◌, ◌≤◌, ◌<◌, ◌≡◌, refl, sym, ap, ◌∙◌, subst, inl, inr, some, List, [],
  ◌∷◌, ◌++◌, arith, ◌==◌, Bool-cases, some_pair, length, get_elem?, take, length-append,
  length-take, All, get_elem?-append, get_elem?-take, add32,
}
use mini_tls.Tcp.EarlyArrivals.{EarlyArrivals, down, pop_min, push_segment, swap, up}
use mini_tls.Tcp.EarlyArrivals.Elements.{heap_pop_lem, length-swap}
use mini_tls.Tcp.EarlyArrivals.Rise.{
  IsHeap, Rising, length-up, start_at, start_at-swap, start_of, up-IsHeap,
}
use mini_tls.Tcp.EarlyArrivals.Sink.{Sinking, down-IsHeap}
use mini_tls.Tcp.Types.{EarlyArrival}

-- Between the calls the whole list is in order.
pub IsOrdered : EarlyArrivals → Type 0
IsOrdered h = IsHeap (length h) h

pub push_segment-IsOrdered :
    (h : EarlyArrivals) (seq : ℕ) (bytes : List ℕ)
    → IsOrdered h
    → IsOrdered (push_segment h seq bytes)
unfolding push_segment IsHeap IsOrdered
push_segment-IsOrdered h seq bytes v = elim (Bool-cases (length bytes == 0)) [
  | inl e ↦ rw e v
  | inr e ↦
      let x : EarlyArrival = record {
        start_seq = seq;
        end_seq = add32 seq (length bytes);
        bytes = bytes;
      } in
      let n = length h in
      let grown : length (h ++ (x ∷ [])) ≡ n + 1 = length-append h (x ∷ []) in
      let same = λ (k : ℕ) (lt : k < n). ap start_of (get_elem?-append h (x ∷ []) k lt) in
      let start : Rising (h ++ (x ∷ [])) n = record {
        rest = λ i lo hi ne.
            rw
              (
                same i (omega (arith, grown, hi, ne)),
                same ((i - 1) / 2) (omega (arith, grown, hi, ne)),
              )
              (v i lo (omega (arith, grown, hi, ne)));
        over = λ i lo hi is pos. absurd (omega (arith, grown, hi, is));
      } in
      let up_h = up (suc n) (h ++ (x ∷ [])) n in
      rw e (
        subst (λ m. IsHeap m up_h) (sym (length-up (suc n) (h ++ (x ∷ [])) n))
          (up-IsHeap (suc n) (h ++ (x ∷ [])) n (omega arith) (omega (arith, grown)) start))
]

-- The root starts no later than any other.
root_first :
    (fuel : ℕ) (h : EarlyArrivals) (i : ℕ)
    → i < fuel
    → i < length h
    → IsOrdered h
    → start_at h 0 ≤ start_at h i
unfolding IsHeap IsOrdered
root_first zero h i enough within v = absurd (omega arith)
root_first (suc fuel) h zero enough within v = omega arith
root_first (suc fuel) h (suc i) enough within v =
    let parent = i / 2 in
    let above = root_first fuel h parent (omega arith) (omega arith) v in
    let step = v (suc i) (omega arith) within in ground (arith, above, step)

-- The list that is left when the root goes.
popped-IsOrdered :
    (h : EarlyArrivals) (n : ℕ)
    → length h ≡ n + 1
    → IsOrdered h
    → IsOrdered (take n (down n (swap h 0 n) 0 n))
unfolding IsHeap IsOrdered
popped-IsOrdered h n size v =
    let h' = swap h 0 n in
    let d = down n h' 0 n in
    let at = λ (k : ℕ). start_at-swap h 0 n k (omega arith) (omega arith) in
    let start : Sinking h' 0 n = record {
      rest = λ k lo hi ne. ground (arith, at k, at ((k - 1) / 2), v k, lo, hi, ne, size);
      over = λ k lo hi is pos. absurd (omega arith);
    } in
    let ordered =
      down-IsHeap n h' 0 n (omega arith) (omega (arith, length-swap h 0 n, size)) start in
    λ i lo hi.
      let lt : i < n = omega (arith, hi, length-take n d) in
      rw
        (
          ap start_of (get_elem?-take n i d lt),
          ap start_of (get_elem?-take n ((i - 1) / 2) d (omega arith)),
        )
        (ordered i lo lt)

-- What holds of the element at each index holds of all.
All-at :
    (P : EarlyArrival → Type 0) (h : EarlyArrivals)
    → ((i : ℕ) (a : EarlyArrival) → i < length h → get_elem? h i ≡ some a → P a)
    → All P h
All-at P [] at = tt
All-at P (x ∷ h) at = (at 0 x (omega arith) refl, All-at P h (λ i a lt. at (suc i) a (omega arith)))

pop_min-IsOrdered :
    (h rest : EarlyArrivals) (x : EarlyArrival)
    → IsOrdered h
    → pop_min h ≡ some (x, rest)
    → IsOrdered rest × All (λ a. x.start_seq ≤ a.start_seq) h
unfolding pop_min
pop_min-IsOrdered [] rest x v e = absurd (ground (arith, e))
pop_min-IsOrdered (y ∷ h) rest x v e =
    let n = length h in
    let moved = take n (down n (swap (y ∷ h) 0 n) 0 n) in
    let is : pop_min (y ∷ h) ≡ some (y, moved) =
      ground (arith, heap_pop_lem (y ∷ h) n {x = y} (omega arith) refl) in
    let same = some_pair y moved (x, rest) (sym is ∙ e) in
    let least =
      All-at (λ a. y.start_seq ≤ a.start_seq) (y ∷ h)
        (λ i a lt f.
          subst (λ o. y.start_seq ≤ start_of o) f
            (root_first (suc (suc n)) (y ∷ h) i (omega arith) lt v)) in
    (
      subst IsOrdered same.1 (popped-IsOrdered (y ∷ h) n (omega arith) v),
      subst (λ z. All (λ a. z.start_seq ≤ a.start_seq) (y ∷ h)) same.0 least,
    )

-- What `MakeEarlyArrivals` returns, after any calls.
pub data InUse : EarlyArrivals → Type 0 where
  made : InUse []
  pushed :
      {h : EarlyArrivals} (start_seq : ℕ) (bytes : List ℕ)
      → InUse h
      → InUse (push_segment h start_seq bytes)
  popped :
      {h rest : EarlyArrivals} {x : EarlyArrival}
      → InUse h
      → pop_min h ≡ some (x, rest)
      → InUse rest

InUse-IsOrdered : (h : EarlyArrivals) → InUse h → IsOrdered h
unfolding IsOrdered IsHeap
InUse-IsOrdered h made = λ i lo hi. absurd (omega arith)
InUse-IsOrdered h (pushed {h = h'} seq bytes u) =
    push_segment-IsOrdered h' seq bytes (InUse-IsOrdered h' u)
InUse-IsOrdered h (popped {h = h'} {x = x} u e) =
    (pop_min-IsOrdered h' h x (InUse-IsOrdered h' u) e).0

-- After any calls of PushSegment and PopMin on a new queue, PopMin gives an arrival that starts no
-- later than any in the queue.
pub pop_min_least :
    (h rest : EarlyArrivals) (x : EarlyArrival)
    → InUse h
    → pop_min h ≡ some (x, rest)
    → All (λ a. x.start_seq ≤ a.start_seq) h
pop_min_least h rest x u e = (pop_min-IsOrdered h rest x (InUse-IsOrdered h u) e).1
