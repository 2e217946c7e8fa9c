-- ===== src/Tcp/CircleBuf/Span.antt =====
-- The bytes of an array from an index on, going round at its end.
use mini_tls.Prelude.{
  ℕ, zero, suc, ◌+◌, ◌-◌, ◌%◌, ◌≤◌, ◌<◌, ◌≡◌, refl, ap, ap₂, ◌∙◌, sym, subst, subst₂, min, List, [],
  ◌∷◌, ◌++◌, length, append-nil, dec_le, take, drop, get_or, arith,
}
use native.Mathlib.Nat.{mod-add-mod, mod-eq_of_lt, mod_self}

abbrev pub span : List ℕ → ℕ → ℕ → ℕ → List ℕ
span buf size i zero = []
span buf size i (suc n) = get_or buf (i % size) 0 ∷ span buf size (i + 1) n

pub length-span : (buf : List ℕ) (size i n : ℕ) → length (span buf size i n) ≡ n
length-span buf size i zero = refl
length-span buf size i (suc n) = ap suc (length-span buf size (i + 1) n)

pub span-add :
    (buf : List ℕ) (size i m n : ℕ)
    → span buf size i (m + n) ≡ span buf size i m ++ span buf size (i + m) n
span-add buf size i zero n = ap₂ (span buf size) {x = i} {y = i + 0} (omega arith) (omega arith)
span-add buf size i (suc m) n =
    let e : suc m + n ≡ suc (m + n) = omega arith in
    let s : i + suc m ≡ i + 1 + m = omega arith in rw (e, s, span-add buf size (i + 1) m n)

take-drop_step :
    (xs : List ℕ) (i n : ℕ)
    → i < length xs
    → take (suc n) (drop i xs) ≡ get_or xs i 0 ∷ take n (drop (i + 1) xs)
take-drop_step [] i n h = absurd (omega arith)
take-drop_step (x ∷ xs) zero n h = ground arith
take-drop_step (x ∷ xs) (suc i) n h = ground (arith, take-drop_step xs i n (omega arith))

-- Arrays that agree byte by byte along the stretches give the same bytes.
pub span-cong :
    (buf buf' : List ℕ) (size i j n : ℕ)
    → ((k : ℕ) → k < n → get_or buf ((i + k) % size) 0 ≡ get_or buf' ((j + k) % size) 0)
    → span buf size i n ≡ span buf' size j n
span-cong buf buf' size i j zero h = refl
span-cong buf buf' size i j (suc n) h =
    ap₂ ◌∷◌
      (subst₂ (λ a b. get_or buf (a % size) 0 ≡ get_or buf' (b % size) 0) {x = i + 0} {y = i}
        {u = j + 0} {v = j} (omega arith) (omega arith) (h 0 (omega arith)))
      (span-cong buf buf' size (i + 1) (j + 1) n (λ k lt.
        subst₂ (λ a b. get_or buf (a % size) 0 ≡ get_or buf' (b % size) 0) {x = i + suc k}
          {y = i + 1 + k} {u = j + suc k} {v = j + 1 + k} (omega arith) (omega arith)
          (h (suc k) (omega arith))))

-- Only the residue of the start counts.
pub span-mod : (buf : List ℕ) (size i n : ℕ) → span buf size (i % size) n ≡ span buf size i n
span-mod buf size i n =
    span-cong buf buf size (i % size) i n (λ k lt. ap (λ a. get_or buf a 0) (mod-add-mod i size k))

-- A stretch that does not reach the end is a slice.
pub span-take-drop :
    (buf : List ℕ) (size i n : ℕ)
    → length buf ≡ size
    → i + n ≤ size
    → span buf size i n ≡ take n (drop i buf)
span-take-drop buf size i zero e h = refl
span-take-drop buf size i (suc n) e h =
    rw
      (
        mod-eq_of_lt {n = i} {m = size} (omega arith),
        span-take-drop buf size (i + 1) n e (omega arith),
      )
      (sym (take-drop_step buf i n (omega arith)))

pub get_or-span :
    (buf : List ℕ) (size i n k : ℕ)
    → k < n
    → get_or (span buf size i n) k 0 ≡ get_or buf ((i + k) % size) 0
get_or-span buf size i zero k h = absurd (omega arith)
get_or-span buf size i (suc n) zero h = ap (λ a. get_or buf (a % size) 0) (omega arith)
get_or-span buf size i (suc n) (suc k) h =
    get_or-span buf size (i + 1) n k (omega arith) ∙ ap (λ a. get_or buf (a % size) 0) (omega arith)

-- The bytes that a list holds at each index make up the stretch.
pub span_of_bytes :
    (buf : List ℕ) (size i : ℕ) (bytes : List ℕ)
    → ((k : ℕ) → k < length bytes → get_or buf ((i + k) % size) 0 ≡ get_or bytes k 0)
    → span buf size i (length bytes) ≡ bytes
span_of_bytes buf size i [] h = refl
span_of_bytes buf size i (b ∷ bytes) h =
    ap₂ ◌∷◌
      (ap (λ a. get_or buf (a % size) 0) {x = i} {y = i + 0} (omega arith) ∙ h 0 (omega arith))
      (span_of_bytes buf size (i + 1) bytes λ k lt.
        ap (λ a. get_or buf (a % size) 0) {x = i + 1 + k} {y = i + suc k} (omega arith)
        ∙ h (suc k) (omega arith))

-- A stretch that goes round is two slices.
pub span_two_slices :
    (buf : List ℕ) (size i n : ℕ)
    → length buf ≡ size
    → i < size
    → n ≤ size
    → let first = min n (size - i) in
      span buf size i n ≡ take first (drop i buf) ++ take (n - first) (drop 0 buf)
span_two_slices buf size i n e hi hn = elim (dec_le n (size - i)) [
  | yes fits ↦
      let f : min n (size - i) ≡ n = omega arith in
      let z : n - n ≡ 0 = omega arith in
      rw (f, z, append-nil) (span-take-drop buf size i n e (omega arith))
  | no over ↦
      let f : min n (size - i) ≡ size - i = omega arith in
      let s : n ≡ (size - i) + (n - (size - i)) = omega arith in
      let w : i + (size - i) ≡ size = omega arith in
      let r : size % size ≡ 0 = mod_self size in
      let wrapped = span-mod buf size size (n - (size - i)) in
      rw f (
        subst (λ m. span buf size i m ≡ take (size - i) (drop i buf) ++ take (n - (size - i)) buf)
          (sym s)
          (span-add buf size i (size - i) (n - (size - i))
            ∙ ap₂ ◌++◌ (span-take-drop buf size i (size - i) e (omega arith)) (
                ap (λ a. span buf size a (n - (size - i))) w
                ∙ sym wrapped
                ∙ ap (λ a. span buf size a (n - (size - i))) r
                ∙ span-take-drop buf size 0 (n - (size - i)) e (omega arith))))
]
