-- ===== src/Tcp/Stream.antt =====
-- The byte stream of one direction of a connection: a byte for each sequence number.
use mini_tls.Prelude.{
  ℕ, zero, suc, ◌+◌, ◌-◌, ◌≤◌, ◌<◌, ◌≡◌, refl, sym, ap, ap₂, ◌∙◌, List, [], ◌∷◌, ◌++◌, arith,
  length, take, drop, length-take, length-drop, u32_mod, add32, add32_assoc,
}

module _ (S : ℕ → ℕ) where
  -- The `n` bytes from a sequence number on.
  abbrev pub bytes_of : ℕ → ℕ → List ℕ
  bytes_of seq zero = []
  bytes_of seq (suc n) = S seq ∷ bytes_of (add32 seq 1) n

  -- The bytes are those of the stream at the sequence number.
  abbrev pub IsFrom : ℕ → List ℕ → Type 0
  IsFrom seq bytes = bytes ≡ bytes_of seq (length bytes)

  pub length-bytes_of : (seq n : ℕ) → length (bytes_of seq n) ≡ n
  length-bytes_of seq zero = refl
  length-bytes_of seq (suc n) = ap suc (length-bytes_of (add32 seq 1) n)

  pub bytes_of-add :
      (seq m n : ℕ)
      → seq < u32_mod
      → bytes_of seq (m + n) ≡ bytes_of seq m ++ bytes_of (add32 seq m) n
  bytes_of-add seq zero n h = ap₂ bytes_of {x = seq} {y = add32 seq 0} (omega arith) (omega arith)
  bytes_of-add seq (suc m) n h =
      let e : suc m + n ≡ suc (m + n) = omega arith in
      rw e (
        ap (◌∷◌ (S seq)) (
          bytes_of-add (add32 seq 1) m n (omega arith)
          ∙ ap (λ k. bytes_of (add32 seq 1) m ++ bytes_of k n)
              (omega (arith, add32_assoc seq 1 m))))

  pub take-bytes_of : (seq m n : ℕ) → m ≤ n → take m (bytes_of seq n) ≡ bytes_of seq m
  take-bytes_of seq zero n h = refl
  take-bytes_of seq (suc m) zero h = absurd (omega arith)
  take-bytes_of seq (suc m) (suc n) h =
      ap (◌∷◌ (S seq)) (take-bytes_of (add32 seq 1) m n (omega arith))

  pub drop-bytes_of :
      (seq m n : ℕ)
      → seq < u32_mod
      → m ≤ n
      → drop m (bytes_of seq n) ≡ bytes_of (add32 seq m) (n - m)
  drop-bytes_of seq zero n h p =
      ap₂ bytes_of {x = seq} {y = add32 seq 0} (omega arith) (omega arith)
  drop-bytes_of seq (suc m) zero h p = absurd (omega arith)
  drop-bytes_of seq (suc m) (suc n) h p =
      drop-bytes_of (add32 seq 1) m n (omega arith) (omega arith)
      ∙ ap₂ bytes_of {x = add32 (add32 seq 1) m} {y = add32 seq (suc m)} (omega arith) (omega arith)

  -- A first part of such bytes is of the stream too.
  pub IsFrom-take :
      (seq n : ℕ) (bytes : List ℕ) → IsFrom seq bytes → n ≤ length bytes → IsFrom seq (take n bytes)
  IsFrom-take seq n bytes f h =
      ap (take n) f
      ∙ take-bytes_of seq n (length bytes) h
      ∙ ap (bytes_of seq) (omega (arith, length-take n bytes))

  -- So is the rest, further on.
  pub IsFrom-drop :
      (seq n : ℕ) (bytes : List ℕ)
      → seq < u32_mod
      → IsFrom seq bytes
      → n ≤ length bytes
      → IsFrom (add32 seq n) (drop n bytes)
  IsFrom-drop seq n bytes w f h =
      ap (drop n) f
      ∙ drop-bytes_of seq n (length bytes) w h
      ∙ ap (bytes_of (add32 seq n)) (sym (length-drop n bytes))
