-- ===== src/Tcp/Send/Flight.antt =====
-- The retransmission queue as a tiling: its entries cover what is in flight, one after the other.
use mini_tls.Prelude.{
  ℕ, ◌+◌, ◌≤◌, ◌<◌, ◌≡◌, refl, sym, ◌∙◌, subst, ◌≢◌, ◌⊎◌, inl, inr, true, false, Option, some, List,
  [], ◌∷◌, ◌++◌, arith, leb, u32_mod, add32,
}
use mini_tls.Tcp.Send.{pop_acked}
use mini_tls.Tcp.Types.{RetransEntry}

-- The entries start at `a`, follow each other without a gap, and end at `b`.
abbrev pub Tiles : ℕ → List RetransEntry → ℕ → Type 0
Tiles a [] b = a ≡ b
Tiles a (x ∷ xs) b = (x.seq_num ≡ a) × (0 < x.len) × Tiles (a + x.len) xs b

-- The number is the end of one of the entries.
abbrev pub IsEnd : ℕ → List RetransEntry → Type 0
IsEnd n [] = ⊥
IsEnd n (x ∷ xs) = (n ≡ x.seq_num + x.len) ⊎ IsEnd n xs

pub IsEnd-some : (n : ℕ) (xs : List RetransEntry) → IsEnd n xs → xs ≢ []
IsEnd-some n [] h = absurd h
IsEnd-some n (x ∷ xs) h = λ e. cc

pub Tiles-append :
    (a b : ℕ) (xs : List RetransEntry) (x : RetransEntry)
    → Tiles a xs b
    → x.seq_num ≡ b
    → 0 < x.len
    → Tiles a (xs ++ (x ∷ [])) (b + x.len)
Tiles-append a b [] x t e h = (e ∙ sym t, h, omega arith)
Tiles-append a b (y ∷ xs) x t e h = (t.0, t.1, Tiles-append (a + y.len) b xs x t.2 e h)

pub Tiles-le : (a b : ℕ) (xs : List RetransEntry) → Tiles a xs b → a ≤ b
Tiles-le a b [] t = omega arith
Tiles-le a b (x ∷ xs) t = omega (arith, Tiles-le (a + x.len) b xs t.2)

-- The end of an entry lies behind the start, and not behind the end of the last.
pub Tiles-IsEnd :
    (a b n : ℕ) (xs : List RetransEntry) → Tiles a xs b → IsEnd n xs → (a < n) × (n ≤ b)
Tiles-IsEnd a b n [] t h = absurd h
Tiles-IsEnd a b n (x ∷ xs) t (inl e) =
    (omega (arith, t.0, t.1), omega (arith, t.0, Tiles-le (a + x.len) b xs t.2))
Tiles-IsEnd a b n (x ∷ xs) t (inr h) =
    let later = Tiles-IsEnd (a + x.len) b n xs t.2 h in (omega (arith, later.0), later.1)

pop_nothing :
    (a b : ℕ) (xs : List RetransEntry) (last : Option RetransEntry)
    → Tiles a xs b
    → b < u32_mod
    → pop_acked a xs last ≡ (last, xs)
unfolding pop_acked
pop_nothing a b [] last t h = refl
pop_nothing a b (x ∷ xs) last t h =
    rw (le_no (add32 x.seq_num x.len) a (omega (arith, t.0, t.1, Tiles-le (a + x.len) b xs t.2)))
  where
    le_no : (m n : ℕ) → n < m → leb m n ≡ false
    le_no m n p = ground arith

-- An acknowledgment of a whole entry, and of all before it, leaves those behind it.
pub pop_acked-Tiles :
    (a b ack : ℕ) (xs : List RetransEntry) (last : Option RetransEntry)
    → Tiles a xs b
    → b < u32_mod
    → IsEnd ack xs
    → Tiles ack (pop_acked ack xs last).1 b
unfolding pop_acked
pop_acked-Tiles a b ack [] last t w h = absurd h
pop_acked-Tiles a b ack (x ∷ xs) last t w (inl e) =
    let rest : Tiles ack xs b = subst (λ k. Tiles k xs b) (omega (arith, t.0)) t.2 in
    let popped : leb (add32 x.seq_num x.len) ack ≡ true = ground (arith, Tiles-le ack b xs rest) in
    rw (popped, pop_nothing ack b xs (some x) rest w) rest
pop_acked-Tiles a b ack (x ∷ xs) last t w (inr h) =
    let bounds = Tiles-IsEnd (a + x.len) b ack xs t.2 h in
    let popped : leb (add32 x.seq_num x.len) ack ≡ true = ground (arith, t.0, bounds.0, bounds.1) in
    rw popped (pop_acked-Tiles (a + x.len) b ack xs (some x) t.2 w h)
