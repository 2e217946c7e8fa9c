-- ===== src/Prelude/Words.antt =====
-- Machine words: a `uint32` is a number below 2 ^ 32, and its arithmetic wraps.
use Prim.Native.Nat.{ℕ, ◌+◌, ◌-◌, ◌%◌, ◌^◌, ◌<◌, ◌≤◌}
use mathlib.Core.Path.{◌≡◌}
use native.Mathlib.Omega.{arith}

abbrev pub u32_mod : ℕ
u32_mod = 2 ^ 32

abbrev pub add32 : ℕ → ℕ → ℕ
add32 a b = (a + b) % u32_mod

abbrev pub sub32 : ℕ → ℕ → ℕ
sub32 a b = (a + u32_mod - b) % u32_mod

-- Distances of sequence numbers from a base, going round.
pub sub32-add32 :
    (seq base m : ℕ)
    → seq < u32_mod
    → base < u32_mod
    → sub32 seq base + m < u32_mod
    → sub32 (add32 seq m) base ≡ sub32 seq base + m
sub32-add32 seq base m hs hb h = omega arith

pub sub32-add32_base :
    (seq base n : ℕ)
    → seq < u32_mod
    → base < u32_mod
    → n ≤ sub32 seq base
    → sub32 seq (add32 base n) ≡ sub32 seq base - n
sub32-add32_base seq base n hs hb h = omega arith

pub sub32-add32_self : (base n : ℕ) → base < u32_mod → n < u32_mod → sub32 (add32 base n) base ≡ n
sub32-add32_self base n hb hn = omega arith

pub add32_assoc : (a b c : ℕ) → add32 (add32 a b) c ≡ add32 a (b + c)
add32_assoc a b c = omega arith
