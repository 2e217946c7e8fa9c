-- ===== src/Prelude/Bytes.antt =====
-- Big-endian numbers: `encoding/binary` as the packages of the program use it.
use Prim.Native.Nat.{ℕ, zero, suc, ◌+◌, ◌*◌, ◌/◌, ◌%◌, ◌^◌, ◌<◌}
use mathlib.Core.Path.{◌≡◌}
use mathlib.Core.List.{List, [], ◌∷◌}
use native.Mathlib.Omega.{arith}
use mini_tls.Prelude.Lists.{get_or}

-- A number as so many bytes.
abbrev pub big_endian : ℕ → ℕ → List ℕ
big_endian zero n = []
big_endian (suc k) n = n / 256 ^ k % 256 ∷ big_endian k n

-- `binary.BigEndian.PutUint32`
abbrev pub put_uint32 : ℕ → List ℕ
put_uint32 n = big_endian 4 n

-- `binary.BigEndian.Uint32`, on four bytes.
abbrev pub uint32 : List ℕ → ℕ
uint32 bytes =
    get_or bytes 0 0 * 256 ^ 3
    + get_or bytes 1 0 * 256 ^ 2
    + get_or bytes 2 0 * 256
    + get_or bytes 3 0

pub uint32-put_uint32 : (n : ℕ) → n < 256 ^ 4 → uint32 (put_uint32 n) ≡ n
uint32-put_uint32 n h = omega arith
