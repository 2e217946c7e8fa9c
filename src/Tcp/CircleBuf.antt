-- ===== src/Tcp/CircleBuf.antt =====
-- pkg/tcpStack/circleBuf.go: the byte ring under the send and the receive buffer. `none` is a
-- panic of Go: a slice out of range. `int` has 64 bits, so no sum of indices wraps in it.
pub mod Span
pub mod Inv
pub mod Read
pub mod Write
pub mod Queue
use mini_tls.Prelude.{
  ℕ, ◌+◌, ◌-◌, ◌%◌, ◌≤◌, min, Bool, ◌||◌, Option, none, some, List, [], ◌++◌, length, take, drop,
  blit, replicate, ltb, leb, ◌==◌, if◌then◌else◌, ◌>>=◌, add32, sub32,
}

abbrev pub max_win_size : ℕ
max_win_size = 65535

-- `CircleBuf`
pub record CircleBuf : Type 0 where
  pub buf : List ℕ
  pub max_size : ℕ
  pub curr_size : ℕ
  pub base_seq : ℕ
  pub head : ℕ

-- `NewCircleBuf`: the size that it is given is not used.
pub new_circle_buf : ℕ → ℕ → CircleBuf
new_circle_buf max_size base_seq = record {
  buf = replicate max_win_size 0;
  max_size = max_win_size;
  curr_size = 0;
  base_seq = base_seq;
  head = 0;
}

-- `SeqNumToIndex`
abbrev pub seq_num_to_index : CircleBuf → ℕ → ℕ
seq_num_to_index cb seq = (cb.head + sub32 seq cb.base_seq) % cb.max_size

-- `FreeSpace`
abbrev pub free_space : CircleBuf → ℕ
free_space cb = sub32 cb.max_size cb.curr_size

-- `IsEmpty`
abbrev pub is_empty : CircleBuf → Bool
is_empty cb = cb.curr_size == 0

-- `copy(buf[i:i+n], src)`, which panics where the slice leaves the buffer.
unfoldable pub copy_into : List ℕ → ℕ → ℕ → List ℕ → Option (List ℕ)
copy_into dst i n src = if leb (i + n) (length dst) then some (blit dst i (take n src)) else none

-- `buf[i:i+n]`
unfoldable pub slice : List ℕ → ℕ → ℕ → Option (List ℕ)
slice xs i n = if leb (i + n) (length xs) then some (take n (drop i xs)) else none

-- The two copies of `WriteIntoBuf`, from the index `start` on.
unfoldable pub write_at : List ℕ → ℕ → List ℕ → Option (List ℕ)
write_at buf start bytes = do
  let first_chunk = min (length bytes) (length buf - start)
  let remaining = length bytes - first_chunk
  buf' ← copy_into buf start first_chunk (take first_chunk bytes)
  if ltb 0 remaining then copy_into buf' 0 remaining (drop first_chunk bytes) else some buf'

-- `WriteIntoBuf`, with the number that it returns.
unfoldable pub write_into_buf : CircleBuf → ℕ → List ℕ → Option (CircleBuf × ℕ)
write_into_buf cb seq bytes = if length bytes == 0 then some (cb, 0) else do
  buf ← write_at cb.buf (seq_num_to_index cb seq) bytes
  some (record cb { buf = buf; curr_size = add32 cb.curr_size (length bytes) }, length bytes)

-- The two copies of `ReadFromBuf`, from the index `start` on.
unfoldable pub read_at : List ℕ → ℕ → List ℕ → ℕ → Option (List ℕ)
read_at buf start dest n = do
  let first_chunk = min n (length buf - start)
  let remaining = n - first_chunk
  chunk ← slice buf start first_chunk
  dest' ← copy_into dest 0 first_chunk chunk
  rest ← slice buf 0 remaining
  if ltb 0 remaining then copy_into dest' first_chunk remaining rest else some dest'

-- `ReadFromBuf`: the new contents of `dest`, and the number that it returns.
unfoldable pub read_from_buf : CircleBuf → ℕ → List ℕ → ℕ → Option (List ℕ × ℕ)
read_from_buf cb seq dest n = if ltb n 1 || length dest == 0 then some (dest, 0) else do
  let n' = min n (length dest)
  dest' ← read_at cb.buf (seq_num_to_index cb seq) dest n'
  some (dest', n')

-- `SliceFrom`
unfoldable pub slice_from : CircleBuf → ℕ → ℕ → Option (List ℕ)
slice_from cb seq n =
    if n == 0 then some [] else do r ← read_from_buf cb seq (replicate n 0) n; some r.0

-- `AdvanceBase`
unfoldable pub advance_base : CircleBuf → ℕ → CircleBuf
advance_base cb acked =
    if acked == 0
    then cb
    else let n = min acked cb.curr_size in
      record cb {
        base_seq = add32 cb.base_seq n;
        curr_size = sub32 cb.curr_size n;
        head = (cb.head + n) % cb.max_size;
      }
