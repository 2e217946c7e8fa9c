-- ===== src/Tcp/CircleBuf/Read.antt =====
-- `ReadFromBuf` and `SliceFrom` give the bytes of the region, and never leave the array.
use mini_tls.Prelude.{
  ℕ, ◌+◌, ◌-◌, ◌≤◌, ◌<◌, ◌≡◌, refl, min, some, List, length, take, drop, blit, blit-all,
  blit-append, blit-nil, length-blit, append-nil, replicate, length-replicate, arith, length-take,
  length-drop, take-length,
}
use mini_tls.Tcp.CircleBuf.{
  CircleBuf, seq_num_to_index, copy_into, slice, read_at, read_from_buf, slice_from,
}
use mini_tls.Tcp.CircleBuf.Inv.{IsValid, region}
use mini_tls.Tcp.CircleBuf.Span.{span, span_two_slices, length-span}

pub slice_within :
    (xs : List ℕ) (i n : ℕ) → i + n ≤ length xs → slice xs i n ≡ some (take n (drop i xs))
unfolding slice
slice_within xs i n h = ground arith

pub copy_into_within :
    (dst : List ℕ) (i n : ℕ) (src : List ℕ)
    → i + n ≤ length dst
    → copy_into dst i n src ≡ some (blit dst i (take n src))
unfolding copy_into
copy_into_within dst i n src h = ground arith

length-slice : (xs : List ℕ) (i n : ℕ) → i + n ≤ length xs → length (take n (drop i xs)) ≡ n
length-slice xs i n h = omega (arith, length-take n (drop i xs), length-drop i xs)

read_at_lem :
    (buf : List ℕ) (start : ℕ) (dest : List ℕ) (n : ℕ)
    → start < length buf
    → n ≤ length buf
    → n ≤ length dest
    → read_at buf start dest n ≡ some (blit dest 0 (span buf (length buf) start n))
unfolding read_at
read_at_lem buf start dest n hs hn hd =
    let first = min n (length buf - start) in
    let rest = n - first in
    let chunk = take first (drop start buf) in
    ground (
      arith,
      slice_within buf start first,
      slice_within buf 0 rest,
      length-slice buf start first,
      length-slice buf 0 rest,
      copy_into_within dest 0 first chunk,
      copy_into_within (blit dest 0 chunk) first rest (take rest buf),
      take-length first chunk,
      take-length rest (take rest buf),
      length-blit dest 0 chunk,
      blit-append dest chunk (take rest buf),
      append-nil chunk,
      span_two_slices buf (length buf) start n refl hs hn,
    )

-- The number of bytes is cut to the destination, which receives the region.
pub read_from_buf_lem :
    {cb : CircleBuf} (seq n : ℕ) (dest : List ℕ)
    → IsValid cb
    → n ≤ cb.max_size
    → let m = min n (length dest) in
      read_from_buf cb seq dest n ≡ some (blit dest 0 (region cb seq m), m)
unfolding read_from_buf
read_from_buf_lem {cb} seq n dest v h =
    let m = min n (length dest) in
    ground (arith, read_at_lem cb.buf (seq_num_to_index cb seq) dest m, blit-nil dest 0)

-- `SliceFrom` copies the region out.
pub slice_from_lem :
    {cb : CircleBuf} (seq n : ℕ)
    → IsValid cb
    → n ≤ cb.max_size
    → slice_from cb seq n ≡ some (region cb seq n)
unfolding slice_from
slice_from_lem {cb} seq n v h = ground (
  arith,
  read_from_buf_lem seq n (replicate n 0) v h,
  length-replicate {A = ℕ} n 0,
  length-span cb.buf cb.max_size (seq_num_to_index cb seq) n,
  blit-all (replicate n 0) (region cb seq n),
)
