-- ===== src/Tcp/CircleBuf/Write.antt =====
-- `WriteIntoBuf` puts the bytes at their sequence numbers, and touches no others.
use mini_tls.Prelude.{
  ℕ, ◌+◌, ◌-◌, ◌%◌, ◌≤◌, ◌<◌, ◌≡◌, ◌⊎◌, inl, inr, refl, ap, ◌∙◌, min, some, List, [], ◌∷◌, ◌∷◌,
  length, take, drop, get_or, blit, ltb, if◌then◌else◌, arith, length-take, length-drop,
  nil_of_length, take-length, blit-nil, length-blit, get_or-blit, get_or-take, get_or-drop, dec_lt,
  sub32,
}
use mini_tls.Tcp.CircleBuf.{CircleBuf, seq_num_to_index, free_space, write_at, write_into_buf}
use mini_tls.Tcp.CircleBuf.Inv.{IsValid, region}
use mini_tls.Tcp.CircleBuf.Read.{copy_into_within}
use mini_tls.Tcp.CircleBuf.Span.{span-cong, span_of_bytes}
use native.Mathlib.Nat.{mod-eq_of_lt, mod-eq-sub-mod, mod-add-mod, add-mod_right, mod-lt}

-- What the two copies leave in the array.
abbrev pub placed : List ℕ → ℕ → List ℕ → List ℕ
placed buf start bytes =
    let first = min (length bytes) (length buf - start) in
    blit (blit buf start (take first bytes)) 0 (drop first bytes)

write_at_lem :
    (buf : List ℕ) (start : ℕ) (bytes : List ℕ)
    → start < length buf
    → length bytes ≤ length buf
    → write_at buf start bytes ≡ some (placed buf start bytes)
unfolding write_at
write_at_lem buf start bytes hs hb =
    let first = min (length bytes) (length buf - start) in
    let rest = drop first bytes in
    ground (
      arith,
      copy_into_within buf start first (take first bytes),
      copy_into_within (blit buf start (take first bytes)) 0 (length bytes - first) rest,
      length-take first bytes,
      length-drop first bytes,
      length-blit buf start (take first bytes),
      take-length first (take first bytes),
      take-length (length bytes - first) rest,
      nil_of_length rest,
      blit-nil (blit buf start (take first bytes)) 0,
    )

place :
    (k start size : ℕ)
    → start < size
    → k < size
    → (start + k) % size ≡ (if ltb (start + k) size then start + k else start + k - size)
place k start size hs hk = elim (dec_lt (start + k) size) [
  | yes p ↦ ground (arith, mod-eq_of_lt p)
  | no p ↦ ground (
    arith,
    mod-eq-sub-mod {n = start + k} {m = size} (omega arith),
    mod-eq_of_lt {n = start + k - size} {m = size} (omega arith),
  )
]

placed-nil : (buf : List ℕ) (start : ℕ) → placed buf start [] ≡ buf
placed-nil buf start = ground (
  arith,
  nil_of_length (take (min 0 (length buf - start)) (let e : List ℕ = [] in e)),
  length-take (min 0 (length buf - start)) (let e : List ℕ = [] in e),
  nil_of_length (drop (min 0 (length buf - start)) (let e : List ℕ = [] in e)),
  length-drop (min 0 (length buf - start)) (let e : List ℕ = [] in e),
  blit-nil buf start,
  blit-nil buf 0,
)

pub length-placed :
    (buf : List ℕ) (start : ℕ) (bytes : List ℕ) → length (placed buf start bytes) ≡ length buf
length-placed buf start bytes =
    let first = min (length bytes) (length buf - start) in
    length-blit (blit buf start (take first bytes)) 0 (drop first bytes)
    ∙ length-blit buf start (take first bytes)

-- The size grows by the length, and that is what the function returns.
pub write_into_buf_lem :
    {cb : CircleBuf} (seq : ℕ) (bytes : List ℕ)
    → IsValid cb
    → length bytes ≤ free_space cb
    → write_into_buf cb seq bytes
      ≡ some (
        record cb {
          buf = placed cb.buf (seq_num_to_index cb seq) bytes;
          curr_size = cb.curr_size + length bytes;
        },
        length bytes,
      )
unfolding write_into_buf
write_into_buf_lem {cb} seq [] v h = ground (arith, placed-nil cb.buf (seq_num_to_index cb seq))
write_into_buf_lem {cb} seq (b ∷ bytes) v h =
    ground (arith, write_at_lem cb.buf (seq_num_to_index cb seq) (b ∷ bytes))

-- The byte at each distance from the start, going round.
pub get_or-placed :
    (buf : List ℕ) (start : ℕ) (bytes : List ℕ) (k : ℕ)
    → start < length buf
    → length bytes ≤ length buf
    → k < length buf
    → get_or (placed buf start bytes) ((start + k) % length buf) 0
      ≡ (if ltb k (length bytes) then get_or bytes k 0 else get_or buf ((start + k) % length buf) 0)
get_or-placed buf start bytes k hs hb hk =
    let size = length buf in
    let first = min (length bytes) (size - start) in
    let j = (start + k) % size in
    let once = blit buf start (take first bytes) in
    ground (
      arith,
      place k start size hs hk,
      length-take first bytes,
      length-drop first bytes,
      length-blit buf start (take first bytes),
      get_or-blit once 0 (drop first bytes) j 0,
      get_or-blit buf start (take first bytes) j 0,
      get_or-take first bytes (j - start) 0,
      get_or-drop first bytes j 0,
    )

-- Offsets `[o, o + n)` lie before or behind `[p, p + m)`.
abbrev pub Apart : ℕ → ℕ → ℕ → ℕ → Type 0
Apart o n p m = (o + n ≤ p) ⊎ (p + m ≤ o)

keeps_byte :
    (buf : List ℕ) (head start o p k : ℕ) (bytes : List ℕ)
    → head < length buf
    → start ≡ (head + p) % length buf
    → p + length bytes ≤ length buf
    → o + k < length buf
    → (o + k < p) ⊎ (p + length bytes ≤ o + k)
    → get_or (placed buf start bytes) ((head + (o + k)) % length buf) 0
      ≡ get_or buf ((head + (o + k)) % length buf) 0
keeps_byte buf head start o p k bytes hh e hp ho (inl before) =
    let size = length buf in
    let d = o + k + size - p in
    let there : (start + d) % size ≡ (head + (o + k)) % size =
      ap (λ a. (a + d) % size) e
      ∙ mod-add-mod (head + p) size d
      ∙ ap (λ a. a % size) {x = head + p + d} {y = head + (o + k) + size} (omega arith)
      ∙ add-mod_right (head + (o + k)) size in
    ground (
      arith,
      there,
      get_or-placed buf start bytes d (rw e (mod-lt (head + p) (omega arith))) (omega arith)
          (omega arith),
    )
keeps_byte buf head start o p k bytes hh e hp ho (inr behind) =
    let size = length buf in
    let d = o + k - p in
    let there : (start + d) % size ≡ (head + (o + k)) % size =
      ap (λ a. (a + d) % size) e
      ∙ mod-add-mod (head + p) size d
      ∙ ap (λ a. a % size) {x = head + p + d} {y = head + (o + k)} (omega arith) in
    ground (
      arith,
      there,
      get_or-placed buf start bytes d (rw e (mod-lt (head + p) (omega arith))) (omega arith)
          (omega arith),
    )

-- What `cb'` is after `bytes` were written to `cb` at `seq`: only the bytes of those sequence
-- numbers are new.
pub record Wrote (cb : CircleBuf) (seq : ℕ) (bytes : List ℕ) (cb' : CircleBuf) : Type 0 where
  pub valid : IsValid cb'
  pub size : cb'.curr_size ≡ cb.curr_size + length bytes
  pub base : cb'.base_seq ≡ cb.base_seq
  pub capacity : cb'.max_size ≡ cb.max_size
  pub holds : region cb' seq (length bytes) ≡ bytes
  pub keeps :
      (seq' n : ℕ)
      → sub32 seq cb.base_seq + length bytes ≤ cb.max_size
      → sub32 seq' cb.base_seq + n ≤ cb.max_size
      → Apart (sub32 seq' cb.base_seq) n (sub32 seq cb.base_seq) (length bytes)
      → region cb' seq' n ≡ region cb seq' n

-- A write of at most the free space returns the length, keeps the ring valid, and is read back at
-- its sequence number, while the bytes of all other sequence numbers stay.
pub write_into_buf-Wrote :
    {cb : CircleBuf} (seq : ℕ) (bytes : List ℕ)
    → IsValid cb
    → length bytes ≤ free_space cb
    → (cb' : CircleBuf) × (write_into_buf cb seq bytes ≡ some (cb', length bytes))
      × Wrote cb seq bytes cb'
write_into_buf-Wrote {cb} seq bytes v h = (
  record cb { buf = placed cb.buf start bytes; curr_size = cb.curr_size + length bytes },
  write_into_buf_lem seq bytes v h,
  record {
    valid = record {
      storage = length-placed cb.buf start bytes ∙ v.storage;
      nonempty = v.nonempty;
      word = v.word;
      filled = omega arith;
      head_in = v.head_in;
      base_word = v.base_word;
    };
    size = refl;
    base = refl;
    capacity = refl;
    holds =
        span_of_bytes (placed cb.buf start bytes) cb.max_size start bytes
          (λ k lt. ground (arith, get_or-placed cb.buf start bytes k));
    keeps = λ seq' n hp ho apart.
        span-cong (placed cb.buf start bytes) cb.buf cb.max_size (seq_num_to_index cb seq')
          (seq_num_to_index cb seq') n
          (λ k lt.
            let o = sub32 seq' cb.base_seq in
            let p = sub32 seq cb.base_seq in
            let here : (seq_num_to_index cb seq' + k) % cb.max_size
                ≡ (cb.head + (o + k)) % cb.max_size =
              mod-add-mod (cb.head + o) cb.max_size k
              ∙ ap (λ a. a % cb.max_size) {x = cb.head + o + k} {y = cb.head + (o + k)}
                  (omega arith) in
            ground (arith, here, keeps_byte cb.buf cb.head start o p k bytes));
  },
)
  where
    start : ℕ
    start = seq_num_to_index cb seq
