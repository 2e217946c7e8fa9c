-- ===== src/Tcp/CircleBuf/Queue.antt =====
-- The ring as a first-in first-out queue: the bytes from `baseSeq` on that are still held.
use mini_tls.Prelude.{
  ℕ, ◌+◌, ◌-◌, ◌%◌, ◌≤◌, ◌<◌, min, ◌≡◌, refl, sym, ap, ap₂, ◌∙◌, inl, inr, some, List, [], ◌++◌,
  arith, ◌==◌, Bool-cases, length, take, drop, take-append, drop-append, u32_mod, add32, sub32,
  sub32-add32, sub32-add32_base, sub32-add32_self,
}
use mini_tls.Tcp.CircleBuf.{
  CircleBuf, advance_base, free_space, seq_num_to_index, slice_from, write_into_buf,
}
use mini_tls.Tcp.CircleBuf.Inv.{IsValid, advance_base_lem, region}
use mini_tls.Tcp.CircleBuf.Read.{slice_from_lem}
use mini_tls.Tcp.CircleBuf.Span.{length-span, span, span-add, span-mod}
use mini_tls.Tcp.CircleBuf.Write.{Wrote, write_into_buf-Wrote}
use native.Mathlib.Nat.{mod-add-mod}

abbrev pub contents : CircleBuf → List ℕ
contents cb = region cb cb.base_seq cb.curr_size

pub contents_none : (cb : CircleBuf) → cb.curr_size ≡ 0 → contents cb ≡ []
contents_none cb e = ap (region cb cb.base_seq) e

-- Consecutive regions make up one.
pub region-add :
    {cb : CircleBuf} (seq m n : ℕ)
    → IsValid cb
    → seq < u32_mod
    → sub32 seq cb.base_seq + m < u32_mod
    → region cb seq (m + n) ≡ region cb seq m ++ region cb (add32 seq m) n
region-add {cb} seq m n v hs h =
    let o = sub32 seq cb.base_seq in
    span-add cb.buf cb.max_size (seq_num_to_index cb seq) m n
    ∙ ap (λ a. region cb seq m ++ span cb.buf cb.max_size a n) {x = seq_num_to_index cb seq + m}
        {y = (cb.head + o) % cb.max_size + m} refl
    ∙ ap (◌++◌ (region cb seq m)) (
        sym (span-mod cb.buf cb.max_size (seq_num_to_index cb seq + m) n)
        ∙ ap (λ a. span cb.buf cb.max_size a n)
            (mod-add-mod (cb.head + o) cb.max_size m
              ∙ ap (λ a. a % cb.max_size) {x = cb.head + o + m}
                  {y = cb.head + sub32 (add32 seq m) cb.base_seq}
                  (omega (arith, sub32-add32 seq cb.base_seq m))))

-- Advancing moves no byte of a sequence number that is still held.
pub region-advance_base :
    {cb : CircleBuf} (n seq m : ℕ)
    → IsValid cb
    → n ≤ cb.curr_size
    → seq < u32_mod
    → n ≤ sub32 seq cb.base_seq
    → region (advance_base cb n) seq m ≡ region cb seq m
unfolding advance_base
region-advance_base {cb} n seq m v h hs ho = elim (Bool-cases (n == 0)) [
  | inl e ↦ rw e refl
  | inr e ↦
      rw (e, (let s : min n cb.curr_size ≡ n = omega arith in s))
        (ap (λ a. span cb.buf cb.max_size a m)
          {x = ((cb.head + n) % cb.max_size + sub32 seq (add32 cb.base_seq n)) % cb.max_size}
          {y = seq_num_to_index cb seq}
          (mod-add-mod (cb.head + n) cb.max_size (sub32 seq (add32 cb.base_seq n))
            ∙ ap (λ a. a % cb.max_size) {x = cb.head + n + sub32 seq (add32 cb.base_seq n)}
                {y = cb.head + sub32 seq cb.base_seq}
                (omega (arith, sub32-add32_base seq cb.base_seq n))))
]

contents-split :
    {cb : CircleBuf} (n : ℕ)
    → IsValid cb
    → n ≤ cb.curr_size
    → contents cb ≡ region cb cb.base_seq n ++ region cb (add32 cb.base_seq n) (cb.curr_size - n)
contents-split {cb} n v h =
    ap (region cb cb.base_seq) (omega arith)
    ∙ region-add cb.base_seq n (cb.curr_size - n) v (omega arith) (omega arith)

pub contents-Wrote :
    {cb cb' : CircleBuf} (bytes : List ℕ)
    → IsValid cb
    → cb.curr_size + length bytes ≤ cb.max_size
    → Wrote cb (add32 cb.base_seq cb.curr_size) bytes cb'
    → contents cb' ≡ contents cb ++ bytes
contents-Wrote {cb} {cb'} bytes v h w =
    ap₂ (region cb') w.base w.size
    ∙ region-add cb.base_seq cb.curr_size (length bytes) w.valid (omega arith)
        (omega (arith, w.base))
    ∙ ap₂ ◌++◌
        (w.keeps cb.base_seq cb.curr_size (omega (arith, sub32-add32_self cb.base_seq cb.curr_size))
          (omega arith) (inl (omega (arith, sub32-add32_self cb.base_seq cb.curr_size))))
        w.holds

pub record Appended (cb : CircleBuf) (bytes : List ℕ) (cb' : CircleBuf) : Type 0 where
  pub valid : IsValid cb'
  pub size : cb'.curr_size ≡ cb.curr_size + length bytes
  pub base : cb'.base_seq ≡ cb.base_seq
  pub capacity : cb'.max_size ≡ cb.max_size
  pub queue : contents cb' ≡ contents cb ++ bytes

-- Writing behind the last held byte, where the bytes fit, appends them to the queue.
pub contents-write_into_buf :
    {cb : CircleBuf} (bytes : List ℕ)
    → IsValid cb
    → length bytes ≤ free_space cb
    → (cb' : CircleBuf) × (write_into_buf cb (add32 cb.base_seq cb.curr_size) bytes
        ≡ some (cb', length bytes))
      × Appended cb bytes cb'
contents-write_into_buf {cb} bytes v h =
    let wrote = write_into_buf-Wrote (add32 cb.base_seq cb.curr_size) bytes v h in
    (
      wrote.0,
      wrote.1,
      record {
        valid = wrote.2.valid;
        size = wrote.2.size;
        base = wrote.2.base;
        capacity = wrote.2.capacity;
        queue = contents-Wrote bytes v (omega arith) wrote.2;
      },
    )

-- Advancing by at most the held bytes drops the oldest of them.
pub contents-advance_base :
    {cb : CircleBuf} (n : ℕ)
    → IsValid cb
    → n ≤ cb.curr_size
    → contents (advance_base cb n) ≡ drop n (contents cb)
contents-advance_base {cb} n v h =
    let after = advance_base_lem n v h in
    ap₂ (region (advance_base cb n)) after.1 after.0
    ∙ region-advance_base n (add32 cb.base_seq n) (cb.curr_size - n) v h (omega arith)
        (omega (arith, sub32-add32_self cb.base_seq n))
    ∙ sym (
        drop-append n (region cb cb.base_seq n) (region cb (add32 cb.base_seq n) (cb.curr_size - n))
          (length-span cb.buf cb.max_size (seq_num_to_index cb cb.base_seq) n))
    ∙ ap (drop n) (sym (contents-split n v h))

pub region-eq-take :
    {cb : CircleBuf} (n : ℕ)
    → IsValid cb
    → n ≤ cb.curr_size
    → region cb cb.base_seq n ≡ take n (contents cb)
region-eq-take {cb} n v h = sym (
    ap (take n) (contents-split n v h)
    ∙ take-append n (region cb cb.base_seq n) (region cb (add32 cb.base_seq n) (cb.curr_size - n))
        (length-span cb.buf cb.max_size (seq_num_to_index cb cb.base_seq) n))

-- Slicing from the base copies the oldest bytes out.
pub contents-slice_from :
    {cb : CircleBuf} (n : ℕ)
    → IsValid cb
    → n ≤ cb.curr_size
    → slice_from cb cb.base_seq n ≡ some (take n (contents cb))
contents-slice_from {cb} n v h =
    slice_from_lem cb.base_seq n v (omega arith) ∙ ap some (region-eq-take n v h)

-- A region within the queue.
pub region-eq-take-drop :
    {cb : CircleBuf} (k n : ℕ)
    → IsValid cb
    → k + n ≤ cb.curr_size
    → region cb (add32 cb.base_seq k) n ≡ take n (drop k (contents cb))
region-eq-take-drop {cb} k n v h =
    let at = add32 cb.base_seq k in
    let dropped : drop k (contents cb) ≡ region cb at (cb.curr_size - k) =
      ap (drop k) (contents-split k v (omega arith))
      ∙ drop-append k (region cb cb.base_seq k) (region cb at (cb.curr_size - k))
          (length-span cb.buf cb.max_size (seq_num_to_index cb cb.base_seq) k) in
    let split : region cb at (cb.curr_size - k)
        ≡ region cb at n ++ region cb (add32 at n) (cb.curr_size - k - n) =
      ap (region cb at) (omega arith)
      ∙ region-add at n (cb.curr_size - k - n) v (omega arith)
          (omega (arith, sub32-add32_self cb.base_seq k)) in
    sym (
      ap (take n) (dropped ∙ split)
      ∙ take-append n (region cb at n) (region cb (add32 at n) (cb.curr_size - k - n))
          (length-span cb.buf cb.max_size (seq_num_to_index cb at) n))

-- On a valid ring, writing bytes that fit behind the last held one does not panic, keeps the ring valid
-- and appends them to its queue; advancing by at most the held bytes drops the oldest of them, and
-- slicing from the base copies the oldest out without a panic.
pub ring_refines_queue :
    {cb : CircleBuf} (bytes : List ℕ) (n : ℕ)
    → IsValid cb
    → length bytes ≤ free_space cb
    → n ≤ cb.curr_size
    → ((cb' : CircleBuf) × (write_into_buf cb (add32 cb.base_seq cb.curr_size) bytes
          ≡ some (cb', length bytes))
        × Appended cb bytes cb')
      × (contents (advance_base cb n) ≡ drop n (contents cb))
      × (slice_from cb cb.base_seq n ≡ some (take n (contents cb)))
ring_refines_queue bytes n v fit held = (
  contents-write_into_buf bytes v fit,
  contents-advance_base n v held,
  contents-slice_from n v held,
)
