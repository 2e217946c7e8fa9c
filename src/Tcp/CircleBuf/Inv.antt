-- ===== src/Tcp/CircleBuf/Inv.antt =====
-- What every operation of the ring keeps: the array has its size, and the indices lie in it.
use mini_tls.Prelude.{
  ℕ, ◌-◌, ◌≤◌, ◌<◌, ◌≡◌, refl, List, length, length-replicate, u32_mod, add32, arith,
}
use mini_tls.Tcp.CircleBuf.{
  CircleBuf, max_win_size, new_circle_buf, seq_num_to_index, free_space, advance_base,
}
use mini_tls.Tcp.CircleBuf.Span.{span}

pub record IsValid (cb : CircleBuf) : Type 0 where
  pub storage : length cb.buf ≡ cb.max_size
  pub nonempty : 0 < cb.max_size
  pub word : cb.max_size < u32_mod
  pub filled : cb.curr_size ≤ cb.max_size
  pub head_in : cb.head < cb.max_size
  pub base_word : cb.base_seq < u32_mod

-- The bytes that the ring holds for `n` sequence numbers from `seq` on.
abbrev pub region : CircleBuf → ℕ → ℕ → List ℕ
region cb seq n = span cb.buf cb.max_size (seq_num_to_index cb seq) n

pub new_circle_buf-IsValid :
    (m base : ℕ)
    → base < u32_mod
    → let cb = new_circle_buf m base in
      IsValid cb × (cb.curr_size ≡ 0) × (cb.max_size ≡ max_win_size) × (cb.base_seq ≡ base)
unfolding new_circle_buf
new_circle_buf-IsValid m base h = (
  record {
    storage = length-replicate max_win_size 0;
    nonempty = omega arith;
    word = omega arith;
    filled = omega arith;
    head_in = omega arith;
    base_word = h;
  },
  refl,
  refl,
  refl,
)

pub free_space_lem : {cb : CircleBuf} → IsValid cb → free_space cb ≡ cb.max_size - cb.curr_size
free_space_lem v = omega arith

pub advance_base-IsValid : {cb : CircleBuf} (n : ℕ) → IsValid cb → IsValid (advance_base cb n)
unfolding advance_base
advance_base-IsValid n v = ground arith

-- What advancing does to the counters; it stops at what the ring holds.
pub advance_base_lem :
    {cb : CircleBuf} (n : ℕ)
    → IsValid cb
    → n ≤ cb.curr_size
    → let cb' = advance_base cb n in
      (cb'.curr_size ≡ cb.curr_size - n)
      × (cb'.base_seq ≡ add32 cb.base_seq n)
      × (cb'.max_size ≡ cb.max_size)
      × (cb'.buf ≡ cb.buf)
unfolding advance_base
advance_base_lem n v h = ground arith
