-- ===== src/Ip/Prefix/Masks.antt =====
-- A mask and the number of its bits say the same. There are 33 masks, and each is looked at.
use mini_tls.Ip.Prefix.{cidr_mask, mask_size, size_below}
use mini_tls.Prelude.{
  ℕ, ◌^◌, ◌≤◌, ◌<◌, ◌≡◌, refl, true, arith, ltb, ◌==◌, ltb→lt, ==→eq, passes, passes_below,
}

mask_table : passes (λ bits. mask_size (cidr_mask bits) == bits) 33 ≡ true
unfolding passes mask_size size_below cidr_mask
mask_table = refl

pub mask_size-cidr_mask : (bits : ℕ) → bits ≤ 32 → mask_size (cidr_mask bits) ≡ bits
mask_size-cidr_mask bits h = ==→eq _ _ (passes_below _ 33 mask_table bits (omega arith))

bound_table : passes (λ bits. ltb (cidr_mask bits) (256 ^ 4)) 33 ≡ true
unfolding passes cidr_mask
bound_table = refl

pub cidr_mask_bound : (bits : ℕ) → bits ≤ 32 → cidr_mask bits < 256 ^ 4
cidr_mask_bound bits h = ltb→lt _ _ (passes_below _ 33 bound_table bits (omega arith))
