-- ===== src/Ip/Prefix.antt =====
-- `netip.Addr` and `netip.Prefix` of Go's library, for IPv4, and the masks of its package net. An
-- address is its 32 bits as a number; the zero `Addr` is `none` where the program uses it.
pub mod Masks
use mini_tls.Prelude.{
  ℕ, zero, suc, ◌-◌, ◌*◌, ◌/◌, ◌^◌, ◌≡◌, Bool, true, ◌&&◌, arith, ◌==◌, if◌then◌else◌,
}

-- `netip.Prefix`: the address is kept as it was given, host bits included.
pub record Prefix : Type 0 where
  pub addr : ℕ
  pub bits : ℕ

-- How many addresses a prefix of so many bits has.
abbrev pub block : ℕ → ℕ
block bits = 2 ^ (32 - bits)

-- `Prefix.Contains`
unfoldable pub contains : Prefix → ℕ → Bool
contains p a = p.addr / block p.bits == a / block p.bits

-- `Prefix.Masked`
abbrev pub masked : Prefix → Prefix
masked p = record p { addr = p.addr / block p.bits * block p.bits }

-- `==` on prefixes, which are the keys of the forwarding table.
abbrev pub same_prefix : Prefix → Prefix → Bool
same_prefix p q = p.addr == q.addr && p.bits == q.bits

-- `net.CIDRMask(bits, 32)` as a number, for at most 32 bits.
unfoldable pub cidr_mask : ℕ → ℕ
cidr_mask bits = 2 ^ 32 - block bits

-- The number of bits of a mask, looked for from a bound down.
unfoldable pub size_below : ℕ → ℕ → ℕ
size_below zero mask = 0
size_below (suc bits) mask =
    let rest = size_below bits mask in if cidr_mask (suc bits) == mask then suc bits else rest

-- `IPMask.Size`: a mask that is not of this form has size 0.
unfoldable pub mask_size : ℕ → ℕ
mask_size mask = size_below 32 mask

pub same_prefix_refl : (p : Prefix) → same_prefix p p ≡ true
same_prefix_refl p = ground arith

pub same_prefix→eq : (p q : Prefix) → same_prefix p q ≡ true → p ≡ q
same_prefix→eq p q h = ground arith
