-- ===== src/Ip/Match.antt =====
-- `LongestPrefixMatch` of pkg/ipStack/ipStack.go.
pub mod Longest
pub mod Resolve
pub mod Loops
pub mod Order
use mini_tls.Ip.Prefix.{Prefix, contains}
use mini_tls.Ip.Types.{FwdEntry, infinity}
use mini_tls.Prelude.{
  str_eq, ℕ, zero, suc, Bool, true, not, ◌&&◌, Option, none, some, List, [], ◌∷◌, ltb, leb,
  if◌then◌else◌, ◌>>=◌,
}

-- `prefix.Bits() > maxLen`, where no match so far has length -1.
abbrev pub longer : Prefix → Option (ℕ × FwdEntry) → Bool
longer p none = true
longer p (some (max_len, e)) = ltb max_len p.bits

-- The loop over the table, with the longest match so far.
unfoldable pub scan : ℕ → List (Prefix × FwdEntry) → Option (ℕ × FwdEntry) → Option (ℕ × FwdEntry)
scan dest [] best = best
scan dest ((p, e) ∷ t) best =
    scan dest t (if contains p dest && longer p best then some (p.bits, e) else best)

-- What the function returns: an entry with the address to send to, or `false`.
pub data Match : Type 0 where
  found : FwdEntry → ℕ → Match
  not_found : Match

-- No prefix contains the zero address, which the next hop of a local entry is.
abbrev pub scan_at : List (Prefix × FwdEntry) → Option ℕ → Option (ℕ × FwdEntry)
scan_at t none = none
scan_at t (some dest) = scan dest t none >>= λ best. some (dest, best.1)

-- `LongestPrefixMatch`, with fuel for its recursion; `none` means that the fuel ran out.
unfoldable pub longest_prefix_match : ℕ → List (Prefix × FwdEntry) → Option ℕ → Option Match
longest_prefix_match zero t dest = none
longest_prefix_match (suc fuel) t dest = elim (scan_at t dest) [
  | none ↦ some not_found
  | some best ↦
      let e = best.1 in
      let rest = longest_prefix_match fuel t e.next_hop in
      if not (str_eq e.interface_name "")
      then some (found e best.0)
      else if leb infinity e.cost
      then some not_found
      else rest
]
