-- ===== src/Ip/Match/Loops.antt =====
-- When `LongestPrefixMatch` returns, and a route on which it does not.
use mini_tls.Ip.Match.{Match, found, longest_prefix_match, not_found, scan}
use mini_tls.Ip.Match.Longest.{Longest}
use mini_tls.Ip.Match.Resolve.{matched_round, scanned}
use mini_tls.Ip.Prefix.{Prefix}
use mini_tls.Ip.Table.Rows.{Row}
use mini_tls.Ip.Types.{FwdEntry, infinity}
use mini_tls.Prelude.{
  str_eq, ℕ, zero, suc, ◌<◌, ◌≡◌, refl, ap, ◌∙◌, inl, inr, true, false, Option, none, some, List,
  arith, leb, Bool-cases,
}

-- The next hop of each route is, by its longest match, on an interface.
abbrev pub Attached : List (Prefix × FwdEntry) → Type 0
Attached t =
    (q : Prefix) (f : FwdEntry) (n : ℕ) (e : FwdEntry)
    → Row q f t
    → f.next_hop ≡ some n
    → Longest n t e
    → str_eq e.interface_name "" ≡ false

-- At an address whose longest match has an interface.
one_round :
    (fuel : ℕ) (t : List (Prefix × FwdEntry)) (dest : Option ℕ)
    → ((n : ℕ) (e : FwdEntry) → dest ≡ some n → Longest n t e → str_eq e.interface_name "" ≡ false)
    → (r : Match) × (longest_prefix_match (suc fuel) t dest ≡ some r)
unfolding longest_prefix_match
one_round fuel t none h = (not_found, refl)
one_round fuel t (some n) h = elim (scanned n t) [
  | inl (e, u) ↦ (not_found, rw (e, longest_prefix_match) refl)
  | inr (f, len, e, l) ↦ (found f n, matched_round fuel n len t f e ∙ rw (h n f refl l) refl)
]

-- Where the next hops of all routes are attached, the recursion has two rounds at most.
pub longest_prefix_match-total :
    (fuel : ℕ) (t : List (Prefix × FwdEntry)) (dest : Option ℕ)
    → Attached t
    → (r : Match) × (longest_prefix_match (suc (suc fuel)) t dest ≡ some r)
unfolding longest_prefix_match
longest_prefix_match-total fuel t none a = (not_found, refl)
longest_prefix_match-total fuel t (some n) a = elim (scanned n t) [
  | inl (e, u) ↦ (not_found, rw (e, longest_prefix_match) refl)
  | inr (f, len, e, l) ↦
      let step = matched_round (suc fuel) n len t f e in
      elim (Bool-cases (str_eq f.interface_name "")) [
        | inr named ↦ (found f n, step ∙ rw named refl)
        | inl bare ↦ elim (Bool-cases (leb infinity f.cost)) [
          | inl down ↦ (not_found, step ∙ rw (bare, down) refl)
          | inr up ↦
              let rest = one_round fuel t f.next_hop (λ m g e' l'. a l.prefix f m g l.row e' l') in
              (rest.0, step ∙ rw (bare, up) rest.1)
        ]
      ]
]

-- A route that is the longest match of its own next hop is followed for ever.
pub self_route :
    (fuel n len : ℕ) (t : List (Prefix × FwdEntry)) (e : FwdEntry)
    → scan n t none ≡ some (len, e)
    → str_eq e.interface_name "" ≡ true
    → e.cost < infinity
    → e.next_hop ≡ some n
    → longest_prefix_match fuel t (some n) ≡ none
unfolding longest_prefix_match
self_route zero n len t e s bare up hop = refl
self_route (suc fuel) n len t e s bare up hop =
    let alive : leb infinity e.cost ≡ false = ground arith in
    matched_round fuel n len t e s
    ∙ rw (bare, alive)
        (ap (longest_prefix_match fuel t) hop ∙ self_route fuel n len t e s bare up hop)
