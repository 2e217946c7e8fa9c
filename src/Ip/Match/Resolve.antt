-- ===== src/Ip/Match/Resolve.antt =====
-- What `LongestPrefixMatch` means: a longest match, and then one for its next hop, up to an entry
-- with an interface.
use mini_tls.Ip.Match.{Match, found, longest_prefix_match, not_found, scan}
use mini_tls.Ip.Match.Longest.{Best, Longest, Unmatched, scan-Best}
use mini_tls.Ip.Prefix.{Prefix}
use mini_tls.Ip.Types.{FwdEntry, infinity}
use mini_tls.Prelude.{
  str_eq, ℕ, zero, suc, ◌≤◌, ◌<◌, ◌≡◌, refl, sym, ◌∙◌, subst, ◌⊎◌, inl, inr, true, false, not,
  Option, none, some, List, [], arith, leb, if◌then◌else◌, Bool-cases, Option-cases,
}

-- An address resolves to an answer.
pub data Resolves (t : List (Prefix × FwdEntry)) : Option ℕ → Match → Type 0 where
  unset : Resolves t none not_found
  unmatched : {dest : ℕ} → Unmatched dest t → Resolves t (some dest) not_found
  direct :
      {dest : ℕ} {e : FwdEntry}
      → Longest dest t e
      → str_eq e.interface_name "" ≡ false
      → Resolves t (some dest) (found e dest)
  offline :
      {dest : ℕ} {e : FwdEntry}
      → Longest dest t e
      → str_eq e.interface_name "" ≡ true
      → infinity ≤ e.cost
      → Resolves t (some dest) not_found
  via :
      {dest : ℕ} {e : FwdEntry} {r : Match}
      → Longest dest t e
      → str_eq e.interface_name "" ≡ true
      → e.cost < infinity
      → Resolves t e.next_hop r
      → Resolves t (some dest) r

-- The loop at its result.
abbrev pub Scanned : ℕ → List (Prefix × FwdEntry) → Type 0
Scanned dest t =
    ((scan dest t none ≡ none) × Unmatched dest t)
    ⊎ ((e : FwdEntry) × (len : ℕ) × (scan dest t none ≡ some (len, e)) × Longest dest t e)

pub scanned : (dest : ℕ) (t : List (Prefix × FwdEntry)) → Scanned dest t
scanned dest t =
    let b = scan-Best dest t [] none (λ q f r. elim r [ ]) in
    elim (Option-cases (scan dest t none)) [
      | inl e ↦ inl (e, subst (Best dest t) e b)
      | inr ((len, f), e) ↦ inr (f, len, e, (subst (Best dest t) e b).0)
    ]

-- A round of the function at a match.
pub matched_round :
    (fuel dest len : ℕ) (t : List (Prefix × FwdEntry)) (e : FwdEntry)
    → scan dest t none ≡ some (len, e)
    → longest_prefix_match (suc fuel) t (some dest) ≡ (
        if not (str_eq e.interface_name "")
        then some (found e dest)
        else if leb infinity e.cost
        then some not_found
        else longest_prefix_match fuel t e.next_hop)
unfolding longest_prefix_match
matched_round fuel dest len t e h = rw (h, longest_prefix_match) refl

-- What the function returns is what the address resolves to.
pub longest_prefix_match-Resolves :
    (fuel : ℕ) (t : List (Prefix × FwdEntry)) (dest : Option ℕ) (r : Match)
    → longest_prefix_match fuel t dest ≡ some r
    → Resolves t dest r
unfolding longest_prefix_match
longest_prefix_match-Resolves zero t dest r h = cc
longest_prefix_match-Resolves (suc fuel) t none r h = subst (Resolves t none) (ground arith) unset
longest_prefix_match-Resolves (suc fuel) t (some dest) r h = elim (scanned dest t) [
  | inl (e, u) ↦ subst (Resolves t (some dest)) (ground (arith, e)) (unmatched u)
  | inr (f, len, e, l) ↦
      let h' = sym (matched_round fuel dest len t f e) ∙ h in
      elim (Bool-cases (str_eq f.interface_name "")) [
        | inr named ↦ subst (Resolves t (some dest)) (ground (arith, h', named)) (direct l named)
        | inl bare ↦ elim (Bool-cases (leb infinity f.cost)) [
          | inl down ↦
              subst (Resolves t (some dest)) (ground (arith, h', bare, down))
                (offline l bare (ground arith))
          | inr up ↦
              via l bare (ground arith)
                (longest_prefix_match-Resolves fuel t f.next_hop r (ground (arith, h', bare, up)))
        ]
      ]
]
