-- ===== src/Ip/Match/Order.antt =====
-- The order in which `range` goes through the table does not matter to `LongestPrefixMatch`, as long
-- as the prefixes have no host bits.
use mini_tls.Ip.Match.{Match, longest_prefix_match, scan}
use mini_tls.Ip.Match.Longest.{Longest}
use mini_tls.Ip.Match.Resolve.{
  Resolves, direct, longest_prefix_match-Resolves, matched_round, offline, scanned, unmatched,
  unset, via,
}
use mini_tls.Ip.Prefix.{Prefix, block, contains, same_prefix→eq}
use mini_tls.Ip.Table.{lookup, prefix_key, string_key, nat_key}
use mini_tls.Ip.Table.Rows.{Row, Unique, lookup-Row}
use mini_tls.Ip.Types.{FwdEntry, infinity}
use mini_tls.Prelude.{
  ℕ, suc, ◌-◌, ◌*◌, ◌/◌, ◌≤◌, ◌≡◌, refl, sym, ap, ap₂, ◌∙◌, inl, inr, true, false, Option, none,
  some, List, arith, leb, ==→eq, eq→==,
}
use mathlib.Core.Bool.{false≢true}

-- A prefix that `Masked` leaves as it is.
abbrev pub IsMasked : Prefix → Type 0
IsMasked p = p.addr ≡ p.addr / block p.bits * block p.bits

abbrev pub AllMasked : List (Prefix × FwdEntry) → Type 0
AllMasked t = (q : Prefix) (f : FwdEntry) → Row q f t → IsMasked q

-- Two prefixes of the same size around one address are the same.
pub same_block :
    (p q : Prefix) (dest : ℕ)
    → IsMasked p
    → IsMasked q
    → contains p dest ≡ true
    → contains q dest ≡ true
    → p.bits ≡ q.bits
    → p ≡ q
unfolding contains
same_block p q dest mp mq cp cq e =
    let hp = ==→eq _ _ cp in
    let hq = ==→eq _ _ cq in
    let blocks : p.addr / block p.bits ≡ q.addr / block q.bits =
      hp ∙ ap (λ b. dest / block b) e ∙ sym hq in
    let addrs : p.addr ≡ q.addr = mp ∙ ap₂ (λ x b. x * block b) blocks e ∙ sym mq in
    same_prefix→eq p q (rw (eq→== _ _ addrs) (eq→== _ _ e))

module _ (t : List (Prefix × FwdEntry)) (u : Unique t) (m : AllMasked t) where
  pub Longest-unique : (dest : ℕ) (e f : FwdEntry) → Longest dest t e → Longest dest t f → e ≡ f
  Longest-unique dest e f l l' =
      let size : l.prefix.bits ≡ l'.prefix.bits =
        omega (arith, l.bound l'.prefix f l'.row l'.matches, l'.bound l.prefix e l.row l.matches) in
      let prefixes =
        same_block l.prefix l'.prefix dest (m _ _ l.row) (m _ _ l'.row) l.matches l'.matches size in
      cc (
        lookup-Row l.prefix e t u l.row,
        ap (λ p. lookup p t) prefixes,
        lookup-Row l'.prefix f t u l'.row,
      )

  scan-Longest :
      (dest : ℕ) (e : FwdEntry) → Longest dest t e → (len : ℕ) × (scan dest t none ≡ some (len, e))
  scan-Longest dest e l = elim (scanned dest t) [
    | inl (h, none_of) ↦ absurd (false≢true (sym (none_of l.prefix e l.row) ∙ l.matches))
    | inr (f, len, h, l') ↦ (len, h ∙ ap (λ x. some (len, x)) (Longest-unique dest f e l' l))
  ]

  -- With enough fuel the function returns what the address resolves to.
  pub Resolves-longest_prefix_match :
      (dest : Option ℕ) (r : Match)
      → Resolves t dest r
      → (k : ℕ) × ((fuel : ℕ) → k ≤ fuel → longest_prefix_match (suc fuel) t dest ≡ some r)
  unfolding longest_prefix_match
  Resolves-longest_prefix_match none r unset = (0, λ fuel h. refl)
  Resolves-longest_prefix_match (some dest) r (unmatched none_of) = elim (scanned dest t) [
    | inl (h, _) ↦ (0, λ fuel k. rw (h, longest_prefix_match) refl)
    | inr (f, len, h, l) ↦ absurd (false≢true (sym (none_of l.prefix f l.row) ∙ l.matches))
  ]
  Resolves-longest_prefix_match (some dest) r (direct l named) =
      let s = scan-Longest dest _ l in
      (0, λ fuel h. matched_round fuel dest s.0 t _ s.1 ∙ rw named refl)
  Resolves-longest_prefix_match (some dest) r (offline {e = e} l bare down) =
      let s = scan-Longest dest _ l in
      let off : leb infinity e.cost ≡ true = ground arith in
      (0, λ fuel h. matched_round fuel dest s.0 t _ s.1 ∙ rw (bare, off) refl)
  Resolves-longest_prefix_match (some dest) r (via {e = e} l bare up next) =
      let s = scan-Longest dest _ l in
      let on : leb infinity e.cost ≡ false = ground arith in
      let rest = Resolves-longest_prefix_match e.next_hop r next in
      (
        suc rest.0,
        λ fuel h.
            let more : fuel ≡ suc (fuel - 1) = omega arith in
            matched_round fuel dest s.0 t _ s.1
            ∙ rw (bare, on)
                (ap (λ n. longest_prefix_match n t e.next_hop) more
                  ∙ rest.1 (fuel - 1) (omega arith)),
      )

-- Two tables with the same rows.
abbrev pub SameRows : List (Prefix × FwdEntry) → List (Prefix × FwdEntry) → Type 0
SameRows t t' = (q : Prefix) (f : FwdEntry) → (Row q f t → Row q f t') × (Row q f t' → Row q f t)

Longest-SameRows :
    (dest : ℕ) (e : FwdEntry) (t t' : List (Prefix × FwdEntry))
    → SameRows t t'
    → Longest dest t e
    → Longest dest t' e
Longest-SameRows dest e t t' same l = record {
  prefix = l.prefix;
  row = (same l.prefix e).0 l.row;
  matches = l.matches;
  bound = λ q f r. l.bound q f ((same q f).1 r);
}

Resolves-SameRows :
    (t t' : List (Prefix × FwdEntry)) (dest : Option ℕ) (r : Match)
    → SameRows t t'
    → Resolves t dest r
    → Resolves t' dest r
Resolves-SameRows t t' none r same unset = unset
Resolves-SameRows t t' (some dest) r same (unmatched none_of) =
    unmatched (λ q f row. none_of q f ((same q f).1 row))
Resolves-SameRows t t' (some dest) r same (direct l named) =
    direct (Longest-SameRows dest _ t t' same l) named
Resolves-SameRows t t' (some dest) r same (offline l bare down) =
    offline (Longest-SameRows dest _ t t' same l) bare down
Resolves-SameRows t t' (some dest) r same (via l bare up next) =
    via (Longest-SameRows dest _ t t' same l) bare up (Resolves-SameRows t t' _ r same next)

-- In whatever order the rows are gone through, a look-up that returns returns the same.
pub longest_prefix_match_order :
    (t t' : List (Prefix × FwdEntry)) (dest : Option ℕ) (fuel : ℕ) (r : Match)
    → Unique t'
    → AllMasked t'
    → SameRows t t'
    → longest_prefix_match fuel t dest ≡ some r
    → (k : ℕ) × ((fuel' : ℕ) → k ≤ fuel' → longest_prefix_match (suc fuel') t' dest ≡ some r)
longest_prefix_match_order t t' dest fuel r u m same h =
    Resolves-longest_prefix_match t' u m dest r
      (Resolves-SameRows t t' dest r same (longest_prefix_match-Resolves fuel t dest r h))
