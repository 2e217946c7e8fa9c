-- ===== src/Rip/Update/Vector.antt =====
-- The update of the table is that of a distance vector protocol, prefix by prefix.
use mini_tls.Ip.Prefix.{Prefix, same_prefix, same_prefix→eq}
use mini_tls.Ip.Table.{lookup, lookup-insert, prefix_key, string_key, nat_key}
use mini_tls.Ip.Types.{FwdEntry, RipEntry, SourceType, infinity, local, rip, static}
use mini_tls.Prelude.{
  ℕ, ◌≤◌, ◌≡◌, refl, sym, ap, ◌∙◌, subst, ◌⊎◌, inl, inr, true, false, ◌||◌, Option, none, some,
  List, [], ◌∷◌, arith, ltb, ◌==◌, if◌then◌else◌, Bool-cases, ==→eq,
}
use mini_tls.Rip.Update.{
  apply_change, change, change_by, change_of_rip, cost_via, handle_entries, handle_entry, kept,
  learned, next_hop_is, refreshed, replaced,
}

-- What a row of the forwarding table always is.
pub record IsRow (p : Prefix) (e : FwdEntry) : Type 0 where
  pub prefix : e.prefix ≡ p
  pub cost : e.cost ≤ infinity
  pub learned_row : e.source ≡ rip → (e.interface_name ≡ "") × ((hop : ℕ) × (e.next_hop ≡ some hop))

abbrev pub IsTable : List (Prefix × FwdEntry) → Type 0
IsTable t = (p : Prefix) (e : FwdEntry) → lookup p t ≡ some e → IsRow p e

-- The step of Bellman and Ford at one prefix, for the cost by way of the sender: a route by way of the
-- sender follows it, any other one gives way to a lower cost, and what was not learned stays.
abbrev pub relax_rip : ℕ → ℕ → RipEntry → FwdEntry → FwdEntry
relax_rip src now r e =
    if next_hop_is src e || ltb (cost_via r) e.cost then learned src now r (cost_via r) else e

abbrev pub relax_by : SourceType → ℕ → ℕ → RipEntry → FwdEntry → FwdEntry
relax_by rip src now r e = relax_rip src now r e
relax_by _ src now r e = e

abbrev pub relax : ℕ → ℕ → RipEntry → Option FwdEntry → FwdEntry
relax src now r none = learned src now r (cost_via r)
relax src now r (some e) = relax_by e.source src now r e

pub cost_via_bound : (r : RipEntry) → cost_via r ≤ infinity
cost_via_bound r = ground arith

next_hop_lem :
    (src : ℕ) (hop : Option ℕ)
    → elim hop [ none ↦ false | some h ↦ src == h ] ≡ true
    → hop ≡ some src
next_hop_lem src none h = cc
next_hop_lem src (some n) h = ap some (sym (==→eq src n h))

refreshed_row :
    (src now : ℕ) (r : RipEntry) (e : FwdEntry)
    → IsRow r.prefix e
    → e.source ≡ rip
    → next_hop_is src e ≡ true
    → (cost_via r == e.cost) ≡ true
    → record e { last_updated = now } ≡ learned src now r (cost_via r)
refreshed_row src now r e v s n c =
    let hop = next_hop_lem src e.next_hop n in
    let name = (v.learned_row s).0 in
    let cost : e.cost ≡ cost_via r = sym (==→eq _ _ c) in
    λ i. record {
      prefix = v.prefix i;
      next_hop = hop i;
      interface_name = name i;
      source = s i;
      cost = cost i;
      last_updated = now;
    }

kept_row :
    (r : RipEntry) (t : List (Prefix × FwdEntry)) (e : FwdEntry) (q : Prefix)
    → lookup r.prefix t ≡ some e
    → lookup q t ≡ (if same_prefix q r.prefix then some e else lookup q t)
kept_row r t e q h = elim (Bool-cases (same_prefix q r.prefix)) [
  | inl same ↦ rw same (ap (λ p. lookup p t) (same_prefix→eq q r.prefix same) ∙ h)
  | inr other ↦ rw other refl
]

-- What the tests of the loop come to.
abbrev Decided : ℕ → ℕ → RipEntry → FwdEntry → Type 0
Decided src now r e =
    ((change_of_rip src r e ≡ replaced (cost_via r))
      × (relax_rip src now r e ≡ learned src now r (cost_via r)))
    ⊎ ((change_of_rip src r e ≡ refreshed)
        × (next_hop_is src e ≡ true)
        × ((cost_via r == e.cost) ≡ true)
        × (relax_rip src now r e ≡ learned src now r (cost_via r)))
    ⊎ ((change_of_rip src r e ≡ kept) × (relax_rip src now r e ≡ e))

decided : (src now : ℕ) (r : RipEntry) (e : FwdEntry) → Decided src now r e
decided src now r e = elim (Bool-cases (next_hop_is src e)) [
  | inl through ↦ elim (Bool-cases (cost_via r == e.cost)) [
    | inl same ↦
        let a : ltb (cost_via r) e.cost ≡ false = ground (arith, ==→eq (cost_via r) e.cost) in
        let b : ltb e.cost (cost_via r) ≡ false = ground (arith, ==→eq (cost_via r) e.cost) in
        inr (inl (rw (a, b, same, through) refl, through, same, rw through refl))
    | inr other ↦ elim (Bool-cases (ltb (cost_via r) e.cost)) [
      | inl a ↦ inl (rw a refl, rw through refl)
      | inr a ↦
          let b : ltb e.cost (cost_via r) ≡ true = ground arith in
          inl (rw (a, b, through) refl, rw through refl)
    ]
  ]
  | inr not_via ↦ elim (Bool-cases (ltb (cost_via r) e.cost)) [
    | inl a ↦ inl (rw a refl, rw (not_via, a) refl)
    | inr a ↦ inr (inr (ground arith, rw (not_via, a) refl))
  ]
]

rip_entry-Relaxed :
    (src now : ℕ) (r : RipEntry) (t : List (Prefix × FwdEntry)) (e : FwdEntry) (q : Prefix)
    → IsRow r.prefix e
    → lookup r.prefix t ≡ some e
    → e.source ≡ rip
    → lookup q (apply_change src now r (some e) (change_of_rip src r e) t).0
      ≡ (if same_prefix q r.prefix then some (relax_rip src now r e) else lookup q t)
rip_entry-Relaxed src now r t e q v h s = elim (decided src now r e) [
  | inl (c, new) ↦ rw (c, new) (lookup-insert r.prefix q _ t)
  | inr (inl (c, through, same, new)) ↦
      rw (c, new)
        (lookup-insert r.prefix q _ t
          ∙ ap (λ x. if same_prefix q r.prefix then some x else lookup q t)
              (refreshed_row src now r e v s through same))
  | inr (inr (c, old)) ↦ rw (c, old) (kept_row r t e q h)
]

-- The same for a row of each kind.
source-Relaxed :
    (src now : ℕ) (r : RipEntry) (t : List (Prefix × FwdEntry)) (e : FwdEntry) (q : Prefix)
    (s : SourceType)
    → IsRow r.prefix e
    → lookup r.prefix t ≡ some e
    → e.source ≡ s
    → lookup q (apply_change src now r (some e) (change_by s src r e) t).0
      ≡ (if same_prefix q r.prefix then some (relax_by s src now r e) else lookup q t)
source-Relaxed src now r t e q rip v h s = rip_entry-Relaxed src now r t e q v h s
source-Relaxed src now r t e q local v h s = kept_row r t e q h
source-Relaxed src now r t e q static v h s = kept_row r t e q h

entry-Relaxed :
    (src now : ℕ) (r : RipEntry) (t : List (Prefix × FwdEntry)) (q : Prefix) (o : Option FwdEntry)
    → IsTable t
    → lookup r.prefix t ≡ o
    → lookup q (apply_change src now r o (change src r o) t).0
      ≡ (if same_prefix q r.prefix then some (relax src now r o) else lookup q t)
entry-Relaxed src now r t q none v h = lookup-insert r.prefix q _ t
entry-Relaxed src now r t q (some e) v h =
    source-Relaxed src now r t e q e.source (v r.prefix e h) h refl

-- A round relaxes the prefix of its entry, and the other prefixes keep their rows.
pub handle_entry-relax :
    (src now : ℕ) (r : RipEntry) (t : List (Prefix × FwdEntry)) (q : Prefix)
    → IsTable t
    → lookup q (handle_entry src now r t).0
      ≡ (if same_prefix q r.prefix then some (relax src now r (lookup r.prefix t)) else lookup q t)
unfolding handle_entry
handle_entry-relax src now r t q v = entry-Relaxed src now r t q (lookup r.prefix t) v refl

learned-IsRow : (src now : ℕ) (r : RipEntry) → IsRow r.prefix (learned src now r (cost_via r))
learned-IsRow src now r = record {
  prefix = refl;
  cost = cost_via_bound r;
  learned_row = λ _. (refl, (src, refl));
}

relax_by-IsRow :
    (s : SourceType) (src now : ℕ) (r : RipEntry) (e : FwdEntry)
    → IsRow r.prefix e
    → IsRow r.prefix (relax_by s src now r e)
relax_by-IsRow local src now r e v = v
relax_by-IsRow static src now r e v = v
relax_by-IsRow rip src now r e v =
    elim (Bool-cases (next_hop_is src e || ltb (cost_via r) e.cost)) [
      | inl new ↦ rw new (learned-IsRow src now r)
      | inr old ↦ rw old v
    ]

relax-IsRow :
    (src now : ℕ) (r : RipEntry) (o : Option FwdEntry)
    → ((e : FwdEntry) → o ≡ some e → IsRow r.prefix e)
    → IsRow r.prefix (relax src now r o)
relax-IsRow src now r none v = learned-IsRow src now r
relax-IsRow src now r (some e) v = relax_by-IsRow e.source src now r e (v e refl)

handle_entry-IsTable :
    (src now : ℕ) (r : RipEntry) (t : List (Prefix × FwdEntry))
    → IsTable t
    → IsTable (handle_entry src now r t).0
handle_entry-IsTable src now r t v p e h =
    let h' = sym (handle_entry-relax src now r t p v) ∙ h in
    elim (Bool-cases (same_prefix p r.prefix)) [
      | inl same ↦
          let new : relax src now r (lookup r.prefix t) ≡ e = ground (arith, h', same) in
          subst (λ x. IsRow x e) (sym (same_prefix→eq p r.prefix same))
            (subst (IsRow r.prefix) new (relax-IsRow src now r (lookup r.prefix t) (v r.prefix)))
      | inr other ↦ v p e (ground (arith, h', other))
    ]

-- What the entries of a message make of a row, in their order.
unfoldable pub relax_all : ℕ → ℕ → Prefix → List RipEntry → Option FwdEntry → Option FwdEntry
relax_all src now q [] row = row
relax_all src now q (r ∷ rs) row =
    relax_all src now q rs (if same_prefix q r.prefix then some (relax src now r row) else row)

-- For a table whose rows are as they always are, the entries of a message from `src` make of each row
-- what the distance vector algorithm makes of it, and the rows stay as they always are.
pub handle_entries-relax_all :
    (src now : ℕ) (rs : List RipEntry) (t : List (Prefix × FwdEntry))
    → IsTable t
    → ((q : Prefix)
        → lookup q (handle_entries src now rs t).0 ≡ relax_all src now q rs (lookup q t))
      × IsTable (handle_entries src now rs t).0
unfolding handle_entries relax_all
handle_entries-relax_all src now [] t v = (λ q. refl, v)
handle_entries-relax_all src now (r ∷ rs) t v =
    let rest =
      handle_entries-relax_all src now rs (handle_entry src now r t).0
        (handle_entry-IsTable src now r t v) in
    (λ q. rest.0 q ∙ ap (relax_all src now q rs) (round q), rest.1)
  where
    round :
        (q : Prefix)
        → lookup q (handle_entry src now r t).0
          ≡ (if same_prefix q r.prefix then some (relax src now r (lookup q t)) else lookup q t)
    round q = handle_entry-relax src now r t q v ∙ elim (Bool-cases (same_prefix q r.prefix)) [
      | inl same ↦
          rw same
            (ap (λ p. some (relax src now r (lookup p t))) (sym (same_prefix→eq q r.prefix same)))
      | inr other ↦ rw other refl
    ]
