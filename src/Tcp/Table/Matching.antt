-- ===== src/Tcp/Table/Matching.antt =====
-- `tableMatch`: an exact match is preferred to a listener, in whatever order the map is gone through.
use mini_tls.Prelude.{
  ℕ, ◌≡◌, refl, sym, subst, ◌⊎◌, inl, inr, Bool, true, false, not, ◌&&◌, Option, none, some, List,
  [], ◌∷◌, ◌==◌, Bool-cases, All,
}
use mini_tls.Tcp.Table.{Socket, entry_of, is_listen, table_match}

module _ (src_port src_ip dest_port dest_ip : ℕ) where
  -- The entry is of this very connection.
  abbrev pub is_exact : Socket → Bool
  is_exact s =
      let e = entry_of s in
      not (is_listen e.state)
      && (e.local_port == dest_port)
      && (e.dest_port == src_port)
      && (e.local_ip == dest_ip)
      && (e.dest_ip == src_ip)

  -- The entry is a listener on the port.
  abbrev pub is_listener : Socket → Bool
  is_listener s = is_listen (entry_of s).state && ((entry_of s).local_port == dest_port)

  abbrev pub IsIn : ℕ × Socket → List (ℕ × Socket) → Type 0
  IsIn p [] = ⊥
  IsIn p (q ∷ m) = (p ≡ q) ⊎ IsIn p m

  abbrev pub NoneExact : List (ℕ × Socket) → Type 0
  NoneExact m = All (λ p. is_exact p.1 ≡ false) m

  abbrev pub NoListener : List (ℕ × Socket) → Type 0
  NoListener m = All (λ p. is_listener p.1 ≡ false) m

  -- What may be found: an exact match of the table; or, if it has none, a listener of it; or, if it
  -- has neither, what was found before.
  abbrev pub Found : List (ℕ × Socket) → Option (ℕ × Socket) → Option (ℕ × Socket) → Type 0
  Found m before r =
      ((p : ℕ × Socket) × (r ≡ some p) × IsIn p m × (is_exact p.1 ≡ true))
      ⊎ (NoneExact m × ((p : ℕ × Socket) × (r ≡ some p) × IsIn p m × (is_listener p.1 ≡ true)))
      ⊎ (NoneExact m × NoListener m × (r ≡ before))

  Found-listener :
      (id : ℕ) (s : Socket) (m : List (ℕ × Socket)) (before r : Option (ℕ × Socket))
      → is_exact s ≡ false
      → is_listener s ≡ true
      → Found m (some (id, s)) r
      → Found ((id, s) ∷ m) before r
  Found-listener id s m before r other here (inl (p, e, i, x)) = inl (p, e, inr i, x)
  Found-listener id s m before r other here (inr (inl (never, (p, e, i, x)))) =
      inr (inl ((other, never), (p, e, inr i, x)))
  Found-listener id s m before r other here (inr (inr (never, _, e))) =
      inr (inl ((other, never), ((id, s), e, inl refl, here)))

  Found-other :
      (id : ℕ) (s : Socket) (m : List (ℕ × Socket)) (before r : Option (ℕ × Socket))
      → is_exact s ≡ false
      → is_listener s ≡ false
      → Found m before r
      → Found ((id, s) ∷ m) before r
  Found-other id s m before r other absent (inl (p, e, i, x)) = inl (p, e, inr i, x)
  Found-other id s m before r other absent (inr (inl (never, (p, e, i, x)))) =
      inr (inl ((other, never), (p, e, inr i, x)))
  Found-other id s m before r other absent (inr (inr (never, none_there, e))) =
      inr (inr ((other, never), (absent, none_there), e))

  table_match-Found :
      (m : List (ℕ × Socket)) (before : Option (ℕ × Socket))
      → Found m before (table_match src_port src_ip dest_port dest_ip m before)
  unfolding table_match
  table_match-Found [] before = inr (inr (tt, tt, refl))
  table_match-Found ((id, s) ∷ m) before = elim (Bool-cases (is_exact s)) [
    | inl exact ↦ inl ((id, s), rw exact refl, inl refl, exact)
    | inr other ↦ elim (Bool-cases (is_listener s)) [
      | inl here ↦
          subst (Found ((id, s) ∷ m) before)
            {x = table_match src_port src_ip dest_port dest_ip m (some (id, s))}
            (sym (rw (other, here) refl))
            (Found-listener id s m before _ other here (table_match-Found m (some (id, s))))
      | inr absent ↦
          subst (Found ((id, s) ∷ m) before)
            {x = table_match src_port src_ip dest_port dest_ip m before}
            (sym (rw (other, absent) refl))
            (Found-other id s m before _ other absent (table_match-Found m before))
    ]
  ]

  -- `tableMatch` finds an exact match where the table has one, or else a listener on the port where
  -- it has one, or else nothing.
  pub table_match_lem :
      (m : List (ℕ × Socket)) → Found m none (table_match src_port src_ip dest_port dest_ip m none)
  table_match_lem m = table_match-Found m none
