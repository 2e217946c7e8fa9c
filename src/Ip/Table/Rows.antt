-- ===== src/Ip/Table/Rows.antt =====
-- The rows of a table, and tables with one row for a key at most, as maps have.
use mini_tls.Ip.Table.{Key, insert, lookup, lookup-insert, lookup-map_values, map_values}
use mini_tls.Prelude.{
  ◌≡◌, refl, sym, ◌∙◌, subst, subst₂, ◌⊎◌, inl, inr, none, some, List, [], ◌∷◌, ◌++◌, arith,
  Bool-cases, >>=-eq-some,
}

module _ {K V : Type 0} where
  -- The table has this row.
  abbrev pub Row : K → V → List (K × V) → Type 0
  Row k v [] = ⊥
  Row k v ((j, w) ∷ m) = ((k ≡ j) × (v ≡ w)) ⊎ Row k v m

  pub Row-append : (k : K) (v : V) (l m : List (K × V)) → Row k v (l ++ m) → Row k v l ⊎ Row k v m
  Row-append k v [] m r = inr r
  Row-append k v (x ∷ l) m (inl r) = inl (inl r)
  Row-append k v (x ∷ l) m (inr r) = elim (Row-append k v l m r) [
    | inl h ↦ inl (inr h)
    | inr h ↦ inr h
  ]

  pub Row-append_left : (k : K) (v : V) (l m : List (K × V)) → Row k v l → Row k v (l ++ m)
  Row-append_left k v [] m r = elim r [ ]
  Row-append_left k v (x ∷ l) m (inl r) = inl r
  Row-append_left k v (x ∷ l) m (inr r) = inr (Row-append_left k v l m r)

  pub Row-last : (k : K) (v : V) (l : List (K × V)) → Row k v (l ++ (k, v) ∷ [])
  Row-last k v [] = inl (refl, refl)
  Row-last k v (x ∷ l) = inr (Row-last k v l)

module _ {K V : Type 0} ⦃key : Key K⦄ where
  abbrev pub Unique : List (K × V) → Type 0
  Unique [] = Unit {0}
  Unique ((k, v) ∷ m) = (lookup k m ≡ none) × Unique m

  pub Row-lookup : (k : K) (v : V) (m : List (K × V)) → lookup k m ≡ some v → Row k v m
  unfolding lookup
  Row-lookup k v [] h = cc
  Row-lookup k v ((j, w) ∷ m) h = elim (Bool-cases (key.same k j)) [
    | inl e ↦ inl (key.same→eq k j e, ground arith)
    | inr n ↦ inr (Row-lookup k v m (ground arith))
  ]

  absent : (k : K) (v : V) (m : List (K × V)) → lookup k m ≡ none → Row k v m → ⊥
  unfolding lookup
  absent k v [] h r = elim r [ ]
  absent k v ((j, w) ∷ m) h (inl r) = ground (arith, r.0, key.same_refl j)
  absent k v ((j, w) ∷ m) h (inr r) = absent k v m (ground arith) r

  pub lookup-Row : (k : K) (v : V) (m : List (K × V)) → Unique m → Row k v m → lookup k m ≡ some v
  unfolding lookup
  lookup-Row k v [] u r = elim r [ ]
  lookup-Row k v ((j, w) ∷ m) u (inl r) = ground (arith, r.0, r.1, key.same_refl j)
  lookup-Row k v ((j, w) ∷ m) u (inr r) = elim (Bool-cases (key.same k j)) [
    | inl e ↦ absurd (absent k v m (rw (key.same→eq k j e) u.0) r)
    | inr n ↦ rw n (lookup-Row k v m u.1 r)
  ]

  pub insert-Unique : (k : K) (v : V) (m : List (K × V)) → Unique m → Unique (insert k v m)
  unfolding lookup insert
  insert-Unique k v [] u = (refl, tt)
  insert-Unique k v ((j, w) ∷ m) u = elim (Bool-cases (key.same k j)) [
    | inl e ↦ rw e u
    | inr n ↦ rw n (
      ground (arith, lookup-insert k j v m, key.same→eq j k, key.same_refl j, u.0),
      insert-Unique k v m u.1,
    )
  ]

  pub map_values-Unique : (f : V → V) (m : List (K × V)) → Unique m → Unique (map_values f m)
  unfolding lookup map_values
  map_values-Unique f [] u = tt
  map_values-Unique f ((k, v) ∷ m) u =
      (ground (arith, lookup-map_values k f m, u.0), map_values-Unique f m u.1)

  pub Row-insert :
      (k q : K) (v w : V) (m : List (K × V)) → Row q w (insert k v m) → (q ≡ k) ⊎ Row q w m
  unfolding insert
  Row-insert k q v w [] (inl r) = inl (r.0)
  Row-insert k q v w [] (inr r) = elim r [ ]
  Row-insert k q v w ((j, x) ∷ m) r = elim (Bool-cases (key.same k j)) [
    | inl e ↦
        let r' : Row q w ((j, v) ∷ m) = subst (Row q w) {y = (j, v) ∷ m} (rw (e, insert) refl) r in
        elim r' [ inl here ↦ inl (here.0 ∙ sym (key.same→eq k j e)) | inr old ↦ inr (inr old) ]
    | inr n ↦
        let r' : Row q w ((j, x) ∷ insert k v m) =
          subst (Row q w) {y = (j, x) ∷ insert k v m} (rw (n, insert) refl) r in
        elim r' [
          | inl here ↦ inr (inl here)
          | inr later ↦ elim (Row-insert k q v w m later) [ inl h ↦ inl h | inr h ↦ inr (inr h) ]
        ]
  ]

  -- Every value has a property, with its key.
  abbrev pub Holds : (K → V → Type 0) → List (K × V) → Type 0
  Holds P m = (k : K) (v : V) → lookup k m ≡ some v → P k v

  pub nil-Holds : (P : K → V → Type 0) → Holds P []
  unfolding lookup
  nil-Holds P k v h = cc

  pub insert-Holds :
      (P : K → V → Type 0) (k : K) (v : V) (m : List (K × V))
      → P k v
      → Holds P m
      → Holds P (insert k v m)
  insert-Holds P k v m p h j w e =
      let e' = sym (lookup-insert k j v m) ∙ e in
      elim (Bool-cases (key.same j k)) [
        | inl same ↦
            let value : v ≡ w = ground (arith, e', same) in
            subst₂ P (sym (key.same→eq j k same)) value p
        | inr other ↦ h j w (ground (arith, e', other))
      ]

  pub map_values-Holds :
      (P : K → V → Type 0) (f : V → V) (m : List (K × V))
      → ((k : K) (v : V) → P k v → P k (f v))
      → Holds P m
      → Holds P (map_values f m)
  map_values-Holds P f m keep h k v e =
      let b = >>=-eq-some (lookup k m) (λ w. some (f w)) (sym (lookup-map_values k f m) ∙ e) in
      subst (P k) (cc (b.2)) (keep k b.0 (h k b.0 b.1))
