-- ===== src/Ip/Table.antt =====
-- Go maps as association lists, for the three kinds of keys that pkg/ipStack has.
pub mod Rows
use mini_tls.Ip.Prefix.{Prefix, same_prefix, same_prefix_refl, same_prefix→eq}
use mini_tls.Prelude.{
  String, str_eq, eq_iff, ℕ, ◌≡◌, refl, ◌∙◌, Bool, true, Option, none, some, List, [], ◌∷◌, arith,
  ◌==◌, if◌then◌else◌, ◌>>=◌, ==→eq, ==_refl,
}

-- A table with a test on its keys that decides equality.
pub record Key (K : Type 0) : Type 0 where
  pub same : K → K → Bool
  pub same_refl : (k : K) → same k k ≡ true
  pub same→eq : (j k : K) → same j k ≡ true → j ≡ k

instance abbrev pub prefix_key : Key Prefix
prefix_key = record { same = same_prefix; same_refl = same_prefix_refl; same→eq = same_prefix→eq }

pub str_eq_refl : (s : String) → str_eq s s ≡ true
str_eq_refl s = (eq_iff s s).1 refl

pub str_eq→eq : (s t : String) → str_eq s t ≡ true → s ≡ t
str_eq→eq s t = (eq_iff s t).0

instance abbrev pub string_key : Key String
string_key = record { same = str_eq; same_refl = str_eq_refl; same→eq = str_eq→eq }

instance abbrev pub nat_key : Key ℕ
nat_key = record { same = ◌==◌; same_refl = ==_refl; same→eq = ==→eq }

module _ {K V : Type 0} ⦃key : Key K⦄ where
  -- `m[k]`
  unfoldable pub lookup : K → List (K × V) → Option V
  lookup p [] = none
  lookup p ((q, x) ∷ rows) = if key.same p q then some x else lookup p rows

  -- `m[k] = v`
  unfoldable pub insert : K → V → List (K × V) → List (K × V)
  insert p x [] = (p, x) ∷ []
  insert p x ((q, y) ∷ rows) = if key.same p q then (q, x) ∷ rows else (q, y) ∷ insert p x rows

  -- An assignment to a field of the value behind a pointer that the map holds.
  unfoldable pub map_values : (V → V) → List (K × V) → List (K × V)
  map_values g [] = []
  map_values g ((p, x) ∷ rows) = (p, g x) ∷ map_values g rows

  pub lookup-insert :
      (p q : K) (x : V) (rows : List (K × V))
      → lookup q (insert p x rows) ≡ (if key.same q p then some x else lookup q rows)
  unfolding lookup insert
  lookup-insert p q x [] = refl
  lookup-insert p q x ((r, y) ∷ rows) = ground (
    arith,
    key.same→eq p r,
    key.same→eq q r,
    key.same→eq q p,
    key.same_refl r,
    lookup-insert p q x rows,
  )

  pub lookup-insert_self :
      (p : K) (x : V) (rows : List (K × V)) → lookup p (insert p x rows) ≡ some x
  lookup-insert_self p x rows = lookup-insert p p x rows ∙ rw (key.same_refl p) refl

  pub lookup-map_values :
      (k : K) (f : V → V) (m : List (K × V))
      → lookup k (map_values f m) ≡ (lookup k m >>= λ v. some (f v))
  unfolding lookup map_values
  lookup-map_values k f [] = refl
  lookup-map_values k f ((j, v) ∷ m) = ground (arith, lookup-map_values k f m)
