-- ===== src/Ip/Match/Longest.antt =====
-- The loop finds a longest match.
use mini_tls.Ip.Match.{longer, scan}
use mini_tls.Ip.Prefix.{Prefix, contains}
use mini_tls.Ip.Table.Rows.{Row, Row-append, Row-append_left, Row-last}
use mini_tls.Ip.Types.{FwdEntry}
use mini_tls.Prelude.{
  ℕ, ◌≤◌, ◌≡◌, refl, sym, ap, ◌∙◌, subst, inl, inr, true, false, ◌&&◌, Option, none, some, List, [],
  ◌∷◌, ◌++◌, append-nil, append_assoc, arith, ltb, if◌then◌else◌, Bool-cases, ltb→lt, ltb→le,
}
use mathlib.Core.Bool.{false≢true}

-- This entry has a prefix that contains the address, and no row has a longer one.
pub record Longest (dest : ℕ) (t : List (Prefix × FwdEntry)) (e : FwdEntry) : Type 0 where
  pub prefix : Prefix
  pub row : Row prefix e t
  pub matches : contains prefix dest ≡ true
  pub bound :
      (q : Prefix) (f : FwdEntry) → Row q f t → contains q dest ≡ true → q.bits ≤ prefix.bits

-- No row matches.
abbrev pub Unmatched : ℕ → List (Prefix × FwdEntry) → Type 0
Unmatched dest t = (q : Prefix) (f : FwdEntry) → Row q f t → contains q dest ≡ false

-- What the loop has found when it has passed `front`.
abbrev pub Best : ℕ → List (Prefix × FwdEntry) → Option (ℕ × FwdEntry) → Type 0
Best dest front none = Unmatched dest front
Best dest front (some (len, e)) = (l : Longest dest front e) × (l.prefix.bits ≡ len)

-- One more row that is not longer leaves the match a longest one.
Longest-later :
    (dest : ℕ) (front : List (Prefix × FwdEntry)) (p : Prefix) (e f : FwdEntry)
    → (l : Longest dest front e) → (contains p dest ≡ true → p.bits ≤ l.prefix.bits)
    → (l' : Longest dest (front ++ (p, f) ∷ []) e) × (l'.prefix ≡ l.prefix)
Longest-later dest front p e f l h = (
  record {
    prefix = l.prefix;
    row = Row-append_left l.prefix e front _ l.row;
    matches = l.matches;
    bound = λ q g r c. elim (Row-append q g front _ r) [
      | inl old ↦ l.bound q g old c
      | inr (inl new) ↦
          subst (λ x. x.bits ≤ l.prefix.bits) (sym new.0)
            (h (subst (λ x. contains x dest ≡ true) new.0 c))
      | inr (inr r') ↦ elim r' [ ]
    ];
  },
  refl,
)

-- A row that matches, and is longer than what was found before it.
Longest-last :
    (dest : ℕ) (front : List (Prefix × FwdEntry)) (p : Prefix) (e : FwdEntry)
    → contains p dest ≡ true
    → ((q : Prefix) (f : FwdEntry) → Row q f front → contains q dest ≡ true → q.bits ≤ p.bits)
    → (l : Longest dest (front ++ (p, e) ∷ []) e) × (l.prefix.bits ≡ p.bits)
Longest-last dest front p e c h = (
  record {
    prefix = p;
    row = Row-last p e front;
    matches = c;
    bound = λ q g r k. elim (Row-append q g front _ r) [
      | inl old ↦ h q g old k
      | inr (inl new) ↦ omega (arith, ap (λ x. x.bits) new.0)
      | inr (inr r') ↦ elim r' [ ]
    ];
  },
  refl,
)

Unmatched-later :
    (dest : ℕ) (front : List (Prefix × FwdEntry)) (p : Prefix) (e : FwdEntry)
    → contains p dest ≡ false
    → Unmatched dest front
    → Unmatched dest (front ++ (p, e) ∷ [])
Unmatched-later dest front p e c u q f r = elim (Row-append q f front _ r) [
  | inl old ↦ u q f old
  | inr (inl new) ↦ subst (λ x. contains x dest ≡ false) (sym new.0) c
  | inr (inr r') ↦ elim r' [ ]
]

step-Best :
    (dest : ℕ) (front : List (Prefix × FwdEntry)) (p : Prefix) (e : FwdEntry)
    (best : Option (ℕ × FwdEntry))
    → Best dest front best
    → Best dest
        (front ++ (p, e) ∷ [])
        (if contains p dest && longer p best then some (p.bits, e) else best)
step-Best dest front p e none u = elim (Bool-cases (contains p dest)) [
  | inl c ↦
      rw c (Longest-last dest front p e c (λ q f r k. absurd (false≢true (sym (u q f r) ∙ k))))
  | inr c ↦ rw c (Unmatched-later dest front p e c u)
]
step-Best dest front p e (some (len, f)) (l, m) = elim (Bool-cases (contains p dest)) [
  | inr c ↦ rw c (
      let r = Longest-later dest front p f e l (λ k. absurd (false≢true (sym c ∙ k))) in
      (r.0, ap (λ x. x.bits) r.1 ∙ m))
  | inl c ↦ rw c (elim (Bool-cases (ltb len p.bits)) [
    | inl h ↦
        rw h (Longest-last dest front p e c (λ q g r k. omega (arith, ltb→lt, l.bound q g r k)))
    | inr h ↦ rw h (
        let r = Longest-later dest front p f e l (λ k. omega (arith, ltb→le)) in
        (r.0, ap (λ x. x.bits) r.1 ∙ m))
  ])
]

pub scan-Best :
    (dest : ℕ) (t front : List (Prefix × FwdEntry)) (best : Option (ℕ × FwdEntry))
    → Best dest front best
    → Best dest (front ++ t) (scan dest t best)
unfolding scan
scan-Best dest [] front best b = subst (λ l. Best dest l best) (sym (append-nil front)) b
scan-Best dest ((p, e) ∷ t) front best b =
    subst (λ l. Best dest l (scan dest ((p, e) ∷ t) best)) (append_assoc front ((p, e) ∷ []) t)
      (scan-Best dest t (front ++ (p, e) ∷ []) _ (step-Best dest front p e best b))
