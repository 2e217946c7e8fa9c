-- ===== src/Rip/Update/Faults.antt =====
-- Two faults: what a triggered update tells of a new route, and a route to the neighbour itself.
use mini_tls.Ip.Match.{longest_prefix_match, scan}
use mini_tls.Ip.Match.Loops.{self_route}
use mini_tls.Ip.Match.Resolve.{Scanned, scanned}
use mini_tls.Ip.Prefix.{Prefix, block, contains, same_prefix→eq}
use mini_tls.Ip.Table.{
  insert, lookup, lookup-insert_self, str_eq_refl, prefix_key, string_key, nat_key,
}
use mini_tls.Ip.Table.Rows.{Row, Row-insert, Row-lookup, Unique, insert-Unique, lookup-Row}
use mini_tls.Ip.Types.{FwdEntry, RipEntry, infinity}
use mini_tls.Prelude.{
  ℕ, ◌+◌, ◌/◌, ◌≤◌, ◌<◌, ◌≡◌, refl, sym, ap, ◌∙◌, subst, inl, inr, true, none, some, List, [], ◌∷◌,
  arith, ==→eq, ==_refl, eq→==,
}
use mini_tls.Rip.Update.{cost_via, handle_entry, learned}
use mathlib.Core.Bool.{false≢true}

-- A route that is new in two routers, one behind the other.
pub record Understated (src us now : ℕ) (r : RipEntry) (t t' : List (Prefix × FwdEntry))
    : Type 0 where
  pub ours : FwdEntry
  pub theirs : FwdEntry
  pub told : (handle_entry src now r t).1 ≡ r ∷ []
  pub our_row : lookup r.prefix (handle_entry src now r t).0 ≡ some ours
  pub their_row : lookup r.prefix (handle_entry us now r t').0 ≡ some theirs
  pub by_us : theirs.next_hop ≡ some us
  pub no_further : theirs.cost ≡ ours.cost
  pub one_more : ours.cost ≡ r.cost + 1

-- A router that learns a route that is new to it tells its neighbours the entry that it was told, with
-- the cost of the router before it. A neighbour to which the route is new as well takes it by way of
-- this router at the cost that this router has itself, not at one more.
pub handle_entry-Understated :
    (src us now : ℕ) (r : RipEntry) (t t' : List (Prefix × FwdEntry))
    → r.cost < infinity
    → lookup r.prefix t ≡ none
    → lookup r.prefix t' ≡ none
    → Understated src us now r t t'
unfolding handle_entry
handle_entry-Understated src us now r t t' up new new' =
    let cost : cost_via r ≡ r.cost + 1 = ground arith in
    record {
      ours = learned src now r (cost_via r);
      theirs = learned us now r (cost_via r);
      told = rw (new, handle_entry) refl;
      our_row = rw (new, handle_entry) (lookup-insert_self r.prefix _ t);
      their_row = rw (new', handle_entry) (lookup-insert_self r.prefix _ t');
      by_us = refl;
      no_further = refl;
      one_more = cost;
    }

-- No prefix is longer than an address.
abbrev pub AllShort : List (Prefix × FwdEntry) → Type 0
AllShort t = (q : Prefix) (f : FwdEntry) → Row q f t → q.bits ≤ 32

-- The prefix of one address.
abbrev pub host : ℕ → Prefix
host n = record { addr = n; bits = 32 }

host_contains : (n : ℕ) → contains (host n) n ≡ true
unfolding contains
host_contains n = ==_refl _

host_lem : (n : ℕ) (p : Prefix) → p.bits ≡ 32 → contains p n ≡ true → p ≡ host n
unfolding contains
host_lem n p size c =
    let blocks : p.addr / 1 ≡ n / 1 =
      subst (λ b. p.addr / block b ≡ n / block b) size (==→eq _ _ c) in
    let addrs : p.addr ≡ n = omega (arith, blocks) in
    same_prefix→eq p (host n) (rw (eq→== _ _ addrs) (eq→== _ _ size))

-- When a neighbour offers a route to its own address at a cost below 15, and the table, with one row for
-- a prefix and no prefix longer than an address, has none, then a look-up of that address does not return
-- any more, with whatever fuel.
pub handle_entry_self_route :
    (src now cost fuel : ℕ) (t : List (Prefix × FwdEntry))
    → cost + 1 < infinity
    → Unique t
    → AllShort t
    → lookup (host src) t ≡ none
    → let r : RipEntry = record { cost = cost; prefix = host src } in
      longest_prefix_match fuel (handle_entry src now r t).0 (some src) ≡ none
unfolding handle_entry
handle_entry_self_route src now cost fuel t up u short new =
    rw (new, handle_entry) (looping (scanned src t'))
  where
    r : RipEntry
    r = record { cost = cost; prefix = host src }

    e : FwdEntry
    e = learned src now r (cost_via r)

    t' : List (Prefix × FwdEntry)
    t' = insert (host src) e t

    row : Row (host src) e t'
    row = Row-lookup (host src) e t' (lookup-insert_self (host src) e t)

    looping : Scanned src t' → longest_prefix_match fuel t' (some src) ≡ none
    looping (inl (h, none_of)) =
        absurd (false≢true (sym (none_of (host src) e row) ∙ host_contains src))
    looping (inr (f, len, h, l)) =
        let long = l.bound (host src) e row (host_contains src) in
        let size : l.prefix.bits ≡ 32 = elim (Row-insert (host src) l.prefix e f t l.row) [
          | inl same ↦ ap (λ p. p.bits) same
          | inr old ↦ omega (arith, short l.prefix f old)
        ] in
        let place = host_lem src l.prefix size l.matches in
        let u' = insert-Unique (host src) e t u in
        let here : some f ≡ some e =
          sym (lookup-Row l.prefix f t' u' l.row)
          ∙ ap (λ p. lookup p t') place
          ∙ lookup-Row (host src) e t' u' row in
        let entry : f ≡ e = cc (here) in
        let s : scan src t' none ≡ some (len, e) = h ∙ ap (λ x. some (len, x)) entry in
        self_route fuel src len t' e s (str_eq_refl "") (ground arith) refl
