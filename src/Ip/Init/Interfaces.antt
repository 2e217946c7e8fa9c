-- ===== src/Ip/Init/Interfaces.antt =====
-- The map of the interfaces as `init` fills it, and the interfaces of the RIP neighbours.
use mini_tls.Ip.Config.{InterfaceConfig, NeighborConfig}
use mini_tls.Ip.Init.{
  add_neighbour, find_interface, init_interfaces, init_neighbors, rip_neighbours,
}
use mini_tls.Ip.Table.{insert, lookup, prefix_key, string_key, nat_key}
use mini_tls.Ip.Table.Rows.{Holds, Row, Unique, insert-Holds, insert-Unique, lookup-Row}
use mini_tls.Ip.Types.{Interface, Neighbour, RipNeighbour}
use mini_tls.Prelude.{
  String, ℕ, ◌≡◌, refl, ap, ◌∙◌, subst, inl, inr, some, List, [], ◌∷◌, ◌>>=◌, Option-cases,
  >>=-eq-some, All,
}

-- The interface of a RIP neighbour, and the neighbour on it.
abbrev pub Reachable : List (String × Interface) → RipNeighbour → Type 0
Reachable interfaces n =
    (iface : Interface) × (dest : Neighbour) × (lookup n.interface_name interfaces ≡ some iface)
    × (lookup n.router_ip iface.neighbours ≡ some dest)

-- An interface stands under its name.
abbrev pub IsNamed : String → Interface → Type 0
IsNamed name iface = iface.name ≡ name

-- The map of the interfaces.
abbrev pub IsMap : List (String × Interface) → Type 0
IsMap m = Unique m × Holds IsNamed m

pub init_interfaces-IsMap :
    (cs : List InterfaceConfig) (m : List (String × Interface))
    → IsMap m
    → IsMap (init_interfaces cs m)
unfolding init_interfaces
init_interfaces-IsMap [] m v = v
init_interfaces-IsMap (c ∷ cs) m v =
    init_interfaces-IsMap cs _
      (insert-Unique c.name _ m v.0, insert-Holds IsNamed c.name _ m refl v.1)

pub init_neighbors-IsMap :
    (ns : List NeighborConfig) (m m' : List (String × Interface))
    → IsMap m
    → init_neighbors ns m ≡ some m'
    → IsMap m'
unfolding init_neighbors
init_neighbors-IsMap [] m m' v h = let e : m ≡ m' = cc (h) in subst IsMap e v
init_neighbors-IsMap (n ∷ ns) m m' v h =
    let set = λ (iface : Interface). insert n.interface_name (add_neighbour n iface) m in
    let b = >>=-eq-some (lookup n.interface_name m) (λ iface. init_neighbors ns (set iface)) h in
    init_neighbors-IsMap ns (set b.0) m'
      (
        insert-Unique n.interface_name (add_neighbour n b.0) m v.0,
        insert-Holds IsNamed n.interface_name (add_neighbour n b.0) m (v.1 n.interface_name b.0 b.1)
            v.1,
      )
      b.2

-- The interface that is found for a RIP neighbour.
find_interface-Reachable :
    (ip : ℕ) (m whole : List (String × Interface)) (n : RipNeighbour)
    → IsMap whole
    → ((name : String) (iface : Interface) → Row name iface m → Row name iface whole)
    → find_interface ip m ≡ some n
    → Reachable whole n
unfolding find_interface
find_interface-Reachable ip [] whole n v sub h = cc
find_interface-Reachable ip ((name, iface) ∷ m) whole n v sub h =
    elim (Option-cases (lookup ip iface.neighbours)) [
      | inl missing ↦
          find_interface-Reachable ip m whole n v (λ k w r. sub k w (inr r))
            (rw (missing, find_interface) at h)
      | inr (dest, known) ↦
          let here = lookup-Row name iface whole v.0 (sub name iface (inl (refl, refl))) in
          let named = v.1 name iface here in
          let made : RipNeighbour = record { router_ip = ip; interface_name = iface.name } in
          let e : made ≡ n = cc (rw (known, find_interface) at h) in
          subst (Reachable whole) e (iface, dest, ap (λ k. lookup k whole) named ∙ here, known)
    ]

pub rip_neighbours-Reachable :
    (ips : List ℕ) (m : List (String × Interface)) (ns : List RipNeighbour)
    → IsMap m
    → rip_neighbours ips m ≡ some ns
    → All (Reachable m) ns
unfolding rip_neighbours
rip_neighbours-Reachable [] m ns v h = let e : [] ≡ ns = cc (h) in subst (All (Reachable m)) e tt
rip_neighbours-Reachable (ip ∷ ips) m ns v h =
    let join = λ (first : RipNeighbour) (others : List RipNeighbour). some (first ∷ others) in
    let a = >>=-eq-some (find_interface ip m) (λ first. rip_neighbours ips m >>= join first) h in
    let b = >>=-eq-some (rip_neighbours ips m) (join a.0) a.2 in
    let e : a.0 ∷ b.0 ≡ ns = cc (b.2) in
    subst (All (Reachable m)) e (
      find_interface-Reachable ip m m a.0 v (λ k w r. r) a.1,
      rip_neighbours-Reachable ips m b.0 v b.1,
    )
