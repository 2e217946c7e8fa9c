-- ===== src/Ip/Init/Ready.antt =====
-- A stack that was started is ready: its forwarding table is a map with the rows that it should have,
-- and each RIP neighbour is known on its interface.
use mini_tls.Ip.Config.{IpConfig, RoutingMode, routing_none, routing_rip, routing_static}
use mini_tls.Ip.Init.{
  add_local, add_static, all_listen, init_fwd_table, init_interfaces, init_ip_stack, init_neighbors,
  init_rip, init_routing, is_static, local_entry, ready, reset_cost, rip_neighbours, set_rip_info,
  start, static_entry,
}
use mini_tls.Ip.Init.Interfaces.{
  IsMap, IsNamed, Reachable, init_interfaces-IsMap, init_neighbors-IsMap, rip_neighbours-Reachable,
}
use mini_tls.Ip.Prefix.{Prefix}
use mini_tls.Ip.Table.{map_values, prefix_key, string_key, nat_key}
use mini_tls.Ip.Table.Rows.{
  Unique, insert-Holds, insert-Unique, map_values-Holds, map_values-Unique, nil-Holds,
}
use mini_tls.Ip.Types.{AddrPort, FwdEntry, Interface, IpStack, RipNeighbour}
use mini_tls.Prelude.{
  String, ℕ, ◌≡◌, refl, subst, inl, inr, Bool, Option, none, some, List, [], ◌∷◌, arith, ◌>>=◌,
  Bool-cases, >>=-eq-some, All,
}
use mini_tls.Rip.Update.Vector.{IsRow, IsTable}

-- What holds of a stack at all times.
pub record IsReady (stack : IpStack) : Type 0 where
  pub table : IsTable stack.forwarding_table
  pub unique : Unique stack.forwarding_table
  pub reachable : All (Reachable stack.interfaces) stack.rip_info.neighbors

add_local-IsTable :
    (m : List (String × Interface)) (t : List (Prefix × FwdEntry))
    → Unique t
    → IsTable t
    → Unique (add_local m t) × IsTable (add_local m t)
unfolding add_local
add_local-IsTable [] t u v = (u, v)
add_local-IsTable ((name, iface) ∷ m) t u v =
    add_local-IsTable m _ (insert-Unique iface.prefix _ t u) (
      insert-Holds IsRow iface.prefix (local_entry iface) t
        (record { prefix = refl; cost = omega arith; learned_row = λ e. cc }) v)

add_static-IsTable :
    (routes : List (Prefix × ℕ)) (t : List (Prefix × FwdEntry))
    → Unique t
    → IsTable t
    → Unique (add_static routes t) × IsTable (add_static routes t)
unfolding add_static
add_static-IsTable [] t u v = (u, v)
add_static-IsTable ((prefix, address) ∷ routes) t u v =
    add_static-IsTable routes _ (insert-Unique prefix _ t u) (
      insert-Holds IsRow prefix (static_entry prefix address) t
        (record { prefix = refl; cost = omega arith; learned_row = λ e. cc }) v)

start-IsReady : (m : List (String × Interface)) (config : IpConfig) → IsReady (start m config)
unfolding init_fwd_table
start-IsReady m config =
    let locals = add_local-IsTable m [] tt (nil-Holds IsRow) in
    let both = add_static-IsTable config.static_routes (add_local m []) locals.0 locals.1 in
    record { table = both.1; unique = both.0; reachable = tt }

reset_cost-IsRow : (p : Prefix) (e : FwdEntry) → IsRow p e → IsRow p (reset_cost e)
reset_cost-IsRow p e v = elim (Bool-cases (is_static e.source)) [
  | inl s ↦ rw s (record { prefix = v.prefix; cost = omega arith; learned_row = v.learned_row })
  | inr s ↦ rw s v
]

init_rip-IsReady :
    (config : IpConfig) (stack : IpStack) (o : Option (List RipNeighbour))
    → IsMap stack.interfaces
    → IsReady stack
    → rip_neighbours config.rip_neighbors stack.interfaces ≡ o
    → IsReady (
        set_rip_info config o
          (record stack { forwarding_table = map_values reset_cost stack.forwarding_table }))
init_rip-IsReady config stack none v r h = record {
  table = map_values-Holds IsRow reset_cost stack.forwarding_table reset_cost-IsRow r.table;
  unique = map_values-Unique reset_cost stack.forwarding_table r.unique;
  reachable = r.reachable;
}
init_rip-IsReady config stack (some ns) v r h = record {
  table = map_values-Holds IsRow reset_cost stack.forwarding_table reset_cost-IsRow r.table;
  unique = map_values-Unique reset_cost stack.forwarding_table r.unique;
  reachable = rip_neighbours-Reachable config.rip_neighbors stack.interfaces ns v h;
}

routing-IsReady :
    (mode : RoutingMode) (config : IpConfig) (stack : IpStack)
    → IsMap stack.interfaces
    → IsReady stack
    → IsReady (init_routing mode config stack)
unfolding init_rip
routing-IsReady routing_none config stack v r = r
routing-IsReady routing_static config stack v r = r
routing-IsReady routing_rip config stack v r = init_rip-IsReady config stack _ v r refl

-- Whatever the configuration, a stack that comes of it is ready.
pub init_ip_stack-IsReady :
    (listens : AddrPort → Bool) (config : IpConfig) (stack : IpStack)
    → init_ip_stack listens config ≡ some (ready stack)
    → IsReady stack
unfolding init_ip_stack
init_ip_stack-IsReady listens config stack h =
    elim (Bool-cases (all_listen listens config.interfaces)) [
      | inr refused ↦ ground (arith, h, refused)
      | inl ok ↦
          let finish = λ (m : List (String × Interface)).
            some (ready (init_routing config.routing_mode config (start m config))) in
          let first = init_interfaces config.interfaces [] in
          let h' : (init_neighbors config.neighbors first >>= finish) ≡ some (ready stack) =
            ground (arith, h, ok) in
          let b = >>=-eq-some (init_neighbors config.neighbors first) finish h' in
          let named =
            init_neighbors-IsMap config.neighbors first b.0
              (init_interfaces-IsMap config.interfaces [] (tt, nil-Holds IsNamed)) b.1 in
          let e : init_routing config.routing_mode config (start b.0 config) ≡ stack = cc (b.2) in
          subst IsReady e (
            routing-IsReady config.routing_mode config (start b.0 config) named
              (start-IsReady b.0 config))
    ]
