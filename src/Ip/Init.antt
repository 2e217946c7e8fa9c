-- ===== src/Ip/Init.antt =====
-- `InitIPStackFromConfig` of pkg/ipStack/ipStack.go behind the parser, and `initRIP` of rip.go. Which
-- UDP sockets can be opened is up to the host.
pub mod Interfaces
pub mod Ready
use mini_tls.Ip.Config.{InterfaceConfig, IpConfig, NeighborConfig, RoutingMode, routing_rip}
use mini_tls.Ip.Prefix.{Prefix}
use mini_tls.Ip.Table.{insert, lookup, map_values, prefix_key, string_key, nat_key}
use mini_tls.Ip.Types.{
  AddrPort, FwdEntry, Handler, Interface, IpStack, Neighbour, RipNeighbour, SourceType, local,
  static,
}
use mini_tls.Prelude.{
  String, ℕ, Bool, true, false, ◌&&◌, Option, none, some, List, [], ◌∷◌, if◌then◌else◌, ◌>>=◌,
}

-- The loop of `init` over the interfaces.
unfoldable pub init_interfaces :
    List InterfaceConfig → List (String × Interface) → List (String × Interface)
init_interfaces [] m = m
init_interfaces (c ∷ cs) m = init_interfaces cs (
    insert c.name
      (record {
        name = c.name;
        prefix = c.assigned_prefix;
        ip = c.assigned_ip;
        neighbours = [];
        up = true;
      })
      m)

-- `iface.Neighbours[n.DestAddr] = &neighbor`
abbrev pub add_neighbour : NeighborConfig → Interface → Interface
add_neighbour n iface =
    let neighbour : Neighbour = record { ip = n.dest_addr; udp_addr = n.udp_addr } in
    record iface { neighbours = insert n.dest_addr neighbour iface.neighbours }

-- The loop over the neighbours. An unknown interface is logged, and then a nil pointer.
unfoldable pub init_neighbors :
    List NeighborConfig → List (String × Interface) → Option (List (String × Interface))
init_neighbors [] m = some m
init_neighbors (n ∷ ns) m = do
  iface ← lookup n.interface_name m
  init_neighbors ns (insert n.interface_name (add_neighbour n iface) m)

-- The rows of `initFwdTable`
abbrev pub local_entry : Interface → FwdEntry
local_entry iface = record {
  prefix = iface.prefix;
  next_hop = none;
  interface_name = iface.name;
  source = local;
  cost = 0;
  last_updated = 0;
}

abbrev pub static_entry : Prefix → ℕ → FwdEntry
static_entry prefix address = record {
  prefix = prefix;
  next_hop = some address;
  interface_name = "";
  source = static;
  cost = 0;
  last_updated = 0;
}

unfoldable pub add_local :
    List (String × Interface) → List (Prefix × FwdEntry) → List (Prefix × FwdEntry)
add_local [] t = t
add_local ((name, iface) ∷ rest) t = add_local rest (insert iface.prefix (local_entry iface) t)

unfoldable pub add_static : List (Prefix × ℕ) → List (Prefix × FwdEntry) → List (Prefix × FwdEntry)
add_static [] t = t
add_static ((prefix, address) ∷ rest) t =
    add_static rest (insert prefix (static_entry prefix address) t)

-- `initFwdTable`
unfoldable pub init_fwd_table :
    List (String × Interface) → List (Prefix × ℕ) → List (Prefix × FwdEntry)
init_fwd_table interfaces static_routes = add_static static_routes (add_local interfaces [])

-- The inner loop of `initRIP`: the first interface with this neighbour.
unfoldable pub find_interface : ℕ → List (String × Interface) → Option RipNeighbour
find_interface ip [] = none
find_interface ip ((name, iface) ∷ rest) = elim (lookup ip iface.neighbours) [
  | none ↦ find_interface ip rest
  | some neighbour ↦ some (record { router_ip = ip; interface_name = iface.name })
]

-- The outer loop; `none` is its error.
unfoldable pub rip_neighbours : List ℕ → List (String × Interface) → Option (List RipNeighbour)
rip_neighbours [] interfaces = some []
rip_neighbours (ip ∷ ips) interfaces = do
  first ← find_interface ip interfaces
  others ← rip_neighbours ips interfaces
  some (first ∷ others)

-- `entry.Type == SourceTypeStatic`
abbrev pub is_static : SourceType → Bool
is_static static = true
is_static _ = false

abbrev pub reset_cost : FwdEntry → FwdEntry
reset_cost e = if is_static e.source then record e { cost = 0 } else e

abbrev pub set_rip_info : IpConfig → Option (List RipNeighbour) → IpStack → IpStack
set_rip_info config none stack = stack
set_rip_info config (some neighbors) stack = record stack {
  rip_info = record {
    neighbors = neighbors;
    rip_timeout = config.rip_timeout_threshold;
    rip_update_rate = config.rip_periodic_update_rate;
  };
}

-- `initRIP`. Its caller does not look at the error, with which the fields stay zero.
unfoldable pub init_rip : IpConfig → IpStack → IpStack
init_rip config stack =
    set_rip_info config (rip_neighbours config.rip_neighbors stack.interfaces)
      (record stack { forwarding_table = map_values reset_cost stack.forwarding_table })

-- Only a router with `routing rip` has `initRIP` called.
abbrev pub init_routing : RoutingMode → IpConfig → IpStack → IpStack
init_routing routing_rip config stack = init_rip config stack
init_routing _ config stack = stack

-- The stack before RIP.
abbrev pub start : List (String × Interface) → IpConfig → IpStack
start interfaces config = record {
  interfaces = interfaces;
  forwarding_table = init_fwd_table interfaces config.static_routes;
  rip_info = record { neighbors = []; rip_timeout = 0; rip_update_rate = 0 };
  recv_handlers = [];
}

-- What comes of a configuration: an error, or a stack.
pub data Started : Type 0 where
  failed : Started
  ready : IpStack → Started

-- Whether all sockets could be opened.
unfoldable pub all_listen : (AddrPort → Bool) → List InterfaceConfig → Bool
all_listen listens [] = true
all_listen listens (c ∷ cs) = listens c.udp_addr && all_listen listens cs

-- `InitIPStackFromConfig`; `none` is the nil pointer of `init`.
unfoldable pub init_ip_stack : (AddrPort → Bool) → IpConfig → Option Started
init_ip_stack listens config =
    let stack =
      (init_neighbors config.neighbors (init_interfaces config.interfaces []) >>= λ interfaces.
      some (ready (init_routing config.routing_mode config (start interfaces config)))) in
    if all_listen listens config.interfaces then stack else some failed

-- `RegisterRecvHandler`
unfoldable pub register_recv_handler : ℕ → Handler → IpStack → IpStack
register_recv_handler proto_num handler stack = record stack {
  recv_handlers = insert proto_num handler stack.recv_handlers;
}
