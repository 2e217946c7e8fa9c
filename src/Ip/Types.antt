-- ===== src/Ip/Types.antt =====
-- The types of pkg/ipStack/types.go and pkg/linkLayer/types.go, and `LinkLayerSend`.
use mini_tls.Ip.Prefix.{Prefix}
use mini_tls.Prelude.{String, ℕ, Bool, Option, List, [], ◌∷◌, if◌then◌else◌}

-- `SourceTypeLocal`, `SourceTypeRIP` and `SourceTypeStatic`
pub data SourceType : Type 0 where
  local rip static : SourceType

-- `Infinity`, the cost of a route that is down.
abbrev pub infinity : ℕ
infinity = 16

abbrev pub ttl_new : ℕ
ttl_new = 32

-- `netip.AddrPort`, where a neighbour's UDP socket is.
pub record AddrPort : Type 0 where
  pub host : ℕ
  pub port : ℕ

-- `Neighbour`
pub record Neighbour : Type 0 where
  pub ip : ℕ
  pub udp_addr : AddrPort

-- `Interface`, without its UDP socket.
pub record Interface : Type 0 where
  pub name : String
  pub prefix : Prefix
  pub ip : ℕ
  pub neighbours : List (ℕ × Neighbour)
  pub up : Bool

-- `FwdEntry`. Times are numbers, the zero time is 0.
pub record FwdEntry : Type 0 where
  pub prefix : Prefix
  pub next_hop : Option ℕ
  pub interface_name : String
  pub source : SourceType
  pub cost : ℕ
  pub last_updated : ℕ

-- `RipNeighbour`
pub record RipNeighbour : Type 0 where
  pub router_ip : ℕ
  pub interface_name : String

-- `RipInfo`
pub record RipInfo : Type 0 where
  pub neighbors : List RipNeighbour
  pub rip_timeout : ℕ
  pub rip_update_rate : ℕ

-- `RipEntry`
pub record RipEntry : Type 0 where
  pub cost : ℕ
  pub prefix : Prefix

-- `RipMessage`
pub record RipMessage : Type 0 where
  pub command : ℕ
  pub num_entries : ℕ
  pub entries : List RipEntry

-- The handlers that the programs of cmd register: `HandleTestMessage`, `HandleTCP` and
-- `HandleRipMessage`.
pub data Handler : Type 0 where
  to_test to_tcp to_rip : Handler

-- `IPStack`. A map is an association list, in the order in which a `range` goes through it.
pub record IpStack : Type 0 where
  pub interfaces : List (String × Interface)
  pub forwarding_table : List (Prefix × FwdEntry)
  pub rip_info : RipInfo
  pub recv_handlers : List (ℕ × Handler)

-- `ipv4header.IPv4Header`, whose options the program leaves empty.
pub record Ipv4Header : Type 0 where
  pub version : ℕ
  pub len : ℕ
  pub tos : ℕ
  pub total_len : ℕ
  pub id : ℕ
  pub flags : ℕ
  pub frag_off : ℕ
  pub ttl : ℕ
  pub protocol : ℕ
  pub checksum : ℕ
  pub src : ℕ
  pub dst : ℕ

-- What the stack does to the outside: a datagram to a UDP socket, and a packet that is handed up.
pub data Effect : Type 0 where
  sent : AddrPort → List ℕ → Effect
  delivered : Handler → Ipv4Header → List ℕ → Effect

-- `LinkLayerSend`
unfoldable pub link_layer_send : Interface → AddrPort → List ℕ → List Effect
link_layer_send iface udp_dest bytes = if iface.up then sent udp_dest bytes ∷ [] else []
