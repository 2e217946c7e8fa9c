-- ===== src/Ip/Config.antt =====
-- The configuration types of pkg/lnxconfig/lnxconfig.go.
use mini_tls.Ip.Prefix.{Prefix}
use mini_tls.Ip.Types.{AddrPort}
use mini_tls.Prelude.{String, ℕ, List}

-- `RoutingMode`
pub data RoutingMode : Type 0 where
  routing_none routing_static routing_rip : RoutingMode

-- `InterfaceConfig`
pub record InterfaceConfig : Type 0 where
  pub name : String
  pub assigned_ip : ℕ
  pub assigned_prefix : Prefix
  pub udp_addr : AddrPort

-- `NeighborConfig`
pub record NeighborConfig : Type 0 where
  pub dest_addr : ℕ
  pub udp_addr : AddrPort
  pub interface_name : String

-- `IPConfig`
pub record IpConfig : Type 0 where
  pub interfaces : List InterfaceConfig
  pub neighbors : List NeighborConfig
  pub routing_mode : RoutingMode
  pub rip_neighbors : List ℕ
  pub static_routes : List (Prefix × ℕ)
  pub rip_periodic_update_rate : ℕ
  pub rip_timeout_threshold : ℕ
