-- ===== src/Rip/Send.antt =====
-- The messages that pkg/ipStack/rip.go sends: `sendRIPRequest`, `sendPeriodicUpdate`
-- and `SendTriggeredUpdate`. A nil pointer is a panic, `none`.
pub mod Horizon
pub mod Periodic
pub mod Total
use mini_tls.Ip.Packet.{IpLib, serialize_packet}
use mini_tls.Ip.Prefix.{Prefix}
use mini_tls.Ip.Table.{lookup, prefix_key, string_key, nat_key}
use mini_tls.Ip.Types.{
  Effect, FwdEntry, IpStack, RipEntry, RipMessage, RipNeighbour, SourceType, infinity,
  link_layer_send, rip, ttl_new,
}
use mini_tls.Prelude.{
  ℕ, ◌%◌, ◌^◌, Bool, true, false, Option, some, List, [], ◌∷◌, ◌++◌, ◌==◌, if◌then◌else◌, ◌>>=◌,
  length,
}
use mini_tls.Rip.Messages.{marshal, rip_request, rip_response}

-- Whether a route was learned from a router, by its next hop.
abbrev pub learned_from : SourceType → Option ℕ → ℕ → Bool
learned_from rip (some hop) router_ip = hop == router_ip
learned_from _ _ router_ip = false

-- The route that a neighbour is told of: one that was learned from it has the cost of no route, split
-- horizon with poisoned reverse.
unfoldable pub route_to_send : ℕ → FwdEntry → RipEntry
route_to_send router_ip e = record {
  cost = if learned_from e.source e.next_hop router_ip then infinity else e.cost;
  prefix = e.prefix;
}

-- The loop over the table in `sendPeriodicUpdate`.
unfoldable pub routes_to_send : ℕ → List (Prefix × FwdEntry) → List RipEntry
routes_to_send router_ip [] = []
routes_to_send router_ip ((p, e) ∷ t) = route_to_send router_ip e ∷ routes_to_send router_ip t

-- A response with these entries.
abbrev pub response : List RipEntry → RipMessage
response entries = record {
  command = rip_response;
  num_entries = length entries % 2 ^ 16;
  entries = entries;
}

module _ (lib : IpLib) where
  -- `SendRipMessage`
  unfoldable pub send_rip_message : IpStack → RipMessage → RipNeighbour → Option (List Effect)
  send_rip_message stack message neighbour = do
    source_interface ← lookup neighbour.interface_name stack.interfaces
    dest ← lookup neighbour.router_ip source_interface.neighbours
    bytes ←
        serialize_packet lib source_interface.ip neighbour.router_ip (marshal message) 200 ttl_new
          true
    some (link_layer_send source_interface dest.udp_addr bytes)

  -- A loop over the neighbours that sends each a message of its own.
  unfoldable pub send_each : IpStack → (ℕ → RipMessage) → List RipNeighbour → Option (List Effect)
  send_each stack message [] = some []
  send_each stack message (n ∷ ns) = do
    first ← send_rip_message stack (message n.router_ip) n
    others ← send_each stack message ns
    some (first ++ others)

  -- `sendRIPRequest`
  unfoldable pub send_rip_request : IpStack → Option (List Effect)
  send_rip_request stack =
      send_each stack (λ router_ip. record { command = rip_request; num_entries = 0; entries = [] })
        stack.rip_info.neighbors

  -- `sendPeriodicUpdate`
  unfoldable pub send_periodic_update : IpStack → Option (List Effect)
  send_periodic_update stack =
      send_each stack (λ router_ip. response (routes_to_send router_ip stack.forwarding_table))
        stack.rip_info.neighbors

  -- `SendTriggeredUpdate`
  unfoldable pub send_triggered_update : IpStack → List RipEntry → Option (List Effect)
  send_triggered_update stack entries =
      send_each stack (λ router_ip. response entries) stack.rip_info.neighbors
