-- ===== src/Rip/Send/Periodic.antt =====
-- `sendPeriodicUpdate`: what goes out to whom.
use mini_tls.Ip.Init.Interfaces.{Reachable}
use mini_tls.Ip.Packet.{IpLib, serialize_packet}
use mini_tls.Ip.Packet.Checksum.{IsSound}
use mini_tls.Ip.Table.{lookup, prefix_key, string_key, nat_key}
use mini_tls.Ip.Types.{
  Effect, Interface, IpStack, Neighbour, RipMessage, RipNeighbour, link_layer_send, sent, ttl_new,
}
use mini_tls.Prelude.{
  ℕ, ◌+◌, ◌*◌, ◌^◌, ◌<◌, ◌≡◌, refl, subst, inl, inr, true, some, List, [], ◌∷◌, ◌++◌, arith, ◌>>=◌,
  Bool-cases, >>=-eq-some, length, All, All-append,
}
use mini_tls.Rip.Messages.{marshal}
use mini_tls.Rip.Send.{response, routes_to_send, send_each, send_periodic_update, send_rip_message}
use mini_tls.Rip.Send.Horizon.{Poisoned, Sendable, length-routes, response-Poisoned}
use mini_tls.Rip.Send.Total.{HasAddresses, send_each-total}

-- A datagram of a periodic update.
pub record UpdateSent (lib : IpLib) (stack : IpStack) (effect : Effect) : Type 0 where
  pub neighbour : RipNeighbour
  pub iface : Interface
  pub out : lookup neighbour.interface_name stack.interfaces ≡ some iface
  pub is_up : iface.up ≡ true
  pub dest : Neighbour
  pub known : lookup neighbour.router_ip iface.neighbours ≡ some dest
  pub message : List ℕ
  pub bytes : List ℕ
  pub packet :
      serialize_packet lib iface.ip neighbour.router_ip message 200 ttl_new true ≡ some bytes
  pub is_sent : effect ≡ sent dest.udp_addr bytes
  pub poisoned : Poisoned neighbour.router_ip stack.forwarding_table message

send_one :
    (lib : IpLib) (stack : IpStack) (n : RipNeighbour) (message : RipMessage)
    (effects : List Effect)
    → send_rip_message lib stack message n ≡ some effects
    → Poisoned n.router_ip stack.forwarding_table (marshal message)
    → All (UpdateSent lib stack) effects
unfolding send_rip_message link_layer_send
send_one lib stack n message effects h v =
    let wire = λ (iface : Interface).
      serialize_packet lib iface.ip n.router_ip (marshal message) 200 ttl_new true in
    let hand = λ (iface : Interface) (dest : Neighbour) (bytes : List ℕ).
      some (link_layer_send iface dest.udp_addr bytes) in
    let to = λ (iface : Interface) (dest : Neighbour). wire iface >>= hand iface dest in
    let a =
      >>=-eq-some (lookup n.interface_name stack.interfaces)
        (λ iface. lookup n.router_ip iface.neighbours >>= to iface) h in
    let b = >>=-eq-some (lookup n.router_ip a.0.neighbours) (to a.0) a.2 in
    let c = >>=-eq-some (wire a.0) (hand a.0 b.0) b.2 in
    elim (Bool-cases a.0.up) [
      | inr down ↦
          let nothing : [] ≡ effects = ground (arith, c.2, down) in
          subst (All (UpdateSent lib stack)) nothing tt
      | inl up ↦
          let one : sent b.0.udp_addr c.0 ∷ [] ≡ effects = ground (arith, c.2, up) in
          subst (All (UpdateSent lib stack)) one (
            record {
              neighbour = n;
              iface = a.0;
              out = a.1;
              is_up = up;
              dest = b.0;
              known = b.1;
              message = marshal message;
              bytes = c.0;
              packet = c.1;
              is_sent = refl;
              poisoned = v;
            },
            tt,
          )
    ]

send-All :
    (lib : IpLib) (stack : IpStack) (ns : List RipNeighbour) (message : ℕ → RipMessage)
    (effects : List Effect)
    → send_each lib stack message ns ≡ some effects
    → ((router_ip : ℕ) → Poisoned router_ip stack.forwarding_table (marshal (message router_ip)))
    → All (UpdateSent lib stack) effects
unfolding send_each
send-All lib stack [] message effects h v =
    let nothing : [] ≡ effects = ground (arith, h) in subst (All (UpdateSent lib stack)) nothing tt
send-All lib stack (n ∷ ns) message effects h v =
    let join = λ (first others : List Effect). some (first ++ others) in
    let a =
      >>=-eq-some (send_rip_message lib stack (message n.router_ip) n)
        (λ first. send_each lib stack message ns >>= join first) h in
    let b = >>=-eq-some (send_each lib stack message ns) (join a.0) a.2 in
    let joined : a.0 ++ b.0 ≡ effects = ground (arith, b.2) in
    subst (All (UpdateSent lib stack)) joined (
      All-append (UpdateSent lib stack) a.0 b.0
        (send_one lib stack n (message n.router_ip) a.0 a.1 (v n.router_ip))
        (send-All lib stack ns message b.0 b.1 v))

-- On a stack whose RIP neighbours are known on their interfaces, whose addresses are those of IPv4,
-- and whose table fits into a message, a periodic update does not panic. It sends datagrams on
-- interfaces that are up, to neighbours that are known there. What each says, as its router reads it,
-- is the cost of no route for each route that was learned from that router, and any other cost is
-- that of a row that was not.
pub send_periodic_update-UpdateSent :
    (lib : IpLib) (stack : IpStack)
    → IsSound lib
    → All (Reachable stack.interfaces) stack.rip_info.neighbors
    → HasAddresses stack
    → Sendable stack.forwarding_table
    → 24 + 12 * length stack.forwarding_table < 2 ^ 16
    → (effects : List Effect) × (send_periodic_update lib stack ≡ some effects)
      × All (UpdateSent lib stack) effects
unfolding send_periodic_update
send_periodic_update-UpdateSent lib stack sound known addresses v small =
    let t = stack.forwarding_table in
    let message = λ (router_ip : ℕ). response (routes_to_send router_ip t) in
    let out =
      send_each-total lib sound stack message stack.rip_info.neighbors known addresses.interfaces
        addresses.routers (λ router_ip. omega (arith, length-routes router_ip t)) in
    (
      out.0,
      out.1,
      send-All lib stack stack.rip_info.neighbors message out.0 out.1
          (λ router_ip. response-Poisoned router_ip t v (omega arith)),
    )
