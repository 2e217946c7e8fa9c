-- ===== src/Ip/Forward/Delivery.antt =====
-- A packet of `SendIP` to a neighbour, up to the handler there.
use mini_tls.Ip.Forward.{deliver, done, ip_forwarding, is_own, neighbour_at, run_ip_layer, send_ip}
use mini_tls.Ip.Match.{found, longest_prefix_match}
use mini_tls.Ip.Packet.{IpLib, deserialize_and_validate_packet, serialize_packet}
use mini_tls.Ip.Packet.Roundtrip.{outcome}
use mini_tls.Ip.Table.{lookup, prefix_key, string_key, nat_key}
use mini_tls.Ip.Types.{
  FwdEntry, Handler, Interface, IpStack, Ipv4Header, Neighbour, link_layer_send, local, sent,
}
use mini_tls.Prelude.{ℕ, ◌≡◌, refl, true, false, some, List, [], ◌∷◌, ◌==◌}

-- What `SendIP` finds for a destination: the next address is a known neighbour on an interface that is
-- up, by a local route.
pub record OnLink (fuel dest : ℕ) (stack : IpStack) (iface : Interface) (n : Neighbour)
    : Type 0 where
  pub entry : FwdEntry
  pub next : ℕ
  pub route : longest_prefix_match fuel stack.forwarding_table (some dest) ≡ some (found entry next)
  pub attached : entry.source ≡ local
  pub out : lookup entry.interface_name stack.interfaces ≡ some iface
  pub is_up : iface.up ≡ true
  pub known : lookup next iface.neighbours ≡ some n

-- Where a packet is handed up.
pub record Hears (dest proto : ℕ) (stack : IpStack) (h : Handler) : Type 0 where
  pub own : is_own dest stack.interfaces ≡ true
  pub registered : lookup proto stack.recv_handlers ≡ some h

module _ (lib : IpLib) where
  pub send_ip_bytes :
      (fuel dest : ℕ) (message : List ℕ) (proto : ℕ) (stack : IpStack) (iface : Interface)
      (n : Neighbour) (bytes : List ℕ)
      → OnLink fuel dest stack iface n
      → serialize_packet lib iface.ip dest message proto 0 true ≡ some bytes
      → send_ip lib fuel dest message proto stack ≡ some (done (sent n.udp_addr bytes ∷ []))
  unfolding send_ip neighbour_at link_layer_send
  send_ip_bytes fuel dest message proto stack iface n bytes l s =
      rw (l.route, l.attached, l.out, l.known, s, l.is_up) refl

  -- A packet with a checksum that is not 0 goes up to its handler.
  pub run_ip_layer-deliver :
      (fuel now : ℕ) (h : Ipv4Header) (message bytes : List ℕ) (stack : IpStack) (handler : Handler)
      → Hears h.dst h.protocol stack handler
      → deserialize_and_validate_packet lib bytes ≡ some (outcome message h)
      → (h.checksum == 0) ≡ false
      → run_ip_layer lib fuel now bytes stack ≡ deliver lib now h message stack (some handler)
  unfolding run_ip_layer ip_forwarding
  run_ip_layer-deliver fuel now h message bytes stack handler v d nz =
      rw (d, nz, v.own, v.registered) refl
