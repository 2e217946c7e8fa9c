-- ===== src/Rip/Send/Total.antt =====
-- A ready stack sends its updates without a panic.
use mini_tls.Ip.Init.Interfaces.{Reachable}
use mini_tls.Ip.Packet.{IpLib, serialize_packet}
use mini_tls.Ip.Packet.Checksum.{IsSound}
use mini_tls.Ip.Packet.Roundtrip.{deserialize-serialize_packet}
use mini_tls.Ip.Table.{prefix_key, string_key, nat_key}
use mini_tls.Ip.Table.Rows.{Holds}
use mini_tls.Ip.Types.{
  Effect, IpStack, RipEntry, RipMessage, RipNeighbour, link_layer_send, ttl_new,
}
use mini_tls.Prelude.{
  ℕ, ◌+◌, ◌*◌, ◌^◌, ◌<◌, ◌≡◌, refl, true, some, List, [], ◌∷◌, ◌++◌, arith, length, All,
}
use mini_tls.Rip.Messages.{marshal, marshal_entries, marshal_entry}
use mini_tls.Rip.Send.{send_each, send_rip_message}

length-marshal_entries : (es : List RipEntry) → length (marshal_entries es) ≡ 12 * length es
unfolding marshal_entries marshal_entry
length-marshal_entries [] = omega arith
length-marshal_entries (e ∷ es) = omega (arith, length-marshal_entries es)

length-marshal : (m : RipMessage) → length (marshal m) ≡ 4 + 12 * length m.entries
unfolding marshal
length-marshal m = omega (arith, length-marshal_entries m.entries)

-- The addresses of a stack are IPv4 addresses.
pub record HasAddresses (stack : IpStack) : Type 0 where
  pub interfaces : Holds (λ name iface. iface.ip < 2 ^ 32) stack.interfaces
  pub routers : All (λ n. n.router_ip < 2 ^ 32) stack.rip_info.neighbors

module _ (lib : IpLib) (v : IsSound lib) where
  serialized :
      (source dest : ℕ) (message : List ℕ)
      → source < 2 ^ 32
      → dest < 2 ^ 32
      → 20 + length message < 2 ^ 16
      → (bytes : List ℕ) × (serialize_packet lib source dest message 200 ttl_new true ≡ some bytes)
  serialized source dest message s d n =
      let r =
        deserialize-serialize_packet lib v source dest message 200 ttl_new true
          (record {
            version = refl;
            len = refl;
            plain = (refl, refl, refl, refl);
            total_len = n;
            ttl = omega arith;
            protocol = omega arith;
            checksum = omega arith;
            src = s;
            dst = d;
          })
          (omega arith) in
      (r.1, r.3)

  send_rip_message-total :
      (stack : IpStack) (message : RipMessage) (n : RipNeighbour)
      → Reachable stack.interfaces n
      → Holds (λ name iface. iface.ip < 2 ^ 32) stack.interfaces
      → n.router_ip < 2 ^ 32
      → 24 + 12 * length message.entries < 2 ^ 16
      → (effects : List Effect) × (send_rip_message lib stack message n ≡ some effects)
  unfolding send_rip_message
  send_rip_message-total stack message n (iface, dest, at_name, known) ips ip small =
      let s =
        serialized iface.ip n.router_ip (marshal message) (ips n.interface_name iface at_name) ip
          (omega (arith, length-marshal message)) in
      (
        link_layer_send iface dest.udp_addr s.0,
        rw (at_name, send_rip_message) (rw known (rw (s.1) refl)),
      )

  pub send_each-total :
      (stack : IpStack) (message : ℕ → RipMessage) (ns : List RipNeighbour)
      → All (Reachable stack.interfaces) ns
      → Holds (λ name iface. iface.ip < 2 ^ 32) stack.interfaces
      → All (λ n. n.router_ip < 2 ^ 32) ns
      → ((router_ip : ℕ) → 24 + 12 * length (message router_ip).entries < 2 ^ 16)
      → (effects : List Effect) × (send_each lib stack message ns ≡ some effects)
  unfolding send_each
  send_each-total stack message [] r ips ip small = ([], refl)
  send_each-total stack message (n ∷ ns) r ips ip small =
      let first =
        send_rip_message-total stack (message n.router_ip) n r.0 ips ip.0 (small n.router_ip) in
      let others = send_each-total stack message ns r.1 ips ip.1 small in
      (first.0 ++ others.0, rw (first.1) (rw (others.1) refl))
