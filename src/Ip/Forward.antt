-- ===== src/Ip/Forward.antt =====
-- Sending, receiving and forwarding in pkg/ipStack/ipStack.go, and `LinkLayerListen` of
-- pkg/linkLayer/linkLayer.go. A result `none` is a panic, or a longest prefix match that does not
-- return within the fuel.
pub mod Sent
pub mod Delivery
pub mod Path
use mini_tls.Ip.Match.{Match, found, longest_prefix_match, not_found}
use mini_tls.Ip.Packet.{
  IpLib, Parsed, deserialize_and_validate_packet, dropped, malformed, packet, serialize_packet,
}
use mini_tls.Ip.Prefix.{Prefix, contains}
use mini_tls.Ip.Table.{insert, lookup, prefix_key, string_key, nat_key}
use mini_tls.Ip.Types.{
  Effect, FwdEntry, Handler, Interface, IpStack, Ipv4Header, Neighbour, SourceType, delivered,
  infinity, link_layer_send, local, to_rip,
}
use mini_tls.Prelude.{
  String, ℕ, ◌+◌, ◌-◌, ◌*◌, ◌^◌, Bool, true, false, not, ◌&&◌, ◌||◌, Option, none, some, List, [],
  ◌∷◌, ◌++◌, leb, ◌==◌, if◌then◌else◌, ◌>>=◌, take,
}
use mini_tls.Rip.Update.{handle_rip_message}

-- The address that is written with dots.
abbrev pub dotted : ℕ → ℕ → ℕ → ℕ → ℕ
dotted a b c d = a * 256 ^ 3 + b * 256 ^ 2 + c * 256 + d

-- The constants of the two filters: 10.75.0.0/16, 10.33.7.0/24 and 10.7.7.0/16.
abbrev pub schlaraffian : Prefix
schlaraffian = record { addr = dotted 10 75 0 0; bits = 16 }

abbrev pub ycom : Prefix
ycom = record { addr = dotted 10 33 7 0; bits = 24 }

abbrev pub xt_streaming : Prefix
xt_streaming = record { addr = dotted 10 7 7 0; bits = 16 }

-- `SRCFilter`
unfoldable pub src_filter : Ipv4Header → Prefix → Prefix → Bool
src_filter hdr s1 s2 =
    contains s1 hdr.src && contains s2 hdr.dst || contains s2 hdr.src && contains s1 hdr.dst

-- Whether an interface has the address, and the handler for a protocol is called.
unfoldable pub is_own : ℕ → List (String × Interface) → Bool
is_own dst [] = false
is_own dst ((name, iface) ∷ rest) = iface.ip == dst || is_own dst rest

-- `Interfaces[entry.InterfaceName]` and its neighbour; a missing interface is a nil pointer.
unfoldable pub neighbour_at : IpStack → String → ℕ → Option (Interface × Option Neighbour)
neighbour_at stack name next = do
  iface ← lookup name stack.interfaces
  some (iface, lookup next iface.neighbours)

-- What `SendIP` returns: its error, or nil with what was sent.
pub data SendResult : Type 0 where
  no_route : SendResult
  done : List Effect → SendResult

module _ (lib : IpLib) where
  -- The packet of `SendIP` to a neighbour, if it is there.
  abbrev pub send_new : ℕ → List ℕ → ℕ → Interface × Option Neighbour → Option SendResult
  send_new final_dest message proto_num (iface, none) = some (done [])
  send_new final_dest message proto_num (iface, some n) =
      serialize_packet lib iface.ip final_dest message proto_num 0 true >>= λ bytes.
      some (done (link_layer_send iface n.udp_addr bytes))

  -- The switch of `SendIP` on the type of the entry.
  abbrev pub send_by : SourceType → IpStack → ℕ → List ℕ → ℕ → FwdEntry → ℕ → Option SendResult
  send_by local stack final_dest message proto_num e next =
      neighbour_at stack e.interface_name next >>= send_new final_dest message proto_num
  send_by _ stack final_dest message proto_num e next = some (done [])

  -- `SendIP`
  unfoldable pub send_ip : ℕ → ℕ → List ℕ → ℕ → IpStack → Option SendResult
  send_ip fuel final_dest message proto_num stack =
      longest_prefix_match fuel stack.forwarding_table (some final_dest) >>= λ m. elim m [
        | not_found ↦ some no_route
        | found e next ↦ send_by e.source stack final_dest message proto_num e next
      ]

  -- The handler that is called at the destination.
  abbrev pub deliver :
      ℕ → Ipv4Header → List ℕ → IpStack → Option Handler → Option (IpStack × List Effect)
  deliver now hdr message stack none = some (stack, [])
  deliver now hdr message stack (some to_rip) = handle_rip_message lib hdr.src now message stack
  deliver now hdr message stack (some h) = some (stack, delivered h hdr message ∷ [])

  -- The last part of `ipForwarding`, towards a neighbour on an interface.
  abbrev pub forward_to : Ipv4Header → List ℕ → Interface × Option Neighbour → Option (List Effect)
  forward_to hdr message (iface, none) = some []
  forward_to hdr message (iface, some n) =
      let packet =
        (serialize_packet lib hdr.src hdr.dst message hdr.protocol hdr.ttl false >>= λ bytes.
        some (link_layer_send iface n.udp_addr bytes)) in
      if not iface.up then some [] else packet

  -- The switch of `ipForwarding` on the type of the entry.
  abbrev pub forward_by :
      SourceType → IpStack → Ipv4Header → List ℕ → FwdEntry → ℕ → Option (List Effect)
  forward_by local stack hdr message e next =
      neighbour_at stack e.interface_name next >>= forward_to hdr message
  forward_by _ stack hdr message e next = some []

  -- The part behind the look-up.
  abbrev pub forward_match : IpStack → Ipv4Header → List ℕ → Match → Option (List Effect)
  forward_match stack hdr message not_found = some []
  forward_match stack hdr message (found e next) =
      if leb infinity e.cost then some [] else forward_by e.source stack hdr message e next

  -- The forwarding case of `ipForwarding`. A TTL of 0 becomes -1 in the source, which is dropped as 0 is.
  unfoldable pub forward : ℕ → Ipv4Header → List ℕ → IpStack → Option (List Effect)
  forward fuel hdr message stack =
      let hdr' = record hdr { ttl = hdr.ttl - 1 } in
      if hdr'.ttl == 0
      then some []
      else longest_prefix_match fuel stack.forwarding_table (some hdr.dst)
        >>= forward_match stack hdr' message

  -- `ipForwarding`
  unfoldable pub ip_forwarding :
      ℕ → ℕ → Ipv4Header → List ℕ → IpStack → Option (IpStack × List Effect)
  ip_forwarding fuel now hdr message stack =
      if is_own hdr.dst stack.interfaces
      then deliver now hdr message stack (lookup hdr.protocol stack.recv_handlers)
      else if src_filter hdr schlaraffian ycom
      then some (stack, [])
      else if src_filter hdr schlaraffian xt_streaming
      then some (stack, [])
      else (forward fuel hdr message stack >>= λ effects. some (stack, effects))

  -- What becomes of a packet as it was parsed. A nil header without an error goes on to
  -- `ipForwarding`, which reads it.
  abbrev pub take_parsed : ℕ → ℕ → IpStack → Parsed → Option (IpStack × List Effect)
  take_parsed fuel now stack malformed = some (stack, [])
  take_parsed fuel now stack dropped = none
  take_parsed fuel now stack (packet message hdr) = ip_forwarding fuel now hdr message stack

  -- A round of `RunIPLayer`
  unfoldable pub run_ip_layer : ℕ → ℕ → List ℕ → IpStack → Option (IpStack × List Effect)
  run_ip_layer fuel now msg_bytes stack =
      deserialize_and_validate_packet lib msg_bytes >>= take_parsed fuel now stack

-- A round of `LinkLayerListen` puts a datagram into the channel, cut to the size of its buffer.
unfoldable pub link_layer_listen : Interface → List ℕ → List (List ℕ) → List (List ℕ)
link_layer_listen iface datagram chan =
    if not iface.up then chan else chan ++ take 1400 datagram ∷ []

-- `IFDown` and `IFUp`
unfoldable pub set_up : String → Bool → IpStack → Option IpStack
set_up name up stack = do
  iface ← lookup name stack.interfaces
  some (record stack { interfaces = insert name (record iface { up = up }) stack.interfaces })
