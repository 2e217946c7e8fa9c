-- ===== src/Tcp/Segments/Delivery.antt =====
-- A segment on its way from `sendTCP` of one host to `HandleTCP` of the next, through both IP layers.
use mini_tls.Ip.Forward.{done, link_layer_listen, run_ip_layer}
use mini_tls.Ip.Forward.Delivery.{Hears, OnLink, run_ip_layer-deliver, send_ip_bytes}
use mini_tls.Ip.Packet.{IpLib, compute_checksum, serialize_packet}
use mini_tls.Ip.Packet.Checksum.{Encodable, IsSound}
use mini_tls.Ip.Packet.Roundtrip.{deserialize-serialize_packet, sent_header}
use mini_tls.Ip.Types.{Interface, IpStack, Ipv4Header, Neighbour, delivered, sent, to_tcp}
use mini_tls.Prelude.{
  ℕ, ◌+◌, ◌^◌, ◌≤◌, ◌<◌, ◌≡◌, refl, ap, ◌∙◌, Bool, true, false, some, List, [], ◌∷◌, ◌++◌, arith,
  ◌==◌, length, take, take-length,
}
use mini_tls.Tcp.Dispatch.{handle_tcp}
use mini_tls.Tcp.Segments.{TcpLib, handle_tcp_packet, ip_packet_payload, send_tcp, tcp_header_of}
use mini_tls.Tcp.Segments.Arrival.{
  Encodes, HeaderFits, length-ip_packet_payload, parse_and_validate_tcp-ip_packet_payload,
}
use mini_tls.Tcp.Send.{Floats}
use mini_tls.Tcp.Table.{Stack}
use mini_tls.Tcp.Types.{SendRequest, max_seg_size}

-- The header of the IP packet, before its checksum.
abbrev pub carrier : TcpLib → SendRequest → Ipv4Header
carrier tcp req = sent_header req.source_ip req.dest_ip (ip_packet_payload tcp req) 6 0 true

-- The segment as the source and the next host see it.
pub record Arrives (lib : IpLib) (tcp : TcpLib) (fuel now : ℕ) (req : SendRequest) (a b : IpStack)
    (n : Neighbour) (iface_b : Interface) : Type 0 where
  pub bytes : List ℕ
  pub hdr : Ipv4Header
  pub one : send_tcp tcp lib fuel req a ≡ some (done (sent n.udp_addr bytes ∷ []))
  pub listened : (chan : List (List ℕ)) → link_layer_listen iface_b bytes chan ≡ chan ++ bytes ∷ []
  pub handed_up :
      run_ip_layer lib fuel now bytes b
      ≡ some (b, delivered to_tcp hdr (ip_packet_payload tcp req) ∷ [])
  pub handled :
      (fl : Floats) (coin : Bool) (isn : ℕ) (st : Stack)
      → handle_tcp_packet tcp fl now coin isn hdr (ip_packet_payload tcp req) st
        ≡ handle_tcp fl now coin isn req.tcp_header req.payload req.source_ip req.dest_ip st

module _ (tcp : TcpLib) (v : Encodes tcp) (req : SendRequest)
    (f : HeaderFits (tcp_header_of req.tcp_header 0)) (small : length req.payload ≤ max_seg_size)
    (src : req.source_ip < 2 ^ 32) (dst : req.dest_ip < 2 ^ 32) where
  carrier-Encodable : Encodable (carrier tcp req)
  carrier-Encodable = record {
    version = refl;
    len = refl;
    plain = (refl, refl, refl, refl);
    total_len = omega (arith, length-ip_packet_payload tcp v req f, small);
    ttl = omega arith;
    protocol = omega arith;
    checksum = omega arith;
    src = src;
    dst = dst;
  }

  -- A whole segment fits into the buffer of the receiver's interface.
  listen_lem :
      (iface : Interface) (bytes : List ℕ) (chan : List (List ℕ))
      → iface.up ≡ true
      → length bytes ≡ 20 + length (ip_packet_payload tcp req)
      → link_layer_listen iface bytes chan ≡ chan ++ bytes ∷ []
  unfolding link_layer_listen
  listen_lem iface bytes chan up size =
      let all : take 1400 bytes ≡ bytes =
        take-length 1400 bytes (omega (arith, length-ip_packet_payload tcp v req f, small, size)) in
      rw (up, all) refl

  handled_lem :
      (hdr : Ipv4Header)
      → hdr.src ≡ req.source_ip
      → hdr.dst ≡ req.dest_ip
      → (fl : Floats) (now : ℕ) (coin : Bool) (isn : ℕ) (st : Stack)
      → handle_tcp_packet tcp fl now coin isn hdr (ip_packet_payload tcp req) st
        ≡ handle_tcp fl now coin isn req.tcp_header req.payload req.source_ip req.dest_ip st
  unfolding handle_tcp_packet
  handled_lem hdr s d fl now coin isn st =
      rw (parse_and_validate_tcp-ip_packet_payload tcp v req f hdr s d, s, d) refl

-- A segment with at most MAX_SEG_SIZE bytes and fields that fit, to a neighbour on an interface that
-- is up and has the source address: sendTCP sends it as one datagram, which the neighbour's interface,
-- when it is up, takes whole; its IP layer, where it has the destination address and HandleTCP as the
-- handler, hands the segment up, unless the checksum of the IP header comes out as 0, and HandleTCP
-- then does what it does for this header and payload between these addresses.
pub send_tcp-Arrives :
    (lib : IpLib) (s : IsSound lib) (tcp : TcpLib) (v : Encodes tcp) (fuel now : ℕ)
    (req : SendRequest) (a b : IpStack) (iface : Interface) (n : Neighbour) (iface_b : Interface)
    (zeroed : List ℕ)
    → HeaderFits (tcp_header_of req.tcp_header 0)
    → length req.payload ≤ max_seg_size
    → req.source_ip < 2 ^ 32
    → req.dest_ip < 2 ^ 32
    → OnLink fuel req.dest_ip a iface n
    → iface.ip ≡ req.source_ip
    → Hears req.dest_ip 6 b to_tcp
    → iface_b.up ≡ true
    → lib.marshal_header (carrier tcp req) ≡ some zeroed
    → (compute_checksum lib zeroed == 0) ≡ false
    → Arrives lib tcp fuel now req a b n iface_b
unfolding send_tcp
send_tcp-Arrives lib s tcp v fuel now req a b iface n iface_b zeroed f small src dst l same hears up
      mz nz =
    let message = ip_packet_payload tcp req in
    let enc = carrier-Encodable tcp v req f small src dst in
    let p =
      deserialize-serialize_packet lib s req.source_ip req.dest_ip message 6 0 true enc
        (omega arith) in
    let is_z : p.0 ≡ zeroed = cc (p.2, mz) in
    let h = record (carrier tcp req) { checksum = compute_checksum lib p.0 } in
    let nz' : (compute_checksum lib p.0 == 0) ≡ false =
      ap (λ z. compute_checksum lib z == 0) is_z ∙ nz in
    record {
      bytes = p.1;
      hdr = h;
      one =
          send_ip_bytes lib fuel req.dest_ip message 6 a iface n p.1 l
            (ap (λ x. serialize_packet lib x req.dest_ip message 6 0 true) same ∙ p.3);
      listened = λ chan. listen_lem tcp v req f small src dst iface_b p.1 chan up p.4;
      handed_up = run_ip_layer-deliver lib fuel now h message p.1 b to_tcp hears p.5 nz';
      handled = λ fl. handled_lem tcp v req f small src dst h refl refl fl now;
    }
