-- ===== src/Tests/Path.antt =====
-- A packet from one host to another, over the router between their networks.
use mini_tls.Ip.Forward.{deliver, done, dotted, is_own, run_ip_layer, send_ip, src_filter}
use mini_tls.Ip.Forward.Delivery.{OnLink}
use mini_tls.Ip.Forward.Path.{Nonzero, Passes, listen_once, relay, send_ip-relay}
use mini_tls.Ip.Init.{local_entry}
use mini_tls.Ip.Match.{longer, longest_prefix_match, scan}
use mini_tls.Ip.Packet.{compute_checksum}
use mini_tls.Ip.Packet.Checksum.{Encodable, word_sum}
use mini_tls.Ip.Packet.Roundtrip.{sent_header}
use mini_tls.Ip.Prefix.{contains}
use mini_tls.Ip.Table.{lookup, prefix_key, string_key, nat_key}
use mini_tls.Ip.Types.{IpStack, Ipv4Header, sent, static, to_test}
use mini_tls.Prelude.{
  ℕ, ◌^◌, ◌≤◌, ◌<◌, ◌≡◌, refl, true, false, not, some, List, [], ◌∷◌, ◌++◌, arith, ◌==◌, ◌>>=◌,
  passes, passes_below,
}
use mini_tls.Tests.Ip.{if0, if1, neighbour2, peer, router, text}
use mini_tls.Tests.Ipv4.{encoded, fits, fits_lem, ipv4, ipv4-IsSound}
use mini_tls.Tests.Segments.{host_at, host_iface, ip_a, ip_b, neighbour_of}

-- A host of the first network with a default route.
abbrev host_with_route : IpStack
host_with_route = record (host_at ip_b ip_a) {
  forwarding_table =
      (host_at ip_b ip_a).forwarding_table
      ++ (
        record { addr = 0; bits = 0 },
        record {
          prefix = record { addr = 0; bits = 0 };
          next_hop = some ip_a;
          interface_name = "";
          source = static;
          cost = 0;
          last_updated = 0;
        },
      )
        ∷ [];
}

abbrev host_behind : IpStack
host_behind = host_at peer (dotted 10 2 0 1)

sender-OnLink : OnLink 2 peer host_with_route (host_iface ip_b ip_a) (neighbour_of ip_a)
unfolding longest_prefix_match scan lookup contains longer
sender-OnLink = record {
  entry = _;
  next = ip_a;
  route = refl;
  attached = refl;
  out = refl;
  is_up = refl;
  known = refl;
}

router-OnLink : OnLink 2 peer router if1 neighbour2
unfolding longest_prefix_match scan lookup contains longer
router-OnLink = record {
  entry = local_entry if1;
  next = peer;
  route = refl;
  attached = refl;
  out = refl;
  is_up = refl;
  known = refl;
}

router-Passes : Passes ipv4 ipv4-IsSound ip_b peer text 0 2 router
unfolding is_own src_filter contains router-OnLink
router-Passes = record {
  foreign = refl;
  not_ycom = refl;
  not_streaming = refl;
  iface = if1;
  neighbour = neighbour2;
  link = router-OnLink;
  online = omega arith;
}

abbrev on_way : ℕ → Ipv4Header
on_way ttl = sent_header ip_b peer text 0 ttl false

nonzero_table : passes (λ t. not (compute_checksum ipv4 (encoded (on_way t)) == 0)) 33 ≡ true
unfolding passes word_sum
nonzero_table = refl

on_way-Encodable : (t : ℕ) → t < 2 ^ 8 → Encodable (on_way t)
on_way-Encodable t h = record {
  version = refl;
  len = refl;
  plain = (refl, refl, refl, refl);
  total_len = omega arith;
  ttl = h;
  protocol = omega arith;
  checksum = omega arith;
  src = omega arith;
  dst = omega arith;
}

nonzero : (t : ℕ) → t ≤ 32 → Nonzero ipv4 ipv4-IsSound ip_b peer text 0 t
nonzero t h =
    let e = on_way-Encodable t (omega arith) in
    let full : fits (on_way t) ≡ true = fits_lem (on_way t) e in
    let all = passes_below _ 33 nonzero_table t (omega arith) in
    (encoded (on_way t), rw full refl, ground (arith, all))

send_ip-relay_example :
    (bytes : List ℕ) × (bytes' : List ℕ) × (c : ℕ) × (send_ip ipv4 2 peer text 0 host_with_route
      ≡ some (done (sent (neighbour_of ip_a).udp_addr bytes ∷ [])))
    × (relay ipv4 2 100 ((if0, router) ∷ []) bytes ≡ some bytes')
    × ((listen_once (host_iface peer (dotted 10 2 0 1)) bytes' >>= λ msg_bytes.
          run_ip_layer ipv4 2 100 msg_bytes host_behind)
        ≡ deliver ipv4 100 (record (on_way 31) { checksum = c }) text host_behind (some to_test))
unfolding is_own lookup
send_ip-relay_example =
    send_ip-relay ipv4 ipv4-IsSound ip_b peer text 0 2 100 host_with_route host_behind
      ((if0, router) ∷ []) (host_iface ip_b ip_a) (host_iface peer (dotted 10 2 0 1))
      (neighbour_of ip_a) to_test (on_way-Encodable 0 (omega arith)) (omega arith) refl
      sender-OnLink refl (refl, router-Passes, tt) (omega arith) nonzero
      (record { own = refl; registered = refl })
