-- ===== src/Tests/Ip.antt =====
-- A router between two networks, and the theorems of the IP layer on it.
use mini_tls.Ip.Config.{IpConfig, routing_rip}
use mini_tls.Ip.Forward.{
  dotted, forward, ip_forwarding, is_own, neighbour_at, run_ip_layer, schlaraffian, src_filter,
  xt_streaming, ycom,
}
use mini_tls.Ip.Forward.Sent.{Forwarded, ip_forwarding-Forwarded}
use mini_tls.Ip.Init.{
  add_local, add_static, all_listen, find_interface, init_fwd_table, init_interfaces, init_ip_stack,
  init_neighbors, init_rip, local_entry, ready, rip_neighbours,
}
use mini_tls.Ip.Init.Ready.{IsReady, init_ip_stack-IsReady}
use mini_tls.Ip.Match.{Match, found, longest_prefix_match, scan}
use mini_tls.Ip.Match.Loops.{Attached, longest_prefix_match-total}
use mini_tls.Ip.Match.Order.{AllMasked, IsMasked, SameRows, longest_prefix_match_order}
use mini_tls.Ip.Packet.{
  compute_checksum, deserialize_and_validate_packet, serialize_packet, validate,
}
use mini_tls.Ip.Packet.Checksum.{word_sum}
use mini_tls.Ip.Packet.Roundtrip.{deserialize-serialize_packet, outcome}
use mini_tls.Ip.Prefix.{Prefix, cidr_mask, contains, mask_size, size_below}
use mini_tls.Ip.Table.{insert, lookup, map_values, prefix_key, string_key, nat_key}
use mini_tls.Ip.Table.Rows.{Row, Unique}
use mini_tls.Ip.Types.{
  Effect, FwdEntry, Interface, IpStack, Ipv4Header, Neighbour, RipEntry, link_layer_send, sent,
  to_rip,
}
use mini_tls.Prelude.{
  str_eq, ℕ, suc, ◌+◌, ◌≤◌, ◌≡◌, refl, sym, ap, subst, ◌⊎◌, inl, inr, true, false, some, List, [],
  ◌∷◌, ◌++◌, arith, length,
}
use mini_tls.Rip.Messages.{
  deserialize_rip_message, marshal, marshal_entries, marshal_entry, read_body, read_entries,
  read_entry, read_uint16, read_uint32,
}
use mini_tls.Rip.Send.{send_each, send_rip_message, send_triggered_update}
use mini_tls.Rip.Update.{
  handle_entries, handle_entry, handle_rip_message, learned, take_rip_message,
}
use mini_tls.Rip.Update.Vector.{IsTable, handle_entries-relax_all, relax_all}
use mini_tls.Tests.Ipv4.{encoded, ipv4, ipv4-IsSound}
use mathlib.Core.Bool.{false≢true}

abbrev pub net1 : Prefix
net1 = record { addr = dotted 10 1 0 0; bits = 24 }

abbrev pub net2 : Prefix
net2 = record { addr = dotted 10 2 0 0; bits = 24 }

abbrev pub far : Prefix
far = record { addr = dotted 10 3 0 0; bits = 24 }

abbrev pub peer : ℕ
peer = dotted 10 2 0 2

abbrev pub config : IpConfig
config = record {
  interfaces =
      record {
        name = "if0";
        assigned_ip = dotted 10 1 0 1;
        assigned_prefix = net1;
        udp_addr = record { host = dotted 127 0 0 1; port = 5000 };
      }
      ∷ record {
        name = "if1";
        assigned_ip = dotted 10 2 0 1;
        assigned_prefix = net2;
        udp_addr = record { host = dotted 127 0 0 1; port = 5001 };
      }
      ∷ [];
  neighbors =
      record {
        dest_addr = dotted 10 1 0 2;
        udp_addr = record { host = dotted 127 0 0 1; port = 6000 };
        interface_name = "if0";
      }
      ∷ record {
        dest_addr = peer;
        udp_addr = record { host = dotted 127 0 0 1; port = 6001 };
        interface_name = "if1";
      }
      ∷ [];
  routing_mode = routing_rip;
  rip_neighbors = peer ∷ [];
  static_routes = [];
  rip_periodic_update_rate = 5000;
  rip_timeout_threshold = 12000;
}

abbrev pub neighbour1 : Neighbour
neighbour1 = record {
  ip = dotted 10 1 0 2;
  udp_addr = record { host = dotted 127 0 0 1; port = 6000 };
}

abbrev pub neighbour2 : Neighbour
neighbour2 = record { ip = peer; udp_addr = record { host = dotted 127 0 0 1; port = 6001 } }

abbrev pub if0 : Interface
if0 = record {
  name = "if0";
  prefix = net1;
  ip = dotted 10 1 0 1;
  neighbours = (dotted 10 1 0 2, neighbour1) ∷ [];
  up = true;
}

abbrev pub if1 : Interface
if1 = record {
  name = "if1";
  prefix = net2;
  ip = dotted 10 2 0 1;
  neighbours = (peer, neighbour2) ∷ [];
  up = true;
}

-- What `InitIPStackFromConfig` makes of it.
abbrev pub router : IpStack
router = record {
  interfaces = ("if0", if0) ∷ ("if1", if1) ∷ [];
  forwarding_table = (net1, local_entry if0) ∷ (net2, local_entry if1) ∷ [];
  rip_info = record {
    neighbors = record { router_ip = peer; interface_name = "if1" } ∷ [];
    rip_timeout = 12000;
    rip_update_rate = 5000;
  };
  recv_handlers = [];
}

pub started : init_ip_stack (λ a. true) config ≡ some (ready router)
unfolding init_ip_stack all_listen init_interfaces init_neighbors init_fwd_table add_local
    add_static init_rip rip_neighbours find_interface lookup insert map_values
started = refl

pub router-IsReady : IsReady router
router-IsReady = init_ip_stack-IsReady (λ a. true) config router started

-- A packet from one network to the other.
abbrev pub hdr : Ipv4Header
hdr = record {
  version = 4;
  len = 20;
  tos = 0;
  total_len = 23;
  id = 0;
  flags = 0;
  frag_off = 0;
  ttl = 5;
  protocol = 0;
  checksum = 0;
  src = dotted 10 1 0 2;
  dst = peer;
}

abbrev pub text : List ℕ
text = 104 ∷ 105 ∷ 33 ∷ []

-- The header as it goes out, with the checksum of RFC 1071.
abbrev pub passed_on : List ℕ
passed_on = encoded (record hdr { ttl = 4; checksum = 41697 }) ++ text

passed :
    ip_forwarding ipv4 2 0 hdr text router ≡ some (router, sent neighbour2.udp_addr passed_on ∷ [])
unfolding ip_forwarding is_own src_filter forward longest_prefix_match scan contains neighbour_at
    lookup serialize_packet link_layer_send word_sum
passed = refl

ip_forwarding-Forwarded_example :
    (router ≡ router)
    × ((sent neighbour2.udp_addr passed_on ∷ [] ≡ [])
        ⊎ ((src_filter hdr schlaraffian ycom ≡ false)
            × (src_filter hdr schlaraffian xt_streaming ≡ false)
            × Forwarded ipv4 router hdr text (sent neighbour2.udp_addr passed_on ∷ [])))
unfolding is_own
ip_forwarding-Forwarded_example =
    ip_forwarding-Forwarded ipv4 2 0 hdr text router router
      (sent neighbour2.udp_addr passed_on ∷ []) refl passed

-- The neighbour offers a route.
abbrev pub offer : List RipEntry
offer = record { cost = 2; prefix = far } ∷ []

abbrev pub learned_far : FwdEntry
learned_far = learned peer 100 (record { cost = 2; prefix = far }) 3

abbrev pub bigger : IpStack
bigger = record router {
  forwarding_table = (net1, local_entry if0) ∷ (net2, local_entry if1) ∷ (far, learned_far) ∷ [];
}

handle_entries-relax_all_example :
    ((q : Prefix)
      → lookup q (handle_entries peer 100 offer router.forwarding_table).0
        ≡ relax_all peer 100 q offer (lookup q router.forwarding_table))
    × IsTable (handle_entries peer 100 offer router.forwarding_table).0
handle_entries-relax_all_example =
    handle_entries-relax_all peer 100 offer router.forwarding_table router-IsReady.table

-- The same with the handler that a router registers.
abbrev pub listening_router : IpStack
listening_router = record router { recv_handlers = (200, to_rip) ∷ [] }

abbrev pub offer_bytes : List ℕ
offer_bytes = 0 ∷ 2 ∷ 0 ∷ 1 ∷ 0 ∷ 0 ∷ 0 ∷ 2 ∷ 10 ∷ 3 ∷ 0 ∷ 0 ∷ 255 ∷ 255 ∷ 255 ∷ 0 ∷ []

abbrev pub offer_hdr : Ipv4Header
offer_hdr = record hdr {
  total_len = 36;
  ttl = 32;
  protocol = 200;
  checksum = 34316;
  src = peer;
  dst = dotted 10 2 0 1;
}

abbrev pub offer_packet : List ℕ
offer_packet = encoded offer_hdr ++ offer_bytes

pub heard :
    (effects : List Effect) × (run_ip_layer ipv4 2 100 offer_packet listening_router
      ≡ some (record bigger { recv_handlers = (200, to_rip) ∷ [] }, effects))
unfolding run_ip_layer deserialize_and_validate_packet validate ip_forwarding is_own lookup
    handle_rip_message deserialize_rip_message read_body read_uint16 read_uint32 read_entries
    read_entry mask_size size_below cidr_mask take_rip_message handle_entries handle_entry insert
    send_triggered_update send_each send_rip_message serialize_packet marshal marshal_entries
    marshal_entry link_layer_send word_sum
heard = (_, refl)

deserialize-serialize_packet_example :
    (zeroed : List ℕ) × (bytes : List ℕ) × (ipv4.marshal_header (record hdr { ttl = 4 })
      ≡ some zeroed)
    × (serialize_packet ipv4 (dotted 10 1 0 2) peer text 0 4 false ≡ some bytes)
    × (length bytes ≡ 20 + length text)
    × (deserialize_and_validate_packet ipv4 bytes
        ≡ some (outcome text (record hdr { ttl = 4; checksum = compute_checksum ipv4 zeroed })))
deserialize-serialize_packet_example =
    deserialize-serialize_packet ipv4 ipv4-IsSound (dotted 10 1 0 2) peer text 0 4 false
      (record {
        version = refl;
        len = refl;
        plain = (refl, refl, refl, refl);
        total_len = omega arith;
        ttl = omega arith;
        protocol = omega arith;
        checksum = omega arith;
        src = omega arith;
        dst = omega arith;
      })
      (omega arith)

-- The next hop of the learned route is on the second network.
hop_is_peer :
    (q : Prefix) (f : FwdEntry) (n : ℕ)
    → Row q f bigger.forwarding_table
    → f.next_hop ≡ some n
    → n ≡ peer
hop_is_peer q f n (inl r) h = absurd (ground (arith, ap (λ x. x.next_hop) r.1, h))
hop_is_peer q f n (inr (inl r)) h = absurd (ground (arith, ap (λ x. x.next_hop) r.1, h))
hop_is_peer q f n (inr (inr (inl r))) h = ground (arith, ap (λ x. x.next_hop) r.1, h)
hop_is_peer q f n (inr (inr (inr r))) h = elim r [ ]

not_far : (p : Prefix) (e : FwdEntry) → e ≡ learned_far → p ≡ far → contains p peer ≡ true → ⊥
unfolding contains
not_far p e same place c = false≢true (subst (λ x. contains x peer ≡ true) place c)

on_interface :
    (p : Prefix) (e : FwdEntry)
    → Row p e bigger.forwarding_table
    → contains p peer ≡ true
    → str_eq e.interface_name "" ≡ false
on_interface p e (inl r) c = subst (λ x. str_eq x.interface_name "" ≡ false) (sym r.1) refl
on_interface p e (inr (inl r)) c = subst (λ x. str_eq x.interface_name "" ≡ false) (sym r.1) refl
on_interface p e (inr (inr (inl r))) c = absurd (not_far p e r.1 r.0 c)
on_interface p e (inr (inr (inr r))) c = elim r [ ]

attached : Attached bigger.forwarding_table
attached q f n e row hop l =
    on_interface l.prefix e l.row
      (subst (λ x. contains l.prefix x ≡ true) (hop_is_peer q f n row hop) l.matches)

longest_prefix_match-total_example :
    (r : Match) × (longest_prefix_match 2 bigger.forwarding_table (some (dotted 10 3 0 9)) ≡ some r)
longest_prefix_match-total_example =
    longest_prefix_match-total 0 bigger.forwarding_table (some (dotted 10 3 0 9)) attached

-- The same rows in another order.
abbrev turned : List (Prefix × FwdEntry)
turned = (far, learned_far) ∷ (net2, local_entry if1) ∷ (net1, local_entry if0) ∷ []

same_rows : SameRows bigger.forwarding_table turned
same_rows q f = (
  λ r. elim r [
    | inl a ↦ inr (inr (inl a))
    | inr (inl b) ↦ inr (inl b)
    | inr (inr (inl c)) ↦ inl c
    | inr (inr (inr d)) ↦ elim d [ ]
  ],
  λ r. elim r [
    | inl a ↦ inr (inr (inl a))
    | inr (inl b) ↦ inr (inl b)
    | inr (inr (inl c)) ↦ inl c
    | inr (inr (inr d)) ↦ elim d [ ]
  ],
)

turned_masked : AllMasked turned
turned_masked q f (inl r) = subst IsMasked (sym r.0) (omega arith)
turned_masked q f (inr (inl r)) = subst IsMasked (sym r.0) (omega arith)
turned_masked q f (inr (inr (inl r))) = subst IsMasked (sym r.0) (omega arith)
turned_masked q f (inr (inr (inr r))) = elim r [ ]

turned-Unique : Unique turned
unfolding lookup
turned-Unique = (refl, (refl, (refl, tt)))

looked_up :
    longest_prefix_match 2 bigger.forwarding_table (some (dotted 10 3 0 9))
    ≡ some (found (local_entry if1) peer)
unfolding longest_prefix_match scan contains
looked_up = refl

longest_prefix_match_order_example :
    (k : ℕ) × ((fuel' : ℕ)
      → k ≤ fuel'
      → longest_prefix_match (suc fuel') turned (some (dotted 10 3 0 9))
        ≡ some (found (local_entry if1) peer))
longest_prefix_match_order_example =
    longest_prefix_match_order bigger.forwarding_table turned (some (dotted 10 3 0 9)) 2
      (found (local_entry if1) peer) turned-Unique turned_masked same_rows looked_up
