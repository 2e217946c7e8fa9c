-- ===== src/Tests/Segments.antt =====
-- Two hosts on a network, and a segment from one to the other.
use mini_tls.Ip.Forward.{dotted, is_own}
use mini_tls.Ip.Forward.Delivery.{Hears, OnLink}
use mini_tls.Ip.Match.{longer, longest_prefix_match, scan}
use mini_tls.Ip.Packet.Checksum.{fold16, word_sum}
use mini_tls.Ip.Prefix.{contains}
use mini_tls.Ip.Table.{lookup, prefix_key, string_key, nat_key}
use mini_tls.Ip.Types.{Interface, IpStack, Neighbour, local, to_tcp, to_test}
use mini_tls.Prelude.{
  ℕ, ◌+◌, ◌*◌, ◌/◌, ◌%◌, ◌^◌, ◌≡◌, refl, ap, true, false, none, some, List, [], ◌∷◌, ◌++◌, arith,
  ltb, if◌then◌else◌, length, get_or, drop, put_uint32, uint32,
}
use mini_tls.Tcp.Segments.{TcpHeader, TcpLib, ip_packet_payload, tcp_header_of}
use mini_tls.Tcp.Segments.Arrival.{Encodes, HeaderFits}
use mini_tls.Tcp.Segments.Delivery.{Arrives, carrier, send_tcp-Arrives}
use mini_tls.Tcp.Types.{SendRequest}
use mini_tls.Tests.Ip.{net1}
use mini_tls.Tests.Ipv4.{encoded, ipv4, ipv4-IsSound}

-- The encoding of TCP headers without options.
abbrev pub tcp_bytes : TcpHeader → List ℕ
tcp_bytes h =
    h.tcp_fields.src_port / 256
    ∷ h.tcp_fields.src_port % 256
    ∷ h.tcp_fields.dst_port / 256
    ∷ h.tcp_fields.dst_port % 256
    ∷ (put_uint32 h.tcp_fields.seq_num
        ++ (put_uint32 h.tcp_fields.ack_num
            ++ (h.data_offset / 4 * 16
                ∷ h.tcp_fields.flags
                ∷ h.tcp_fields.window_size / 256
                ∷ h.tcp_fields.window_size % 256
                ∷ h.tcp_checksum / 256
                ∷ h.tcp_checksum % 256
                ∷ 0
                ∷ 0
                ∷ [])))

abbrev pub tcp_parsed : List ℕ → TcpHeader
tcp_parsed b = record {
  tcp_fields = record {
    src_port = get_or b 0 0 * 256 + get_or b 1 0;
    dst_port = get_or b 2 0 * 256 + get_or b 3 0;
    seq_num = uint32 (drop 4 b);
    ack_num = uint32 (drop 8 b);
    flags = get_or b 13 0;
    window_size = get_or b 14 0 * 256 + get_or b 15 0;
  };
  data_offset = get_or b 12 0 / 16 * 4;
  tcp_checksum = get_or b 16 0 * 256 + get_or b 17 0;
}

abbrev pub tcp : TcpLib
tcp = record {
  encode = tcp_bytes;
  parse = λ b. if ltb (length b) 18 then none else some (tcp_parsed b);
  sum = λ b initial. fold16 (word_sum b + initial);
}

tcp_parsed-tcp_bytes :
    (h : TcpHeader) (rest : List ℕ) → HeaderFits h → tcp_parsed (tcp_bytes h ++ rest) ≡ h
tcp_parsed-tcp_bytes h rest v = ground (arith, v.offset)

pub tcp-Encodes : Encodes tcp
tcp-Encodes = record {
  twenty = λ h f. refl;
  parses = λ h rest f.
      let long : ltb (length (tcp_bytes h ++ rest)) 18 ≡ false = ground arith in
      rw long (ap some (tcp_parsed-tcp_bytes h rest f));
}

abbrev pub neighbour_of : ℕ → Neighbour
neighbour_of other = record {
  ip = other;
  udp_addr = record { host = dotted 127 0 0 1; port = other % 2 ^ 16 };
}

abbrev pub host_iface : ℕ → ℕ → Interface
host_iface own other = record {
  name = "if0";
  prefix = net1;
  ip = own;
  neighbours = (other, neighbour_of other) ∷ [];
  up = true;
}

-- A host with one interface, which has handlers as vhost registers them.
abbrev pub host_at : ℕ → ℕ → IpStack
host_at own other = record {
  interfaces = ("if0", host_iface own other) ∷ [];
  forwarding_table =
      (
        net1,
        record {
          prefix = net1;
          next_hop = none;
          interface_name = "if0";
          source = local;
          cost = 0;
          last_updated = 0;
        },
      )
      ∷ [];
  rip_info = record { neighbors = []; rip_timeout = 0; rip_update_rate = 0 };
  recv_handlers = (6, to_tcp) ∷ (0, to_test) ∷ [];
}

abbrev pub ip_a : ℕ
ip_a = dotted 10 1 0 1

abbrev pub ip_b : ℕ
ip_b = dotted 10 1 0 2

abbrev pub host_a : IpStack
host_a = host_at ip_a ip_b

abbrev pub host_b : IpStack
host_b = host_at ip_b ip_a

abbrev pub hello : SendRequest
hello = record {
  tcp_header = record {
    src_port = 50000;
    dst_port = 9999;
    seq_num = 1000;
    ack_num = 2000;
    flags = 16;
    window_size = 65535;
  };
  payload = 104 ∷ 105 ∷ [];
  source_ip = ip_a;
  dest_ip = ip_b;
}

hello-HeaderFits : HeaderFits (tcp_header_of hello.tcp_header 0)
hello-HeaderFits = record {
  src_port = omega arith;
  dst_port = omega arith;
  seq_num = omega arith;
  ack_num = omega arith;
  flags = omega arith;
  window_size = omega arith;
  offset = refl;
  tcp_checksum = omega arith;
}

a-OnLink : OnLink 1 ip_b host_a (host_iface ip_a ip_b) (neighbour_of ip_b)
unfolding longest_prefix_match scan lookup contains longer
a-OnLink = record {
  entry = _;
  next = ip_b;
  route = refl;
  attached = refl;
  out = refl;
  is_up = refl;
  known = refl;
}

b-Hears : Hears ip_b 6 host_b to_tcp
unfolding is_own lookup
b-Hears = record { own = refl; registered = refl }

send_tcp-Arrives_example :
    Arrives ipv4 tcp 1 100 hello host_a host_b (neighbour_of ip_b) (host_iface ip_b ip_a)
unfolding ip_packet_payload word_sum
send_tcp-Arrives_example =
    send_tcp-Arrives ipv4 ipv4-IsSound tcp tcp-Encodes 1 100 hello host_a host_b
      (host_iface ip_a ip_b) (neighbour_of ip_b) (host_iface ip_b ip_a)
      (encoded (carrier tcp hello)) hello-HeaderFits (omega arith) (omega arith) (omega arith)
      a-OnLink refl b-Hears refl refl refl
