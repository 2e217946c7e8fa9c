-- ===== src/Tcp/Segments/Arrival.antt =====
-- A segment that one host sends to the next arrives at its `HandleTCP` as it was sent.
use mini_tls.Ip.Types.{Ipv4Header}
use mini_tls.Prelude.{
  ℕ, ◌+◌, ◌^◌, ◌<◌, ◌≡◌, refl, ap, ◌∙◌, false, some, List, ◌++◌, arith, ltb, ==_refl, length,
  length-append, drop-append,
}
use mini_tls.Tcp.Segments.{
  TcpHeader, TcpLib, compute_tcp_checksum, intact, ip_packet_payload, parse_and_validate_tcp,
  tcp_header_of, validate_tcp,
}
use mini_tls.Tcp.Types.{SendRequest}

-- What the program relies on in netstack: a header whose fields fit is read back as it was encoded, in
-- 20 bytes, whatever follows it.
pub record HeaderFits (h : TcpHeader) : Type 0 where
  pub src_port : h.tcp_fields.src_port < 2 ^ 16
  pub dst_port : h.tcp_fields.dst_port < 2 ^ 16
  pub seq_num : h.tcp_fields.seq_num < 2 ^ 32
  pub ack_num : h.tcp_fields.ack_num < 2 ^ 32
  pub flags : h.tcp_fields.flags < 2 ^ 8
  pub window_size : h.tcp_fields.window_size < 2 ^ 16
  pub offset : h.data_offset ≡ 20
  pub tcp_checksum : h.tcp_checksum < 2 ^ 16

pub record Encodes (tcp : TcpLib) : Type 0 where
  pub twenty : (h : TcpHeader) → HeaderFits h → length (tcp.encode h) ≡ 20
  pub parses :
      (h : TcpHeader) (rest : List ℕ) → HeaderFits h → tcp.parse (tcp.encode h ++ rest) ≡ some h

module _ (tcp : TcpLib) (v : Encodes tcp) (req : SendRequest)
    (f : HeaderFits (tcp_header_of req.tcp_header 0)) where
  abbrev sent_with : TcpHeader
  sent_with = tcp_header_of req.tcp_header (
      compute_tcp_checksum tcp (tcp_header_of req.tcp_header 0) req.source_ip req.dest_ip
        req.payload)

  sent_with-HeaderFits : HeaderFits sent_with
  unfolding compute_tcp_checksum
  sent_with-HeaderFits = record {
    src_port = f.src_port;
    dst_port = f.dst_port;
    seq_num = f.seq_num;
    ack_num = f.ack_num;
    flags = f.flags;
    window_size = f.window_size;
    offset = refl;
    tcp_checksum = omega arith;
  }

  pub length-ip_packet_payload : length (ip_packet_payload tcp req) ≡ 20 + length req.payload
  unfolding ip_packet_payload
  length-ip_packet_payload =
      length-append (tcp.encode sent_with) req.payload
      ∙ ap (λ n. n + length req.payload) (v.twenty sent_with sent_with-HeaderFits)

  -- The receiver finds the checksum right, and the fields and the payload as they were.
  pub parse_and_validate_tcp-ip_packet_payload :
      (hdr : Ipv4Header)
      → hdr.src ≡ req.source_ip
      → hdr.dst ≡ req.dest_ip
      → parse_and_validate_tcp tcp hdr (ip_packet_payload tcp req)
        ≡ some (intact req.tcp_header req.payload)
  unfolding parse_and_validate_tcp validate_tcp ip_packet_payload
  parse_and_validate_tcp-ip_packet_payload hdr s d =
      let size = v.twenty sent_with sent_with-HeaderFits in
      let whole : ltb (length (tcp.encode sent_with ++ req.payload)) 20 ≡ false =
        ground (arith, length-append (tcp.encode sent_with) req.payload, size) in
      let back = drop-append 20 (tcp.encode sent_with) req.payload size in
      rw (v.parses sent_with req.payload sent_with-HeaderFits, whole, back, s, d)
        (rw (==_refl sent_with.tcp_checksum) refl)
