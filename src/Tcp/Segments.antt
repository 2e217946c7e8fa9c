-- ===== src/Tcp/Segments.antt =====
-- Segments as bytes: `ParseAndValidateTCP` and `ComputeTCPChecksum` of pkg/protocol/iptcp_utils.go,
-- `sendTCP` of pkg/tcpStack/doTcp.go and the first part of its `HandleTCP`.
pub mod Arrival
pub mod Delivery
use mini_tls.Ip.Forward.{SendResult, send_ip}
use mini_tls.Ip.Packet.{IpLib, invert}
use mini_tls.Ip.Types.{IpStack, Ipv4Header}
use mini_tls.Prelude.{
  ℕ, ◌+◌, ◌%◌, ◌^◌, Bool, not, Option, none, some, List, ◌∷◌, ◌++◌, ltb, ◌==◌, if◌then◌else◌, ◌>>=◌,
  length, drop, big_endian, put_uint32,
}
use mini_tls.Tcp.Dispatch.{handle_tcp}
use mini_tls.Tcp.Send.{Floats}
use mini_tls.Tcp.Table.{Stack}
use mini_tls.Tcp.Types.{SendRequest, TcpFields}

-- `header.TCPFields` of netstack, without the urgent pointer, which the program leaves 0.
pub record TcpHeader : Type 0 where
  pub tcp_fields : TcpFields
  pub data_offset : ℕ
  pub tcp_checksum : ℕ

-- `header.TCP` of netstack: `Encode` on 20 bytes, and the accessors that `ParseTCPHeader` calls, `none`
-- where one of them is out of range; and `Checksum`.
pub record TcpLib : Type 0 where
  pub encode : TcpHeader → List ℕ
  pub parse : List ℕ → Option TcpHeader
  pub sum : List ℕ → ℕ → ℕ

-- The header that the program builds, with its `DataOffset: 20`.
abbrev pub tcp_header_of : TcpFields → ℕ → TcpHeader
tcp_header_of fields checksum = record {
  tcp_fields = fields;
  data_offset = 20;
  tcp_checksum = checksum;
}

-- The pseudo header, with the length of header and payload as a uint16.
abbrev pub pseudo_header : ℕ → ℕ → List ℕ → List ℕ
pseudo_header source_ip dest_ip payload =
    put_uint32 source_ip
    ++ (put_uint32 dest_ip ++ (0 ∷ 6 ∷ big_endian 2 ((20 + length payload) % 2 ^ 16)))

-- What `ParseAndValidateTCP` returns.
pub data Checked : Type 0 where
  checksum_failed : Checked
  intact : TcpFields → List ℕ → Checked

module _ (tcp : TcpLib) where
  -- `ComputeTCPChecksum`
  unfoldable pub compute_tcp_checksum : TcpHeader → ℕ → ℕ → List ℕ → ℕ
  compute_tcp_checksum tcp_hdr source_ip dest_ip payload =
      let pseudo = tcp.sum (pseudo_header source_ip dest_ip payload) 0 in
      invert (tcp.sum payload (tcp.sum (tcp.encode tcp_hdr) pseudo))

  -- The part of `ParseAndValidateTCP` behind the header. An offset beyond the message is a panic.
  unfoldable pub validate_tcp : Ipv4Header → List ℕ → TcpHeader → Option Checked
  validate_tcp hdr message tcp_hdr =
      let payload = drop tcp_hdr.data_offset message in
      let computed =
        compute_tcp_checksum (record tcp_hdr { tcp_checksum = 0 }) hdr.src hdr.dst payload in
      if ltb (length message) tcp_hdr.data_offset
      then none
      else if not (computed == tcp_hdr.tcp_checksum)
      then some checksum_failed
      else some (intact tcp_hdr.tcp_fields payload)

  -- `ParseAndValidateTCP`
  unfoldable pub parse_and_validate_tcp : Ipv4Header → List ℕ → Option Checked
  parse_and_validate_tcp hdr message = tcp.parse message >>= validate_tcp hdr message

  -- The payload of the IP packet that `sendTCP` makes.
  unfoldable pub ip_packet_payload : SendRequest → List ℕ
  ip_packet_payload req =
      let checksum =
        compute_tcp_checksum (tcp_header_of req.tcp_header 0) req.source_ip req.dest_ip
          req.payload in
      tcp.encode (tcp_header_of req.tcp_header checksum) ++ req.payload

  -- `sendTCP`, with what `SendIP` returns.
  unfoldable pub send_tcp : IpLib → ℕ → SendRequest → IpStack → Option SendResult
  send_tcp lib fuel req stack = send_ip lib fuel req.dest_ip (ip_packet_payload req) 6 stack

  -- What `HandleTCP` does with a segment whose checksum was looked at.
  abbrev pub handle_checked : Floats → ℕ → Bool → ℕ → Ipv4Header → Stack → Checked → Option Stack
  handle_checked fl now coin isn hdr st checksum_failed = some st
  handle_checked fl now coin isn hdr st (intact fields payload) =
      handle_tcp fl now coin isn fields payload hdr.src hdr.dst st

  -- `HandleTCP` on the payload of an IP packet.
  unfoldable pub handle_tcp_packet :
      Floats → ℕ → Bool → ℕ → Ipv4Header → List ℕ → Stack → Option Stack
  handle_tcp_packet fl now coin isn hdr message st =
      parse_and_validate_tcp hdr message >>= handle_checked fl now coin isn hdr st
