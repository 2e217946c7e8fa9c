-- ===== src/Ip/Packet.antt =====
-- `SerializePacket` and `DeserializeAndValidatePacket` of pkg/ipStack/ipStack.go, and the checksums of
-- pkg/protocol/utils.go. The encoding of the header and the sum are libraries.
pub mod Checksum
pub mod Roundtrip
use mini_tls.Ip.Types.{Ipv4Header, ttl_new}
use mini_tls.Prelude.{
  ℕ, ◌+◌, ◌-◌, ◌%◌, ◌^◌, Bool, not, Option, none, some, List, ◌++◌, ltb, ◌==◌, if◌then◌else◌, ◌>>=◌,
  length, take, drop,
}

-- `IPv4Header.Marshal` and `ParseHeader` of iptcp-headers, `none` where they return an error, and
-- `Checksum` of netstack.
pub record IpLib : Type 0 where
  pub marshal_header : Ipv4Header → Option (List ℕ)
  pub parse_header : List ℕ → Option Ipv4Header
  pub checksum : List ℕ → ℕ → ℕ

-- `checksum ^ 0xffff`
abbrev pub invert : ℕ → ℕ
invert checksum = 65535 - checksum

module _ (lib : IpLib) where
  -- `ComputeChecksum`
  abbrev pub compute_checksum : List ℕ → ℕ
  compute_checksum b = invert (lib.checksum b 0)

  -- `ValidateChecksum`
  abbrev pub validate_checksum : List ℕ → ℕ → ℕ
  validate_checksum b from_header = lib.checksum b from_header

-- The header of `SerializePacket`, before its checksum.
abbrev pub packet_header : ℕ → ℕ → List ℕ → ℕ → ℕ → Ipv4Header
packet_header source dest message protocol ttl = record {
  version = 4;
  len = 20;
  tos = 0;
  total_len = 20 + length message;
  id = 0;
  flags = 0;
  frag_off = 0;
  ttl = ttl;
  protocol = protocol;
  checksum = 0;
  src = source;
  dst = dest;
}

-- `SerializePacket`; where the library cannot encode the header, the process ends. A new packet has
-- the TTL `TTLNew`, any other one the given one.
unfoldable pub serialize_packet : IpLib → ℕ → ℕ → List ℕ → ℕ → ℕ → Bool → Option (List ℕ)
serialize_packet lib source dest message protocol ttl is_ttl_new = do
  let hdr = packet_header source dest message protocol (if is_ttl_new then ttl_new else ttl)
  zeroed ← lib.marshal_header hdr
  header_bytes ← lib.marshal_header (record hdr { checksum = compute_checksum lib zeroed })
  some (header_bytes ++ message)

-- What `DeserializeAndValidatePacket` returns: an error of `ParseHeader`, a nil header with a nil
-- error, or a message with its header.
pub data Parsed : Type 0 where
  malformed dropped : Parsed
  packet : List ℕ → Ipv4Header → Parsed

-- The part behind `ParseHeader`. A header that is said to be longer than the bytes is a panic.
unfoldable pub validate : IpLib → List ℕ → Ipv4Header → Option Parsed
validate lib bytes hdr =
    let from_header = hdr.checksum % 2 ^ 16 in
    if ltb (length bytes) hdr.len
    then none
    else if not (validate_checksum lib (take hdr.len bytes) from_header == from_header)
    then some dropped
    else if hdr.ttl == 0
    then some dropped
    else some (packet (drop hdr.len bytes) hdr)

-- `DeserializeAndValidatePacket`
unfoldable pub deserialize_and_validate_packet : IpLib → List ℕ → Option Parsed
deserialize_and_validate_packet lib bytes = elim (lib.parse_header bytes) [
  | none ↦ some malformed
  | some hdr ↦ validate lib bytes hdr
]
