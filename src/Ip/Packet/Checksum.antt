-- ===== src/Ip/Packet/Checksum.antt =====
-- The Internet checksum of RFC 1071, which netstack documents, and what the program relies on in the
-- encoding of headers.
use mini_tls.Ip.Packet.{IpLib, invert}
use mini_tls.Ip.Types.{Ipv4Header}
use mini_tls.Prelude.{
  ℕ, ◌+◌, ◌-◌, ◌*◌, ◌%◌, ◌^◌, ◌<◌, ◌≡◌, not, some, List, [], ◌∷◌, ◌++◌, arith, ◌==◌, if◌then◌else◌,
  length,
}

-- The sum of the 16-bit words, an odd last byte being the high half of one.
unfoldable pub word_sum : List ℕ → ℕ
word_sum [] = 0
word_sum (a ∷ []) = a * 256
word_sum (a ∷ b ∷ rest) = a * 256 + b + word_sum rest

-- The carries are added back in until the sum has 16 bits; only 0 gives 0.
abbrev pub fold16 : ℕ → ℕ
fold16 n = if n == 0 then 0 else (n - 1) % 65535 + 1

-- A header that fits into its 20 bytes, in the fields that the program sets.
pub record Encodable (h : Ipv4Header) : Type 0 where
  pub version : h.version ≡ 4
  pub len : h.len ≡ 20
  pub plain : (h.tos ≡ 0) × (h.id ≡ 0) × (h.flags ≡ 0) × (h.frag_off ≡ 0)
  pub total_len : h.total_len < 2 ^ 16
  pub ttl : h.ttl < 2 ^ 8
  pub protocol : h.protocol < 2 ^ 8
  pub checksum : h.checksum < 2 ^ 16
  pub src : h.src < 2 ^ 32
  pub dst : h.dst < 2 ^ 32

-- A header that fits is encoded in 20 bytes, and read back whatever follows it; its checksum is one
-- of the 16-bit words, and the sum is that of RFC 1071.
pub record IsSound (lib : IpLib) : Type 0 where
  pub marshals :
      (h : Ipv4Header)
      → Encodable h
      → (b : List ℕ) × (lib.marshal_header h ≡ some b) × (length b ≡ 20)
  pub parses :
      (h : Ipv4Header) (b rest : List ℕ)
      → Encodable h
      → lib.marshal_header h ≡ some b
      → lib.parse_header (b ++ rest) ≡ some h
  pub summed :
      (h : Ipv4Header) (c : ℕ) (b b' : List ℕ)
      → h.checksum < 2 ^ 16
      → c < 2 ^ 16
      → lib.marshal_header h ≡ some b
      → lib.marshal_header (record h { checksum = c }) ≡ some b'
      → word_sum b' + h.checksum ≡ word_sum b + c
  pub sums : (b : List ℕ) (initial : ℕ) → lib.checksum b initial ≡ fold16 (word_sum b + initial)

-- The checksum that was put in validates, unless it is 0.
pub checksum_valid : (s : ℕ) → let c = invert (fold16 s) in (fold16 (s + c + c) == c) ≡ not (c == 0)
checksum_valid s = ground arith

pub checksum_bound : (s : ℕ) → invert (fold16 s) < 2 ^ 16
checksum_bound s = omega arith
