-- ===== src/Ip/Packet/Roundtrip.antt =====
-- A packet is taken as it was sent, unless its checksum is 0.
use mini_tls.Ip.Packet.{
  IpLib, Parsed, compute_checksum, deserialize_and_validate_packet, dropped, invert, packet,
  packet_header, serialize_packet, validate,
}
use mini_tls.Ip.Packet.Checksum.{
  Encodable, IsSound, checksum_bound, checksum_valid, fold16, word_sum,
}
use mini_tls.Ip.Types.{Ipv4Header, ttl_new}
use mini_tls.Prelude.{
  ℕ, ◌+◌, ◌%◌, ◌^◌, ◌<◌, ◌≡◌, refl, sym, ap, ◌∙◌, subst, inl, inr, Bool, false, not, some, List,
  ◌++◌, arith, ltb, ◌==◌, if◌then◌else◌, Bool-cases, length, length-append, take-append,
  drop-append,
}

-- What the receiver makes of a packet with this checksum.
abbrev pub outcome : List ℕ → Ipv4Header → Parsed
outcome message h = if h.checksum == 0 then dropped else packet message h

validate_lem :
    (lib : IpLib) (h : Ipv4Header) (b message : List ℕ)
    → length b ≡ h.len
    → 0 < h.ttl
    → h.checksum < 2 ^ 16
    → (lib.checksum b h.checksum == h.checksum) ≡ not (h.checksum == 0)
    → validate lib (b ++ message) h ≡ some (outcome message h)
unfolding validate
validate_lem lib h b message size ttl small sum =
    let whole : ltb (length (b ++ message)) h.len ≡ false =
      ground (arith, length-append b message) in
    let alive : (h.ttl == 0) ≡ false = ground arith in
    let same : h.checksum % 2 ^ 16 ≡ h.checksum = omega arith in
    let front = take-append h.len b message size in
    let back = drop-append h.len b message size in
    rw (whole, same, front, back, sum, alive)
      (elim (Bool-cases (h.checksum == 0)) [ inl z ↦ rw z refl | inr n ↦ rw n refl ])

-- The header that the sender puts in front, and the one that it is read back as.
module _ (lib : IpLib) (v : IsSound lib) (h : Ipv4Header) (enc : Encodable h) where
  abbrev pub sealed : List ℕ → Ipv4Header
  sealed zeroed = record h { checksum = compute_checksum lib zeroed }

  sealed-Encodable : (zeroed : List ℕ) → Encodable (sealed zeroed)
  sealed-Encodable zeroed = record {
    version = enc.version;
    len = enc.len;
    plain = enc.plain;
    total_len = enc.total_len;
    ttl = enc.ttl;
    protocol = enc.protocol;
    checksum = rw (v.sums zeroed 0) (checksum_bound (word_sum zeroed + 0));
    src = enc.src;
    dst = enc.dst;
  }

  sealed_sum :
      (zeroed b : List ℕ)
      → h.checksum ≡ 0
      → lib.marshal_header h ≡ some zeroed
      → lib.marshal_header (sealed zeroed) ≡ some b
      → let c = compute_checksum lib zeroed in (lib.checksum b c == c) ≡ not (c == 0)
  sealed_sum zeroed b no_sum mz mb =
      let s = word_sum zeroed in
      let c = compute_checksum lib zeroed in
      let total : word_sum b ≡ s + c =
        omega
          (arith, v.summed h c zeroed b enc.checksum (sealed-Encodable zeroed).checksum mz mb) in
      let value : c ≡ invert (fold16 s) =
        ap invert (v.sums zeroed 0) ∙ ap (λ n. invert (fold16 n)) (omega arith) in
      rw (v.sums b c) (
        rw total
          (subst (λ x. (fold16 (s + x + x) == x) ≡ not (x == 0)) (sym value) (checksum_valid s)))

-- The header of a packet that the program sends, with fields that fit.
abbrev pub sent_header : ℕ → ℕ → List ℕ → ℕ → ℕ → Bool → Ipv4Header
sent_header source dest message protocol ttl is_new =
    packet_header source dest message protocol (if is_new then ttl_new else ttl)

-- A packet whose fields fit is serialized, in 20 bytes before the message. Its receiver takes it with
-- the message and the header that were sent, unless the checksum comes out as 0, in which case it gets a nil header and no error.
pub deserialize-serialize_packet :
    (lib : IpLib) (v : IsSound lib) (source dest : ℕ) (message : List ℕ) (protocol ttl : ℕ)
    (is_new : Bool)
    → let h = sent_header source dest message protocol ttl is_new in
      Encodable h
      → 0 < h.ttl
      → (zeroed : List ℕ) × (bytes : List ℕ) × (lib.marshal_header h ≡ some zeroed)
        × (serialize_packet lib source dest message protocol ttl is_new ≡ some bytes)
        × (length bytes ≡ 20 + length message)
        × (deserialize_and_validate_packet lib bytes
            ≡ some (outcome message (record h { checksum = compute_checksum lib zeroed })))
unfolding serialize_packet deserialize_and_validate_packet
deserialize-serialize_packet lib v source dest message protocol ttl is_new enc alive =
    let h = sent_header source dest message protocol ttl is_new in
    let z = v.marshals h enc in
    let full = sealed lib v h enc z.0 in
    let e = sealed-Encodable lib v h enc z.0 in
    let b = v.marshals full e in
    let check = sealed_sum lib v h enc z.0 b.0 refl z.1 b.1 in
    (
      z.0,
      b.0 ++ message,
      z.1,
      rw (z.1) (rw (b.1) refl),
      length-append (b.0) message ∙ ap (λ n. n + length message) (b.2),
      rw (v.parses full b.0 message e b.1, deserialize_and_validate_packet)
          (validate_lem lib full b.0 message (b.2 ∙ sym e.len) alive e.checksum check),
    )
