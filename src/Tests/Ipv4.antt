-- ===== src/Tests/Ipv4.antt =====
-- The encoding of IPv4 headers without options, which meets what the program relies on.
use mini_tls.Ip.Packet.{IpLib}
use mini_tls.Ip.Packet.Checksum.{Encodable, IsSound, fold16, word_sum}
use mini_tls.Ip.Types.{Ipv4Header}
use mini_tls.Prelude.{
  ℕ, ◌+◌, ◌*◌, ◌/◌, ◌%◌, ◌^◌, ◌<◌, ◌≡◌, refl, ap, subst, subst₂, Bool, true, false, ◌&&◌, none,
  some, List, ◌∷◌, ◌++◌, arith, ltb, ◌==◌, if◌then◌else◌, if-eq-some, length, get_or, drop,
  put_uint32, uint32,
}
use mini_tls.Tests.Data.{small}

abbrev pub fits : Ipv4Header → Bool
fits h =
    h.version == 4
    && (h.len == 20
        && (h.tos == 0
            && (h.id == 0
                && (h.flags == 0
                    && (h.frag_off == 0
                        && (ltb h.total_len (2 ^ 16)
                            && (ltb h.ttl (2 ^ 8)
                                && (ltb h.protocol (2 ^ 8)
                                    && (ltb h.checksum (2 ^ 16)
                                        && (ltb h.src (2 ^ 32) && ltb h.dst (2 ^ 32)))))))))))

abbrev pub encoded : Ipv4Header → List ℕ
encoded h =
    69
    ∷ 0
    ∷ h.total_len / 256
    ∷ h.total_len % 256
    ∷ 0
    ∷ 0
    ∷ 0
    ∷ 0
    ∷ h.ttl
    ∷ h.protocol
    ∷ h.checksum / 256
    ∷ h.checksum % 256
    ∷ (put_uint32 h.src ++ put_uint32 h.dst)

abbrev pub parsed : List ℕ → Ipv4Header
parsed b = record {
  version = get_or b 0 0 / 16;
  len = get_or b 0 0 % 16 * 4;
  tos = get_or b 1 0;
  total_len = get_or b 2 0 * 256 + get_or b 3 0;
  id = get_or b 4 0 * 256 + get_or b 5 0;
  flags = get_or b 6 0 / 32;
  frag_off = get_or b 6 0 % 32 * 256 + get_or b 7 0;
  ttl = get_or b 8 0;
  protocol = get_or b 9 0;
  checksum = get_or b 10 0 * 256 + get_or b 11 0;
  src = uint32 (drop 12 b);
  dst = uint32 (drop 16 b);
}

abbrev pub ipv4 : IpLib
ipv4 = record {
  marshal_header = λ h. if fits h then some (encoded h) else none;
  parse_header = λ b. if ltb (length b) 20 then none else some (parsed b);
  checksum = λ b initial. fold16 (word_sum b + initial);
}

pub fits_lem : (h : Ipv4Header) → Encodable h → fits h ≡ true
fits_lem h v =
    ground
      (arith, v.version, v.len, v.plain, v.total_len, v.ttl, v.protocol, v.checksum, v.src, v.dst)

parsed-encoded : (h : Ipv4Header) (rest : List ℕ) → Encodable h → parsed (encoded h ++ rest) ≡ h
parsed-encoded h rest v = ground (arith, v.version)

summed_lem :
    (h : Ipv4Header) (c : ℕ)
    → h.checksum < 2 ^ 16
    → c < 2 ^ 16
    → word_sum (encoded (record h { checksum = c })) + h.checksum ≡ word_sum (encoded h) + c
unfolding word_sum
summed_lem h c a b = omega arith

ipv4-marshals :
    (h : Ipv4Header)
    → Encodable h
    → (b : List ℕ) × (ipv4.marshal_header h ≡ some b) × (length b ≡ 20)
ipv4-marshals h v = (encoded h, rw (fits_lem h v) refl, refl)

ipv4-parses :
    (h : Ipv4Header) (b rest : List ℕ)
    → Encodable h
    → ipv4.marshal_header h ≡ some b
    → ipv4.parse_header (b ++ rest) ≡ some h
ipv4-parses h b rest v e =
    let same : encoded h ≡ b = (if-eq-some (fits h) (encoded h) e).1 in
    let long : ltb (length (encoded h ++ rest)) 20 ≡ false = ground arith in
    subst (λ x. ipv4.parse_header (x ++ rest) ≡ some h) same
      (rw long (ap some (parsed-encoded h rest v)))

ipv4-summed :
    (h : Ipv4Header) (c : ℕ) (b b' : List ℕ)
    → h.checksum < 2 ^ 16
    → c < 2 ^ 16
    → ipv4.marshal_header h ≡ some b
    → ipv4.marshal_header (record h { checksum = c }) ≡ some b'
    → word_sum b' + h.checksum ≡ word_sum b + c
ipv4-summed h c b b' small small' e e' =
    let r = if-eq-some (fits h) (encoded h) e in
    let h' = record h { checksum = c } in
    let r' = if-eq-some (fits h') (encoded h') e' in
    subst₂ (λ x y. word_sum y + h.checksum ≡ word_sum x + c) r.1 r'.1 (summed_lem h c small small')

pub ipv4-IsSound : IsSound ipv4
ipv4-IsSound = record {
  marshals = ipv4-marshals;
  parses = ipv4-parses;
  summed = ipv4-summed;
  sums = λ b initial. refl;
}
