-- ===== src/Ip/Forward/Path.antt =====
-- A packet on its way over any number of routers.
use mini_tls.Ip.Forward.{
  deliver, done, forward, ip_forwarding, is_own, link_layer_listen, neighbour_at, run_ip_layer,
  schlaraffian, send_ip, src_filter, xt_streaming, ycom,
}
use mini_tls.Ip.Forward.Delivery.{Hears, OnLink, send_ip_bytes}
use mini_tls.Ip.Packet.{
  IpLib, compute_checksum, deserialize_and_validate_packet, packet, serialize_packet,
}
use mini_tls.Ip.Packet.Checksum.{Encodable, IsSound}
use mini_tls.Ip.Packet.Roundtrip.{deserialize-serialize_packet, sent_header}
use mini_tls.Ip.Types.{
  Effect, Handler, Interface, IpStack, Ipv4Header, Neighbour, infinity, link_layer_send, sent,
}
use mini_tls.Prelude.{
  ℕ, zero, suc, ◌+◌, ◌-◌, ◌^◌, ◌≤◌, ◌<◌, ◌≡◌, refl, ap, ◌∙◌, subst, true, false, Option, none, some,
  List, [], ◌∷◌, arith, leb, ◌==◌, ◌>>=◌, >>=-eq-some, length, get_elem?, take-length,
}

-- The datagram that a router sends, if it sends one and nothing else.
abbrev pub only_sent : List Effect → Option (List ℕ)
only_sent (sent udp_addr bytes ∷ []) = some bytes
only_sent effects = none

-- The datagram that a node reads from its channel, which was empty, after one came in on the interface.
unfoldable pub listen_once : Interface → List ℕ → Option (List ℕ)
listen_once iface datagram = get_elem? (link_layer_listen iface datagram []) 0

-- Each router hears on an interface of its own what the one before it has sent.
unfoldable pub relay : IpLib → ℕ → ℕ → List (Interface × IpStack) → List ℕ → Option (List ℕ)
relay lib fuel now [] bytes = some bytes
relay lib fuel now ((iface, r) ∷ rs) bytes = listen_once iface bytes >>= λ msg_bytes.
    run_ip_layer lib fuel now msg_bytes r >>= λ out. only_sent out.1 >>= relay lib fuel now rs

module _ (lib : IpLib) (v : IsSound lib) (source dest : ℕ) (message : List ℕ) (proto : ℕ) where
  -- The header on the way, before its checksum.
  abbrev pub at_ttl : ℕ → Ipv4Header
  at_ttl ttl = sent_header source dest message proto ttl false

  -- A router that sends the packet on.
  pub record Passes (fuel : ℕ) (r : IpStack) : Type 0 where
    pub foreign : is_own dest r.interfaces ≡ false
    pub not_ycom : src_filter (at_ttl 0) schlaraffian ycom ≡ false
    pub not_streaming : src_filter (at_ttl 0) schlaraffian xt_streaming ≡ false
    pub iface : Interface
    pub neighbour : Neighbour
    pub link : OnLink fuel dest r iface neighbour
    pub online : link.entry.cost < infinity

  -- Each router hears on an interface that is up, and sends the packet on.
  abbrev pub AllPass : ℕ → List (Interface × IpStack) → Type 0
  AllPass fuel [] = Unit
  AllPass fuel ((iface, r) ∷ rs) = (iface.up ≡ true) × Passes fuel r × AllPass fuel rs

  -- The checksum of the header with this TTL is not 0.
  abbrev pub Nonzero : ℕ → Type 0
  Nonzero ttl =
      (z : List ℕ) × (lib.marshal_header (at_ttl ttl) ≡ some z)
      × ((compute_checksum lib z == 0) ≡ false)

  -- What a receiver of these bytes makes of them, as many as there are.
  abbrev pub Carries : ℕ → List ℕ → Type 0
  Carries ttl bytes =
      (length bytes ≡ 20 + length message)
      × (c : ℕ) × (deserialize_and_validate_packet lib bytes
          ≡ some (packet message (record (at_ttl ttl) { checksum = c })))

  Encodable-at : (ttl : ℕ) → Encodable (at_ttl 0) → ttl < 2 ^ 8 → Encodable (at_ttl ttl)
  Encodable-at ttl e small = record {
    version = refl;
    len = refl;
    plain = (refl, refl, refl, refl);
    total_len = e.total_len;
    ttl = small;
    protocol = e.protocol;
    checksum = omega arith;
    src = e.src;
    dst = e.dst;
  }

  serialized :
      (ttl : ℕ)
      → Encodable (at_ttl 0)
      → 0 < ttl
      → ttl < 2 ^ 8
      → Nonzero ttl
      → (bytes : List ℕ) × (serialize_packet lib source dest message proto ttl false ≡ some bytes)
        × Carries ttl bytes
  serialized ttl e alive small nz =
      let p =
        deserialize-serialize_packet lib v source dest message proto ttl false
          (Encodable-at ttl e small) alive in
      let is_z : p.0 ≡ nz.0 = cc (p.2, nz.1) in
      let n : (compute_checksum lib p.0 == 0) ≡ false =
        ap (λ z. compute_checksum lib z == 0) is_z ∙ nz.2 in
      (p.1, p.3, (p.4, compute_checksum lib p.0, p.5 ∙ rw n refl))

  hop :
      (fuel now ttl : ℕ) (r : IpStack) (bytes : List ℕ)
      → Encodable (at_ttl 0)
      → Passes fuel r
      → 0 < ttl
      → ttl < 2 ^ 8
      → Nonzero ttl
      → Carries (suc ttl) bytes
      → (bytes' : List ℕ) × ((run_ip_layer lib fuel now bytes r >>= λ out. only_sent out.1)
          ≡ some bytes')
        × Carries ttl bytes'
  unfolding run_ip_layer ip_forwarding forward src_filter neighbour_at link_layer_send
  hop fuel now ttl r bytes e p alive small nz c =
      let out = serialized ttl e alive small nz in
      let l = p.link in
      let up : (leb infinity l.entry.cost) ≡ false = ground (arith, p.online) in
      let less : suc ttl - 1 ≡ ttl = omega arith in
      let lives : (ttl == 0) ≡ false = ground arith in
      (
        out.0,
        rw (c.2, p.foreign, p.not_ycom, p.not_streaming)
            (rw (forward, less, lives, l.route)
              (rw (up, l.attached, l.out, l.known, l.is_up, out.1) refl)),
        out.2,
      )

  listen_once_whole :
      (iface : Interface) (bytes : List ℕ)
      → iface.up ≡ true
      → length bytes ≤ 1400
      → listen_once iface bytes ≡ some bytes
  unfolding listen_once link_layer_listen
  listen_once_whole iface bytes up size = rw (up, take-length 1400 bytes size) refl

  relay-Carries :
      (fuel now ttl : ℕ) (rs : List (Interface × IpStack)) (bytes : List ℕ)
      → Encodable (at_ttl 0)
      → length message ≤ 1380
      → AllPass fuel rs
      → length rs < ttl
      → ttl < 2 ^ 8
      → ((t : ℕ) → t < ttl → Nonzero t)
      → Carries ttl bytes
      → (bytes' : List ℕ) × (relay lib fuel now rs bytes ≡ some bytes')
        × Carries (ttl - length rs) bytes'
  unfolding relay
  relay-Carries fuel now ttl [] bytes e fits ps few small nz c =
      (bytes, refl, subst (λ t. Carries t bytes) (omega arith) c)
  relay-Carries fuel now zero ((iface, r) ∷ rs) bytes e fits ps few small nz c =
      absurd (omega arith)
  relay-Carries fuel now (suc ttl) ((iface, r) ∷ rs) bytes e fits ps few small nz c =
      let whole = listen_once_whole iface bytes ps.0 (omega (arith, c.0, fits)) in
      let h =
        hop fuel now ttl r bytes e ps.1 (omega arith) (omega arith) (nz ttl (omega arith)) c in
      let o = >>=-eq-some (run_ip_layer lib fuel now bytes r) (λ out. only_sent out.1) h.1 in
      let later =
        relay-Carries fuel now ttl rs h.0 e fits ps.2 (omega arith) (omega arith)
          (λ t lt. nz t (omega arith)) h.2 in
      let left : ttl - length rs ≡ suc ttl - length ((iface, r) ∷ rs) = omega arith in
      (later.0, rw (whole, o.1, o.2) (later.1), subst (λ t. Carries t later.0) left later.2)

  -- A packet with a message of at most 1380 bytes, for a host behind at most 31 routers, sent by a host
  -- whose interface has the source address. When the look-ups of the sender and of each router find a
  -- known neighbour on an interface that is up, no router has the destination address or filters the
  -- packet, its fields fit, its checksum is 0 at no TTL up to 32, and the interfaces on which the routers
  -- and the destination hear are up, then SendIP sends one datagram, each router sends one for the one
  -- that its LinkLayerListen has taken, and the last one makes the destination call its handler with the
  -- source, the message and a TTL that is one less for each router.
  pub send_ip-relay :
      (fuel now : ℕ) (a b : IpStack) (rs : List (Interface × IpStack)) (iface iface_b : Interface)
      (n : Neighbour) (handler : Handler)
      → Encodable (at_ttl 0)
      → length message ≤ 1380
      → iface_b.up ≡ true
      → OnLink fuel dest a iface n
      → iface.ip ≡ source
      → AllPass fuel rs
      → length rs < 32
      → ((t : ℕ) → t ≤ 32 → Nonzero t)
      → Hears dest proto b handler
      → (bytes : List ℕ) × (bytes' : List ℕ) × (c : ℕ) × (send_ip lib fuel dest message proto a
          ≡ some (done (sent n.udp_addr bytes ∷ [])))
        × (relay lib fuel now rs bytes ≡ some bytes')
        × ((listen_once iface_b bytes' >>= λ msg_bytes. run_ip_layer lib fuel now msg_bytes b)
            ≡ deliver lib now
                (record (at_ttl (32 - length rs)) { checksum = c })
                message
                b
                (some handler))
  unfolding serialize_packet run_ip_layer ip_forwarding
  send_ip-relay fuel now a b rs iface iface_b n handler e fits up l same ps few nz d =
      let first = serialized 32 e (omega arith) (omega arith) (nz 32 (omega arith)) in
      let later =
        relay-Carries fuel now 32 rs first.0 e fits ps few (omega arith)
          (λ t lt. nz t (omega arith)) first.2 in
      (
        first.0,
        later.0,
        later.2.1,
        send_ip_bytes lib fuel dest message proto a iface n first.0 l
            (ap (λ x. serialize_packet lib x dest message proto 0 true) same ∙ first.1),
        later.1,
        rw
            (
              listen_once_whole iface_b later.0 up (omega (arith, later.2.0, fits)),
              later.2.2,
              d.own,
              d.registered,
            )
            refl,
      )
