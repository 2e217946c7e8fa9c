-- ===== src/Ip/Forward/Sent.antt =====
-- What `ipForwarding` sends on.
use mini_tls.Ip.Forward.{
  forward, forward_by, forward_match, forward_to, ip_forwarding, is_own, neighbour_at, schlaraffian,
  src_filter, xt_streaming, ycom,
}
use mini_tls.Ip.Match.{Match, found, longest_prefix_match, not_found}
use mini_tls.Ip.Match.Resolve.{Resolves, longest_prefix_match-Resolves}
use mini_tls.Ip.Packet.{IpLib, serialize_packet}
use mini_tls.Ip.Table.{lookup, prefix_key, string_key, nat_key}
use mini_tls.Ip.Types.{
  Effect, FwdEntry, Interface, IpStack, Ipv4Header, Neighbour, SourceType, infinity,
  link_layer_send, local, rip, sent, static,
}
use mini_tls.Prelude.{
  ℕ, ◌-◌, ◌<◌, ◌≡◌, refl, sym, ap, ◌∙◌, ◌⊎◌, inl, inr, true, false, Option, none, some, List, [],
  ◌∷◌, arith, leb, ◌==◌, ◌>>=◌, Bool-cases, >>=-eq-some, some_pair,
}

-- The packet that goes out, and the conditions under which it does.
pub record Forwarded (lib : IpLib) (stack : IpStack) (hdr : Ipv4Header) (message : List ℕ)
    (effects : List Effect) : Type 0 where
  pub alive : 1 < hdr.ttl
  pub entry : FwdEntry
  pub next : ℕ
  pub route : Resolves stack.forwarding_table (some hdr.dst) (found entry next)
  pub online : entry.cost < infinity
  pub attached : entry.source ≡ local
  pub iface : Interface
  pub out : lookup entry.interface_name stack.interfaces ≡ some iface
  pub is_up : iface.up ≡ true
  pub neighbour : Neighbour
  pub known : lookup next iface.neighbours ≡ some neighbour
  pub bytes : List ℕ
  pub packet :
      serialize_packet lib hdr.src hdr.dst message hdr.protocol (hdr.ttl - 1) false ≡ some bytes
  pub one : effects ≡ sent neighbour.udp_addr bytes ∷ []

-- The end of the way, at a neighbour of an interface.
record Out (lib : IpLib) (hdr : Ipv4Header) (message : List ℕ) (o : Interface × Option Neighbour)
    (effects : List Effect) : Type 0 where
  is_up : o.0.up ≡ true
  neighbour : Neighbour
  known : o.1 ≡ some neighbour
  bytes : List ℕ
  packet : serialize_packet lib hdr.src hdr.dst message hdr.protocol hdr.ttl false ≡ some bytes
  one : effects ≡ sent neighbour.udp_addr bytes ∷ []

module _ (lib : IpLib) where
  forward_to_lem :
      (hdr : Ipv4Header) (message : List ℕ) (o : Interface × Option Neighbour)
      (effects : List Effect)
      → forward_to lib hdr message o ≡ some effects
      → (effects ≡ []) ⊎ Out lib hdr message o effects
  unfolding link_layer_send
  forward_to_lem hdr message (iface, none) effects h = inl (cc)
  forward_to_lem hdr message (iface, some n) effects h = elim (Bool-cases iface.up) [
    | inr down ↦ inl (ground (arith, h, down))
    | inl up ↦
        let sending : Option (List Effect) =
          (serialize_packet lib hdr.src hdr.dst message hdr.protocol hdr.ttl false >>= λ bytes.
          some (link_layer_send iface n.udp_addr bytes)) in
        let h' : sending ≡ some effects = ground (arith, h, up) in
        let b =
          >>=-eq-some (serialize_packet lib hdr.src hdr.dst message hdr.protocol hdr.ttl false)
            (λ bytes. some (link_layer_send iface n.udp_addr bytes)) h' in
        inr (record {
          is_up = up;
          neighbour = n;
          known = refl;
          bytes = b.0;
          packet = b.1;
          one = ground (arith, b.2, up);
        })
  ]

  -- At an entry that was found.
  Way :
      (stack : IpStack) (hdr : Ipv4Header) (message : List ℕ) (effects : List Effect) (e : FwdEntry)
      (next : ℕ)
      → Type 0
  Way stack hdr message effects e next =
      (effects ≡ [])
      ⊎ ((e.source ≡ local)
          × (o : Interface × Option Neighbour) × (neighbour_at stack e.interface_name next ≡ some o)
          × Out lib hdr message o effects)

  forward_by_lem :
      (s : SourceType) (stack : IpStack) (hdr : Ipv4Header) (message : List ℕ) (e : FwdEntry)
      (next : ℕ) (effects : List Effect)
      → e.source ≡ s
      → forward_by lib s stack hdr message e next ≡ some effects
      → Way stack hdr message effects e next
  unfolding Way
  forward_by_lem rip stack hdr message e next effects s h = inl (cc)
  forward_by_lem static stack hdr message e next effects s h = inl (cc)
  forward_by_lem local stack hdr message e next effects s h =
      let b =
        >>=-eq-some (neighbour_at stack e.interface_name next) (forward_to lib hdr message) h in
      elim (forward_to_lem hdr message b.0 effects b.2) [
        | inl nothing ↦ inl nothing
        | inr out ↦ inr (s, b.0, b.1, out)
      ]

  -- At the answer of the look-up, for the header as it came in.
  matched_lem :
      (stack : IpStack) (hdr : Ipv4Header) (message : List ℕ) (effects : List Effect) (m : Match)
      → 1 < hdr.ttl
      → Resolves stack.forwarding_table (some hdr.dst) m
      → forward_match lib stack (record hdr { ttl = hdr.ttl - 1 }) message m ≡ some effects
      → (effects ≡ []) ⊎ Forwarded lib stack hdr message effects
  unfolding Way neighbour_at
  matched_lem stack hdr message effects not_found alive r h = inl (cc)
  matched_lem stack hdr message effects (found e next) alive r h =
      elim (Bool-cases (leb infinity e.cost)) [
        | inl down ↦ inl (ground (arith, h, down))
        | inr up ↦
            let hdr' = record hdr { ttl = hdr.ttl - 1 } in
            let h' : forward_by lib e.source stack hdr' message e next ≡ some effects =
              ground (arith, h, up) in
            elim (forward_by_lem e.source stack hdr' message e next effects refl h') [
              | inl nothing ↦ inl nothing
              | inr (source, o, at_name, out) ↦
                  let b =
                    >>=-eq-some (lookup e.interface_name stack.interfaces)
                      (λ iface. some (iface, lookup next iface.neighbours)) at_name in
                  let same = some_pair b.0 (lookup next b.0.neighbours) o b.2 in
                  inr (record {
                    alive = alive;
                    entry = e;
                    next = next;
                    route = r;
                    online = ground arith;
                    attached = source;
                    iface = b.0;
                    out = b.1;
                    is_up = ap (λ x. x.up) same.0 ∙ out.is_up;
                    neighbour = out.neighbour;
                    known = same.1 ∙ out.known;
                    bytes = out.bytes;
                    packet = out.packet;
                    one = out.one;
                  })
            ]
      ]

  forwarded :
      (fuel : ℕ) (stack : IpStack) (hdr : Ipv4Header) (message : List ℕ) (effects : List Effect)
      → forward lib fuel hdr message stack ≡ some effects
      → (effects ≡ []) ⊎ Forwarded lib stack hdr message effects
  unfolding forward
  forwarded fuel stack hdr message effects h = elim (Bool-cases (hdr.ttl - 1 == 0)) [
    | inl expired ↦ inl (ground (arith, h, expired))
    | inr alive ↦
        let table = stack.forwarding_table in
        let found_it : (longest_prefix_match fuel table (some hdr.dst)
              >>= forward_match lib stack (record hdr { ttl = hdr.ttl - 1 }) message)
            ≡ some effects =
          ground (arith, h, alive) in
        let b =
          >>=-eq-some (longest_prefix_match fuel table (some hdr.dst))
            (forward_match lib stack (record hdr { ttl = hdr.ttl - 1 }) message) found_it in
        matched_lem stack hdr message effects b.0 (ground arith)
          (longest_prefix_match-Resolves fuel table (some hdr.dst) b.0 b.1) b.2
  ]

  -- A packet that is not for one of the interfaces leaves the stack as it is. If it is sent on, then
  -- once, with its source, destination, protocol and message and a TTL that is one less and not 0, to
  -- the known neighbour that its destination resolves to, by a local route that is online, on an
  -- interface that is up, and the packet is not between two sides that the filters keep apart.
  pub ip_forwarding-Forwarded :
      (fuel now : ℕ) (hdr : Ipv4Header) (message : List ℕ) (stack stack' : IpStack)
      (effects : List Effect)
      → is_own hdr.dst stack.interfaces ≡ false
      → ip_forwarding lib fuel now hdr message stack ≡ some (stack', effects)
      → (stack' ≡ stack)
        × ((effects ≡ [])
            ⊎ ((src_filter hdr schlaraffian ycom ≡ false)
                × (src_filter hdr schlaraffian xt_streaming ≡ false)
                × Forwarded lib stack hdr message effects))
  unfolding ip_forwarding
  ip_forwarding-Forwarded fuel now hdr message stack stack' effects own h =
      elim (Bool-cases (src_filter hdr schlaraffian ycom)) [
        | inl f ↦ (ground (arith, h, own, f), inl (ground (arith, h, own, f)))
        | inr f ↦ elim (Bool-cases (src_filter hdr schlaraffian xt_streaming)) [
          | inl g ↦ (ground (arith, h, own, f, g), inl (ground (arith, h, own, f, g)))
          | inr g ↦
              let h' : (forward lib fuel hdr message stack >>= λ effects. some (stack, effects))
                  ≡ some (stack', effects) =
                ground (arith, h, own, f, g) in
              let b =
                >>=-eq-some (forward lib fuel hdr message stack) (λ effects. some (stack, effects))
                  h' in
              let same = some_pair stack b.0 (stack', effects) b.2 in
              (
                sym same.0,
                elim (forwarded fuel stack hdr message effects (b.1 ∙ ap some same.1)) [
                  | inl nothing ↦ inl nothing
                  | inr way ↦ inr (f, g, way)
                ],
              )
        ]
      ]
