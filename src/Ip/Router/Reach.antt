-- ===== src/Ip/Router/Reach.antt =====
-- Every step keeps a stack ready, and so does any sequence of steps.
use mini_tls.Ip.Config.{IpConfig}
use mini_tls.Ip.Forward.{deliver, ip_forwarding, is_own, run_ip_layer, set_up, take_parsed}
use mini_tls.Ip.Forward.Sent.{ip_forwarding-Forwarded}
use mini_tls.Ip.Init.{init_ip_stack, ready, register_recv_handler}
use mini_tls.Ip.Init.Interfaces.{Reachable}
use mini_tls.Ip.Init.Ready.{IsReady, init_ip_stack-IsReady}
use mini_tls.Ip.Packet.{IpLib, Parsed, deserialize_and_validate_packet, dropped, malformed, packet}
use mini_tls.Ip.Prefix.{Prefix}
use mini_tls.Ip.Router.{Step, Steps, checks, hears, more_steps, no_step, registers, switches}
use mini_tls.Ip.Router.Keeps.{Fixed, Kept, Kept-refl, handle_rip_message-Kept}
use mini_tls.Ip.Table.{
  insert, lookup, lookup-insert, lookup-map_values, map_values, str_eq→eq, prefix_key, string_key,
  nat_key,
}
use mini_tls.Ip.Table.Rows.{map_values-Holds, map_values-Unique}
use mini_tls.Ip.Types.{
  AddrPort, Effect, FwdEntry, Handler, Interface, IpStack, Ipv4Header, RipNeighbour, delivered,
  to_rip, to_tcp, to_test,
}
use mini_tls.Prelude.{
  String, str_eq, ℕ, ◌≡◌, refl, sym, ap, ◌∙◌, subst, inl, inr, Bool, Option, none, some, List, [],
  ◌∷◌, arith, ◌>>=◌, Bool-cases, >>=-eq-some, some_pair, All,
}
use mini_tls.Rip.Update.{check_for_timeouts, expire, timed_out, timed_out_by}
use mini_tls.Rip.Update.Timeouts.{tell_lem}
use mini_tls.Rip.Update.Vector.{IsRow}

-- Only the handler of RIP changes the stack.
deliver-Kept :
    (lib : IpLib) (now : ℕ) (hdr : Ipv4Header) (message : List ℕ) (stack stack' : IpStack)
    (effects : List Effect) (handler : Option Handler)
    → IsReady stack
    → deliver lib now hdr message stack handler ≡ some (stack', effects)
    → Kept stack stack'
deliver-Kept lib now hdr message stack stack' effects none v h =
    subst (Kept stack) (some_pair stack [] (stack', effects) h).0 (Kept-refl stack v)
deliver-Kept lib now hdr message stack stack' effects (some to_rip) v h =
    handle_rip_message-Kept lib hdr.src now message stack stack' effects v h
deliver-Kept lib now hdr message stack stack' effects (some to_tcp) v h =
    subst (Kept stack) (some_pair stack (delivered to_tcp hdr message ∷ []) (stack', effects) h).0
      (Kept-refl stack v)
deliver-Kept lib now hdr message stack stack' effects (some to_test) v h =
    subst (Kept stack) (some_pair stack (delivered to_test hdr message ∷ []) (stack', effects) h).0
      (Kept-refl stack v)

ip_forwarding-Kept :
    (lib : IpLib) (fuel now : ℕ) (hdr : Ipv4Header) (message : List ℕ) (stack stack' : IpStack)
    (effects : List Effect)
    → IsReady stack
    → ip_forwarding lib fuel now hdr message stack ≡ some (stack', effects)
    → Kept stack stack'
unfolding ip_forwarding
ip_forwarding-Kept lib fuel now hdr message stack stack' effects v h =
    elim (Bool-cases (is_own hdr.dst stack.interfaces)) [
      | inl own ↦
          deliver-Kept lib now hdr message stack stack' effects
            (lookup hdr.protocol stack.recv_handlers) v (ground (arith, h, own))
      | inr other ↦
          let r = ip_forwarding-Forwarded lib fuel now hdr message stack stack' effects other h in
          subst (Kept stack) (sym r.0) (Kept-refl stack v)
    ]

take_parsed-Kept :
    (lib : IpLib) (fuel now : ℕ) (p : Parsed) (stack stack' : IpStack) (effects : List Effect)
    → IsReady stack
    → take_parsed lib fuel now stack p ≡ some (stack', effects)
    → Kept stack stack'
take_parsed-Kept lib fuel now malformed stack stack' effects v h =
    subst (Kept stack) (some_pair stack [] (stack', effects) h).0 (Kept-refl stack v)
take_parsed-Kept lib fuel now dropped stack stack' effects v h = cc
take_parsed-Kept lib fuel now (packet message hdr) stack stack' effects v h =
    ip_forwarding-Kept lib fuel now hdr message stack stack' effects v h

run_ip_layer-Kept :
    (lib : IpLib) (fuel now : ℕ) (msg_bytes : List ℕ) (stack stack' : IpStack)
    (effects : List Effect)
    → IsReady stack
    → run_ip_layer lib fuel now msg_bytes stack ≡ some (stack', effects)
    → Kept stack stack'
unfolding run_ip_layer
run_ip_layer-Kept lib fuel now msg_bytes stack stack' effects v h =
    let b =
      >>=-eq-some (deserialize_and_validate_packet lib msg_bytes) (take_parsed lib fuel now stack)
        h in
    take_parsed-Kept lib fuel now b.0 stack stack' effects v b.2

-- An interface that goes up or down keeps its neighbours.
switched-Reachable :
    (name : String) (up : Bool) (iface : Interface) (m : List (String × Interface))
    (n : RipNeighbour)
    → lookup name m ≡ some iface
    → Reachable m n
    → Reachable (insert name (record iface { up = up }) m) n
switched-Reachable name up iface m n h (old, dest, at_name, known) =
    elim (Bool-cases (str_eq n.interface_name name)) [
      | inl same ↦
          let e : old ≡ iface = cc (at_name, h, str_eq→eq n.interface_name name same) in
          (
            record iface { up = up },
            dest,
            lookup-insert name n.interface_name _ m ∙ rw same refl,
            ap (λ x. lookup n.router_ip x.neighbours) (sym e) ∙ known,
          )
      | inr other ↦ (old, dest, lookup-insert name n.interface_name _ m ∙ rw other at_name, known)
    ]

All-switched :
    (name : String) (up : Bool) (iface : Interface) (m : List (String × Interface))
    (ns : List RipNeighbour)
    → lookup name m ≡ some iface
    → All (Reachable m) ns
    → All (Reachable (insert name (record iface { up = up }) m)) ns
All-switched name up iface m [] h v = tt
All-switched name up iface m (n ∷ ns) h v =
    (switched-Reachable name up iface m n h v.0, All-switched name up iface m ns h v.1)

expire-Fixed : (now timeout : ℕ) (e : FwdEntry) → Fixed e → expire now timeout e ≡ e
unfolding expire
expire-Fixed now timeout e (inl s) = rw (ap (λ x. timed_out_by x now timeout e) s) refl
expire-Fixed now timeout e (inr s) = rw (ap (λ x. timed_out_by x now timeout e) s) refl

expire-IsRow :
    (now timeout : ℕ) (p : Prefix) (e : FwdEntry) → IsRow p e → IsRow p (expire now timeout e)
unfolding expire
expire-IsRow now timeout p e v = elim (Bool-cases (timed_out now timeout e)) [
  | inl old ↦ rw old (record { prefix = v.prefix; cost = omega arith; learned_row = v.learned_row })
  | inr new ↦ rw new v
]

checked-Kept :
    (now : ℕ) (stack : IpStack)
    → IsReady stack
    → Kept stack (record stack {
      forwarding_table = map_values (expire now stack.rip_info.rip_timeout) stack.forwarding_table;
    })
checked-Kept now stack v =
    let f = expire now stack.rip_info.rip_timeout in
    let t = stack.forwarding_table in
    record {
      ready = record {
        table = map_values-Holds IsRow f t (expire-IsRow now stack.rip_info.rip_timeout) v.table;
        unique = map_values-Unique f t v.unique;
        reachable = v.reachable;
      };
      rows = λ p e fixed h.
          lookup-map_values p f t
          ∙ ap (λ o. o >>= λ x. some (f x)) h
          ∙ ap some (expire-Fixed now stack.rip_info.rip_timeout e fixed);
      rip_info = refl;
    }

Step-Kept :
    (lib : IpLib) (stack stack' : IpStack)
    → Step lib stack stack'
    → IsReady stack
    → Kept stack stack'
unfolding check_for_timeouts set_up register_recv_handler
Step-Kept lib stack stack' (hears fuel now msg_bytes effects h) v =
    run_ip_layer-Kept lib fuel now msg_bytes stack stack' effects v h
Step-Kept lib stack stack' (checks now effects h) v =
    let told = tell_lem lib _ stack' _ effects h in
    subst (Kept stack) told.0 (checked-Kept now stack v)
Step-Kept lib stack stack' (switches name up h) v =
    let set = λ (iface : Interface). record stack {
      interfaces = insert name (record iface { up = up }) stack.interfaces;
    } in
    let b = >>=-eq-some (lookup name stack.interfaces) (λ iface. some (set iface)) h in
    let e : set b.0 ≡ stack' = cc (b.2) in
    subst (Kept stack) e (record {
      ready = record {
        table = v.table;
        unique = v.unique;
        reachable =
            All-switched name up b.0 stack.interfaces stack.rip_info.neighbors b.1 v.reachable;
      };
      rows = λ p x f at_p. at_p;
      rip_info = refl;
    })
Step-Kept lib stack stack' (registers proto_num handler h) v = subst (Kept stack) h (record {
  ready = record { table = v.table; unique = v.unique; reachable = v.reachable };
  rows = λ p x f at_p. at_p;
  rip_info = refl;
})

Steps-Kept :
    (lib : IpLib) (stack stack' : IpStack)
    → IsReady stack
    → Steps lib stack stack'
    → Kept stack stack'
Steps-Kept lib stack stack' v no_step = Kept-refl stack v
Steps-Kept lib stack stack' v (more_steps {stack = mid} steps step) =
    let before = Steps-Kept lib stack mid v steps in
    let after = Step-Kept lib mid stack' step before.ready in
    record {
      ready = after.ready;
      rows = λ p e f h. after.rows p e f (before.rows p e f h);
      rip_info = after.rip_info ∙ before.rip_info;
    }

-- A stack that comes of a configuration is ready, and stays so in any sequence of packets that arrive,
-- checks for timeouts, switched interfaces and registered handlers: its forwarding table has one row
-- for a prefix, each with its own prefix and a cost of at most infinity, a learned one has a next hop
-- and no interface, and each RIP neighbour is known on its interface. Rows that were not learned stay
-- as they are.
pub init_ip_stack-Kept :
    (lib : IpLib) (listens : AddrPort → Bool) (config : IpConfig) (stack stack' : IpStack)
    → init_ip_stack listens config ≡ some (ready stack)
    → Steps lib stack stack'
    → Kept stack stack'
init_ip_stack-Kept lib listens config stack stack' h steps =
    Steps-Kept lib stack stack' (init_ip_stack-IsReady listens config stack h) steps
