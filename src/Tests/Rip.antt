-- ===== src/Tests/Rip.antt =====
-- RIP on the small router.
use mini_tls.Ip.Forward.{dotted, set_up}
use mini_tls.Ip.Init.{local_entry, register_recv_handler}
use mini_tls.Ip.Match.{longest_prefix_match}
use mini_tls.Ip.Packet.{serialize_packet}
use mini_tls.Ip.Packet.Checksum.{word_sum}
use mini_tls.Ip.Prefix.{cidr_mask}
use mini_tls.Ip.Router.{hears, more_steps, no_step, registers, switches}
use mini_tls.Ip.Router.Keeps.{Kept}
use mini_tls.Ip.Router.Reach.{init_ip_stack-Kept}
use mini_tls.Ip.Table.{insert, lookup, map_values, prefix_key, string_key, nat_key}
use mini_tls.Ip.Types.{Effect, IpStack, RipEntry, infinity, link_layer_send, to_rip}
use mini_tls.Prelude.{
  ◌≡◌, refl, ap, inl, inr, true, false, none, some, List, [], ◌∷◌, ◌++◌, arith, ◌==◌, if◌then◌else◌,
  All,
}
use mini_tls.Rip.Messages.{
  deserialize_rip_message, marshal, marshal_entries, marshal_entry, rip_request, rip_response,
}
use mini_tls.Rip.Messages.Roundtrip.{deserialize-marshal}
use mini_tls.Rip.Send.{
  response, send_each, send_periodic_update, send_rip_message, send_triggered_update,
}
use mini_tls.Rip.Send.Horizon.{Sendable}
use mini_tls.Rip.Send.Periodic.{UpdateSent, send_periodic_update-UpdateSent}
use mini_tls.Rip.Send.Total.{HasAddresses}
use mini_tls.Rip.Update.{check_for_timeouts, expire, expired_entries, handle_entry}
use mini_tls.Rip.Update.Faults.{
  AllShort, Understated, handle_entry-Understated, handle_entry_self_route, host,
}
use mini_tls.Rip.Update.Timeouts.{Announced, Checked, check_for_timeouts-Checked}
use mini_tls.Tests.Ip.{
  bigger, config, far, heard, if0, if1, learned_far, listening_router, net1, net2, offer,
  offer_packet, peer, router, router-IsReady, started,
}
use mini_tls.Tests.Ipv4.{ipv4, ipv4-IsSound}

abbrev down_router : IpStack
down_router = record {
  interfaces = ("if0", if0) ∷ ("if1", record if1 { up = false }) ∷ [];
  forwarding_table = bigger.forwarding_table;
  rip_info = router.rip_info;
  recv_handlers = (200, to_rip) ∷ [];
}

switched :
    set_up "if1" false (record bigger { recv_handlers = (200, to_rip) ∷ [] }) ≡ some down_router
unfolding set_up lookup insert
switched = refl

registered : register_recv_handler 200 to_rip router ≡ listening_router
unfolding register_recv_handler insert
registered = refl

init_ip_stack-Kept_example : Kept router down_router
init_ip_stack-Kept_example =
    init_ip_stack-Kept ipv4 (λ a. true) config router down_router started
      (more_steps
        (more_steps (more_steps no_step (registers 200 to_rip registered))
          (hears 2 100 offer_packet heard.0 heard.1))
        (switches "if1" false switched))

-- The learned route is not heard of for 12 seconds.
abbrev after_timeout : IpStack
after_timeout = record bigger {
  forwarding_table =
      (net1, local_entry if0)
      ∷ (net2, local_entry if1)
      ∷ (far, record learned_far { cost = infinity })
      ∷ [];
}

aged :
    (effects : List Effect) × (check_for_timeouts ipv4 12100 bigger ≡ some (after_timeout, effects))
unfolding check_for_timeouts expired_entries expire map_values send_triggered_update send_each
    send_rip_message serialize_packet marshal marshal_entries marshal_entry cidr_mask lookup
    link_layer_send word_sum
aged = (_, refl)

check_for_timeouts-Checked_example :
    (told : List RipEntry) × Checked 12100 bigger after_timeout told
    × Announced ipv4 after_timeout told aged.0
check_for_timeouts-Checked_example = check_for_timeouts-Checked ipv4 12100 bigger _ aged.0 aged.1

handle_entry_self_route_example :
    longest_prefix_match 1000
      (handle_entry peer 100 (record { cost = 1; prefix = host peer }) router.forwarding_table).0
      (some peer)
    ≡ none
unfolding lookup
handle_entry_self_route_example =
    handle_entry_self_route peer 100 1 1000 router.forwarding_table (omega arith)
      router-IsReady.unique short refl
  where
    short : AllShort router.forwarding_table
    short q f (inl r) = omega (arith, ap (λ p. p.bits) r.0)
    short q f (inr (inl r)) = omega (arith, ap (λ p. p.bits) r.0)
    short q f (inr (inr r)) = elim r [ ]

handle_entry-Understated_example :
    Understated peer
      (dotted 10 1 0 1)
      100
      (record { cost = 2; prefix = far })
      router.forwarding_table
      []
unfolding lookup
handle_entry-Understated_example =
    handle_entry-Understated peer (dotted 10 1 0 1) 100 (record { cost = 2; prefix = far })
      router.forwarding_table [] (omega arith) refl refl

deserialize-marshal_example :
    deserialize_rip_message (marshal (response offer) ++ 7 ∷ [])
    ≡ some (record (response offer) {
      num_entries = 0;
      entries = if rip_response == rip_request then [] else offer;
    })
deserialize-marshal_example =
    deserialize-marshal (response offer) (7 ∷ []) (omega arith) (omega arith)
      (record { cost = omega arith; addr = omega arith; bits = omega arith }, tt)

addresses : HasAddresses bigger
unfolding lookup
addresses = record { interfaces = λ name iface h. ground (arith, h); routers = (omega arith, tt) }

sendable : Sendable bigger.forwarding_table
sendable p e (inl r) =
    omega (arith, ap (λ x. x.cost) r.1, ap (λ x. x.prefix.addr) r.1, ap (λ x. x.prefix.bits) r.1)
sendable p e (inr (inl r)) =
    omega (arith, ap (λ x. x.cost) r.1, ap (λ x. x.prefix.addr) r.1, ap (λ x. x.prefix.bits) r.1)
sendable p e (inr (inr (inl r))) =
    omega (arith, ap (λ x. x.cost) r.1, ap (λ x. x.prefix.addr) r.1, ap (λ x. x.prefix.bits) r.1)
sendable p e (inr (inr (inr r))) = elim r [ ]

send_periodic_update-UpdateSent_example :
    (effects : List Effect) × (send_periodic_update ipv4 bigger ≡ some effects)
    × All (UpdateSent ipv4 bigger) effects
send_periodic_update-UpdateSent_example =
    send_periodic_update-UpdateSent ipv4 bigger ipv4-IsSound router-IsReady.reachable addresses
      sendable (omega arith)
