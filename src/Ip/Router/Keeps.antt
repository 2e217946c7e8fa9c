-- ===== src/Ip/Router/Keeps.antt =====
-- What every step keeps.
use mini_tls.Ip.Init.Ready.{IsReady}
use mini_tls.Ip.Packet.{IpLib}
use mini_tls.Ip.Prefix.{Prefix, same_prefix}
use mini_tls.Ip.Table.{lookup, prefix_key, string_key, nat_key}
use mini_tls.Ip.Table.Rows.{Unique, insert-Unique}
use mini_tls.Ip.Types.{Effect, FwdEntry, IpStack, RipEntry, RipMessage, local, static}
use mini_tls.Prelude.{
  ℕ, ◌≡◌, refl, ap, ◌∙◌, subst, ◌⊎◌, inl, inr, Option, none, some, List, [], ◌∷◌, arith, ◌==◌,
  ◌>>=◌, Bool-cases, Option-cases, >>=-eq-some, some_pair,
}
use mini_tls.Rip.Messages.{deserialize_rip_message, rip_request}
use mini_tls.Rip.Send.{send_periodic_update}
use mini_tls.Rip.Update.{
  Change, apply_change, handle_entries, handle_entry, handle_rip_message, kept, refreshed, replaced,
  take_rip_message, tell,
}
use mini_tls.Rip.Update.Timeouts.{tell_lem}
use mini_tls.Rip.Update.Vector.{handle_entries-relax_all, relax, relax_all, relax_by}

-- A row that was not learned.
abbrev pub Fixed : FwdEntry → Type 0
Fixed e = (e.source ≡ local) ⊎ (e.source ≡ static)

-- The stack stays ready, and keeps the rows that were not learned and its RIP neighbours.
pub record Kept (stack stack' : IpStack) : Type 0 where
  pub ready : IsReady stack'
  pub rows :
      (p : Prefix) (e : FwdEntry)
      → Fixed e
      → lookup p stack.forwarding_table ≡ some e
      → lookup p stack'.forwarding_table ≡ some e
  pub rip_info : stack'.rip_info ≡ stack.rip_info

pub Kept-refl : (stack : IpStack) → IsReady stack → Kept stack stack
Kept-refl stack r = record { ready = r; rows = λ p e f h. h; rip_info = refl }

relax-Fixed : (src now : ℕ) (r : RipEntry) (e : FwdEntry) → Fixed e → relax src now r (some e) ≡ e
relax-Fixed src now r e (inl s) = ap (λ x. relax_by x src now r e) s
relax-Fixed src now r e (inr s) = ap (λ x. relax_by x src now r e) s

relax_all-Fixed :
    (src now : ℕ) (q : Prefix) (rs : List RipEntry) (e : FwdEntry)
    → Fixed e
    → relax_all src now q rs (some e) ≡ some e
unfolding relax_all
relax_all-Fixed src now q [] e f = refl
relax_all-Fixed src now q (r ∷ rs) e f = elim (Bool-cases (same_prefix q r.prefix)) [
  | inl same ↦ rw same (
      ap (λ x. relax_all src now q rs (some x)) (relax-Fixed src now r e f)
      ∙ relax_all-Fixed src now q rs e f)
  | inr other ↦ rw other (relax_all-Fixed src now q rs e f)
]

apply_change-Unique :
    (src now : ℕ) (r : RipEntry) (o : Option FwdEntry) (c : Change) (t : List (Prefix × FwdEntry))
    → Unique t
    → Unique (apply_change src now r o c t).0
apply_change-Unique src now r o (replaced cost) t u = insert-Unique r.prefix _ t u
apply_change-Unique src now r none refreshed t u = u
apply_change-Unique src now r (some e) refreshed t u = insert-Unique r.prefix _ t u
apply_change-Unique src now r o kept t u = u

handle_entries-Unique :
    (src now : ℕ) (rs : List RipEntry) (t : List (Prefix × FwdEntry))
    → Unique t
    → Unique (handle_entries src now rs t).0
unfolding handle_entries handle_entry
handle_entries-Unique src now [] t u = u
handle_entries-Unique src now (r ∷ rs) t u =
    handle_entries-Unique src now rs (handle_entry src now r t).0
      (apply_change-Unique src now r (lookup r.prefix t) _ t u)

-- The table that a message leaves.
handled-Kept :
    (src now : ℕ) (rs : List RipEntry) (stack : IpStack)
    → IsReady stack
    → Kept stack
        (record stack { forwarding_table = (handle_entries src now rs stack.forwarding_table).0 })
handled-Kept src now rs stack v =
    let r = handle_entries-relax_all src now rs stack.forwarding_table v.table in
    record {
      ready = record {
        table = r.1;
        unique = handle_entries-Unique src now rs stack.forwarding_table v.unique;
        reachable = v.reachable;
      };
      rows = λ p e f h. r.0 p ∙ ap (relax_all src now p rs) h ∙ relax_all-Fixed src now p rs e f;
      rip_info = refl;
    }

take_rip_message-Kept :
    (lib : IpLib) (src now : ℕ) (m : RipMessage) (stack stack' : IpStack) (effects : List Effect)
    → IsReady stack
    → take_rip_message lib src now m stack ≡ some (stack', effects)
    → Kept stack stack'
unfolding take_rip_message
take_rip_message-Kept lib src now m stack stack' effects v h =
    elim (Bool-cases (m.command == rip_request)) [
      | inl request ↦
          let h' : (send_periodic_update lib stack >>= λ sent_now. some (stack, sent_now))
              ≡ some (stack', effects) =
            ground (arith, h, request) in
          let b =
            >>=-eq-some (send_periodic_update lib stack) (λ sent_now. some (stack, sent_now)) h' in
          let same = some_pair stack b.0 (stack', effects) b.2 in
          subst (Kept stack) same.0 (Kept-refl stack v)
      | inr response_in ↦
          let r = handle_entries src now m.entries stack.forwarding_table in
          let after = record stack { forwarding_table = r.0 } in
          let h' : tell lib after r.1 ≡ some (stack', effects) = ground (arith, h, response_in) in
          let told = tell_lem lib after stack' r.1 effects h' in
          subst (Kept stack) told.0 (handled-Kept src now m.entries stack v)
    ]

pub handle_rip_message-Kept :
    (lib : IpLib) (src now : ℕ) (bytes : List ℕ) (stack stack' : IpStack) (effects : List Effect)
    → IsReady stack
    → handle_rip_message lib src now bytes stack ≡ some (stack', effects)
    → Kept stack stack'
unfolding handle_rip_message
handle_rip_message-Kept lib src now bytes stack stack' effects v h =
    elim (Option-cases (deserialize_rip_message bytes)) [
      | inl bad ↦
          let same = some_pair stack [] (stack', effects) (rw (bad, handle_rip_message) at h) in
          subst (Kept stack) same.0 (Kept-refl stack v)
      | inr (m, good) ↦
          take_rip_message-Kept lib src now m stack stack' effects v
            (rw (good, handle_rip_message) at h)
    ]
