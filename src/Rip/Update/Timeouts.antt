-- ===== src/Rip/Update/Timeouts.antt =====
-- `CheckForTimeouts`: which routes go down.
use mini_tls.Ip.Packet.{IpLib}
use mini_tls.Ip.Prefix.{Prefix, same_prefix, same_prefix→eq}
use mini_tls.Ip.Table.{lookup, lookup-map_values, map_values, prefix_key, string_key, nat_key}
use mini_tls.Ip.Types.{
  Effect, FwdEntry, IpStack, RipEntry, SourceType, infinity, local, rip, static,
}
use mini_tls.Prelude.{
  ℕ, ◌+◌, ◌≤◌, ◌<◌, ◌≡◌, refl, sym, ap, ◌∙◌, subst, ◌⊎◌, inl, inr, true, false, ◌&&◌, some, List,
  [], ◌∷◌, arith, ltb, leb, ◌>>=◌, Bool-cases, >>=-eq-some, some_pair,
}
use mini_tls.Rip.Messages.{Told}
use mini_tls.Rip.Send.{send_triggered_update}
use mini_tls.Rip.Update.{check_for_timeouts, expire, expired_entries, tell, timed_out, timed_out_by}

-- A learned row that is up, and as old as the timeout.
pub record IsOverdue (now timeout : ℕ) (e : FwdEntry) : Type 0 where
  pub learned : e.source ≡ rip
  pub late : e.last_updated + timeout ≤ now
  pub was_up : e.cost < infinity

-- The table behind a check, and the entries that go out.
pub record Checked (now : ℕ) (stack stack' : IpStack) (told : List RipEntry) : Type 0 where
  -- No learned route that is older than the timeout is up.
  pub down :
      (q : Prefix) (e : FwdEntry)
      → lookup q stack'.forwarding_table ≡ some e
      → e.source ≡ rip
      → e.last_updated + stack.rip_info.rip_timeout ≤ now
      → infinity ≤ e.cost
  -- A learned row that is up and as old as the timeout changes its cost to infinity, and is told; any
  -- other row stays.
  pub rows :
      (q : Prefix) (e : FwdEntry)
      → lookup q stack.forwarding_table ≡ some e
      → (lookup q stack'.forwarding_table ≡ some e)
        ⊎ (IsOverdue now stack.rip_info.rip_timeout e
            × (lookup q stack'.forwarding_table ≡ some (record e { cost = infinity }))
            × Told (record { cost = infinity; prefix = q }) told)
  pub interfaces : stack'.interfaces ≡ stack.interfaces
  pub rip_info : stack'.rip_info ≡ stack.rip_info

expire_cases :
    (now timeout : ℕ) (e : FwdEntry)
    → ((timed_out now timeout e ≡ true) × (expire now timeout e ≡ record e { cost = infinity }))
      ⊎ ((timed_out now timeout e ≡ false) × (expire now timeout e ≡ e))
unfolding expire
expire_cases now timeout e = elim (Bool-cases (timed_out now timeout e)) [
  | inl old ↦ inl (old, rw old refl)
  | inr new ↦ inr (new, rw new refl)
]

-- The test by the kind of the row.
timed_out_rip :
    (now timeout : ℕ) (e : FwdEntry)
    → e.source ≡ rip
    → timed_out now timeout e ≡ (leb (e.last_updated + timeout) now && ltb e.cost infinity)
timed_out_rip now timeout e s = ap (λ x. timed_out_by x now timeout e) s

timed_out_by-IsOverdue :
    (s : SourceType) (now timeout : ℕ) (e : FwdEntry)
    → e.source ≡ s
    → timed_out_by s now timeout e ≡ true
    → IsOverdue now timeout e
timed_out_by-IsOverdue rip now timeout e s h = record {
  learned = s;
  late = ground (arith, h);
  was_up = ground (arith, h);
}
timed_out_by-IsOverdue local now timeout e s h = cc
timed_out_by-IsOverdue static now timeout e s h = cc

timed_out-IsOverdue :
    (now timeout : ℕ) (e : FwdEntry) → timed_out now timeout e ≡ true → IsOverdue now timeout e
timed_out-IsOverdue now timeout e h = timed_out_by-IsOverdue e.source now timeout e refl h

Told-if :
    (now timeout : ℕ) (q : Prefix) (e : FwdEntry) (t : List (Prefix × FwdEntry))
    → lookup q t ≡ some e
    → timed_out now timeout e ≡ true
    → Told (record { cost = infinity; prefix = q }) (expired_entries now timeout t)
unfolding lookup expired_entries
Told-if now timeout q e [] h old = cc
Told-if now timeout q e ((p, f) ∷ t) h old = elim (Bool-cases (same_prefix q p)) [
  | inl same ↦
      let here : f ≡ e = ground (arith, h, same) in
      rw (subst (λ x. timed_out now timeout x ≡ true) (sym here) old)
        (inl (ap (λ x. record { cost = infinity; prefix = x }) (same_prefix→eq q p same)))
  | inr other ↦
      let rest = Told-if now timeout q e t (ground (arith, h, other)) old in
      elim (Bool-cases (timed_out now timeout f)) [
        | inl more ↦ rw more (inr rest)
        | inr skip ↦ rw skip rest
      ]
]

still_up :
    (now timeout : ℕ) (e : FwdEntry)
    → e.source ≡ rip
    → e.last_updated + timeout ≤ now
    → timed_out now timeout e ≡ false
    → infinity ≤ e.cost
still_up now timeout e s late up = ground (arith, sym (timed_out_rip now timeout e s) ∙ up)

expired_down :
    (now timeout : ℕ) (e e' : FwdEntry)
    → expire now timeout e ≡ e'
    → e'.source ≡ rip
    → e'.last_updated + timeout ≤ now
    → infinity ≤ e'.cost
expired_down now timeout e e' h s late = elim (expire_cases now timeout e) [
  | inl (old, new) ↦ omega (arith, ap (λ x. x.cost) (sym new ∙ h))
  | inr (up, new) ↦
      still_up now timeout e' s late (subst (λ x. timed_out now timeout x ≡ false) (sym new ∙ h) up)
]

-- The table is changed by `expire` row by row, and the entries that go out are the expired ones.
checked :
    (now : ℕ) (stack : IpStack)
    → let timeout = stack.rip_info.rip_timeout in
      let t = map_values (expire now timeout) stack.forwarding_table in
      Checked now stack
        (record stack { forwarding_table = t })
        (expired_entries now timeout stack.forwarding_table)
checked now stack =
    let timeout = stack.rip_info.rip_timeout in
    let t = stack.forwarding_table in
    record {
      down = λ q e h source late.
          let b =
            >>=-eq-some (lookup q t) (λ v. some (expire now timeout v))
              (sym (lookup-map_values q (expire now timeout) t) ∙ h) in
          expired_down now timeout b.0 e (cc (b.2)) source late;
      rows = λ q e h.
          let row : lookup q (map_values (expire now timeout) t) ≡ some (expire now timeout e) =
            lookup-map_values q (expire now timeout) t
            ∙ ap (λ o. o >>= λ v. some (expire now timeout v)) h in
          elim (expire_cases now timeout e) [
            | inl (old, new) ↦ inr (
              timed_out-IsOverdue now timeout e old,
              row ∙ ap some new,
              Told-if now timeout q e t h old,
            )
            | inr (up, new) ↦ inl (row ∙ ap some new)
          ];
      interfaces = refl;
      rip_info = refl;
    }

-- The entries go out to every neighbour, if there are any.
abbrev pub Announced : IpLib → IpStack → List RipEntry → List Effect → Type 0
Announced lib stack told effects =
    (told ≡ []) × (effects ≡ []) ⊎ (send_triggered_update lib stack told ≡ some effects)

pub tell_lem :
    (lib : IpLib) (stack stack' : IpStack) (told : List RipEntry) (effects : List Effect)
    → tell lib stack told ≡ some (stack', effects)
    → (stack ≡ stack') × Announced lib stack' told effects
tell_lem lib stack stack' [] effects h =
    let same = some_pair stack [] (stack', effects) h in (same.0, inl (refl, sym same.1))
tell_lem lib stack stack' (r ∷ rs) effects h =
    let b =
      >>=-eq-some (send_triggered_update lib stack (r ∷ rs)) (λ sent_now. some (stack, sent_now))
        h in
    let same = some_pair stack b.0 (stack', effects) b.2 in
    (
      same.0,
      inr (ap (λ s. send_triggered_update lib s (r ∷ rs)) (sym same.0) ∙ b.1 ∙ ap some same.1),
    )

-- A check that does not panic leaves no learned route up that is as old as the timeout. The rows that it
-- changes are learned, were up and are as old as that; all others stay. It tells all neighbours of each
-- route that it takes down.
pub check_for_timeouts-Checked :
    (lib : IpLib) (now : ℕ) (stack stack' : IpStack) (effects : List Effect)
    → check_for_timeouts lib now stack ≡ some (stack', effects)
    → (told : List RipEntry) × Checked now stack stack' told × Announced lib stack' told effects
unfolding check_for_timeouts
check_for_timeouts-Checked lib now stack stack' effects h =
    let told = expired_entries now stack.rip_info.rip_timeout stack.forwarding_table in
    let r = tell_lem lib _ stack' told effects h in
    (told, subst (λ s. Checked now stack s told) r.0 (checked now stack), r.1)
