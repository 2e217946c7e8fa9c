-- ===== src/Rip/Update.antt =====
-- What changes the forwarding table: `HandleRipMessage`, with `UpdateForwardingTable` of ipStack.go,
-- and `CheckForTimeouts`. The time is an argument.
pub mod Vector
pub mod Timeouts
pub mod Faults
use mini_tls.Ip.Packet.{IpLib}
use mini_tls.Ip.Prefix.{Prefix}
use mini_tls.Ip.Table.{insert, lookup, map_values, prefix_key, string_key, nat_key}
use mini_tls.Ip.Types.{Effect, FwdEntry, IpStack, RipEntry, RipMessage, SourceType, infinity, rip}
use mini_tls.Prelude.{
  ℕ, ◌+◌, Bool, false, ◌&&◌, Option, none, some, List, [], ◌∷◌, ◌++◌, ltb, leb, ◌==◌, if◌then◌else◌,
  ◌>>=◌,
}
use mini_tls.Rip.Messages.{deserialize_rip_message, rip_request}
use mini_tls.Rip.Send.{send_periodic_update, send_triggered_update}

-- The row that `UpdateForwardingTable` puts in, for a message from `src`.
abbrev pub learned : ℕ → ℕ → RipEntry → ℕ → FwdEntry
learned src now rip_entry cost = record {
  prefix = rip_entry.prefix;
  next_hop = some src;
  interface_name = "";
  source = rip;
  cost = cost;
  last_updated = now;
}

-- `UpdateForwardingTable`
abbrev pub update_forwarding_table :
    ℕ → ℕ → RipEntry → ℕ → List (Prefix × FwdEntry) → List (Prefix × FwdEntry)
update_forwarding_table src now rip_entry cost t =
    insert rip_entry.prefix (learned src now rip_entry cost) t

-- The cost by way of the sender: one more, up to infinity.
abbrev pub cost_via : RipEntry → ℕ
cost_via rip_entry = if ltb rip_entry.cost infinity then rip_entry.cost + 1 else infinity

-- `hdr.Src == currFwdEntry.NextHop`
abbrev pub next_hop_is : ℕ → FwdEntry → Bool
next_hop_is src e = elim e.next_hop [ none ↦ false | some hop ↦ src == hop ]

-- What an entry of a message does to the table.
pub data Change : Type 0 where
  -- A new row, which is told on.
  replaced : ℕ → Change
  refreshed kept : Change

-- The tests of the loop on the row that the table has.
abbrev pub change_of_rip : ℕ → RipEntry → FwdEntry → Change
change_of_rip src rip_entry curr =
    let cost = cost_via rip_entry in
    if ltb cost curr.cost
    then replaced cost
    else if ltb curr.cost cost && next_hop_is src curr
    then replaced cost
    else if cost == curr.cost && next_hop_is src curr
    then refreshed
    else kept

-- A row that was not learned is left alone.
abbrev pub change_by : SourceType → ℕ → RipEntry → FwdEntry → Change
change_by rip src rip_entry curr = change_of_rip src rip_entry curr
change_by _ src rip_entry curr = kept

abbrev pub change : ℕ → RipEntry → Option FwdEntry → Change
change src rip_entry none = replaced (cost_via rip_entry)
change src rip_entry (some curr) = change_by curr.source src rip_entry curr

-- `currFwdEntry.LastUpdated = time.Now()`
abbrev pub refresh :
    ℕ → Prefix → Option FwdEntry → List (Prefix × FwdEntry) → List (Prefix × FwdEntry)
refresh now p none t = t
refresh now p (some curr) t = insert p (record curr { last_updated = now }) t

-- The change is made, and a new route is told on.
abbrev pub apply_change :
    ℕ
    → ℕ
    → RipEntry
    → Option FwdEntry
    → Change
    → List (Prefix × FwdEntry)
    → List (Prefix × FwdEntry) × List RipEntry
apply_change src now rip_entry curr (replaced cost) t =
    (update_forwarding_table src now rip_entry cost t, rip_entry ∷ [])
apply_change src now rip_entry curr refreshed t = (refresh now rip_entry.prefix curr t, [])
apply_change src now rip_entry curr kept t = (t, [])

-- A round of the loop, with the entry if it has changed the table.
unfoldable pub handle_entry :
    ℕ → ℕ → RipEntry → List (Prefix × FwdEntry) → List (Prefix × FwdEntry) × List RipEntry
handle_entry src now rip_entry t =
    let curr = lookup rip_entry.prefix t in
    apply_change src now rip_entry curr (change src rip_entry curr) t

unfoldable pub handle_entries :
    ℕ → ℕ → List RipEntry → List (Prefix × FwdEntry) → List (Prefix × FwdEntry) × List RipEntry
handle_entries src now [] t = (t, [])
handle_entries src now (e ∷ es) t =
    let first = handle_entry src now e t in
    let others = handle_entries src now es first.0 in (others.0, first.1 ++ others.1)

-- A row in `CheckForTimeouts`: only a learned one can time out, and only once.
abbrev pub timed_out_by : SourceType → ℕ → ℕ → FwdEntry → Bool
timed_out_by rip now timeout e = leb (e.last_updated + timeout) now && ltb e.cost infinity
timed_out_by _ now timeout e = false

abbrev pub timed_out : ℕ → ℕ → FwdEntry → Bool
timed_out now timeout e = timed_out_by e.source now timeout e

unfoldable pub expire : ℕ → ℕ → FwdEntry → FwdEntry
expire now timeout e = if timed_out now timeout e then record e { cost = infinity } else e

unfoldable pub expired_entries : ℕ → ℕ → List (Prefix × FwdEntry) → List RipEntry
expired_entries now timeout [] = []
expired_entries now timeout ((p, e) ∷ t) =
    let rest = expired_entries now timeout t in
    if timed_out now timeout e then record { cost = infinity; prefix = p } ∷ rest else rest

module _ (lib : IpLib) where
  -- An update goes out if something has changed.
  abbrev pub tell : IpStack → List RipEntry → Option (IpStack × List Effect)
  tell stack [] = some (stack, [])
  tell stack (e ∷ es) =
      send_triggered_update lib stack (e ∷ es) >>= λ effects. some (stack, effects)

  -- The part of `HandleRipMessage` behind the decoding.
  unfoldable pub take_rip_message : ℕ → ℕ → RipMessage → IpStack → Option (IpStack × List Effect)
  take_rip_message src now message stack =
      let r = handle_entries src now message.entries stack.forwarding_table in
      if message.command == rip_request
      then (send_periodic_update lib stack >>= λ effects. some (stack, effects))
      else tell (record stack { forwarding_table = r.0 }) r.1

  -- `HandleRipMessage`. What cannot be decoded is dropped.
  unfoldable pub handle_rip_message : ℕ → ℕ → List ℕ → IpStack → Option (IpStack × List Effect)
  handle_rip_message src now bytes stack = elim (deserialize_rip_message bytes) [
    | none ↦ some (stack, [])
    | some message ↦ take_rip_message src now message stack
  ]

  -- `CheckForTimeouts`; the update is sent by a goroutine of its own.
  unfoldable pub check_for_timeouts : ℕ → IpStack → Option (IpStack × List Effect)
  check_for_timeouts now stack =
      let timeout = stack.rip_info.rip_timeout in
      let t = map_values (expire now timeout) stack.forwarding_table in
      tell (record stack { forwarding_table = t })
        (expired_entries now timeout stack.forwarding_table)
