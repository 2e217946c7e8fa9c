-- ===== src/Rip/Send/Horizon.antt =====
-- Split horizon with poisoned reverse.
use mini_tls.Ip.Prefix.{Prefix}
use mini_tls.Ip.Table.Rows.{Row}
use mini_tls.Ip.Types.{FwdEntry, RipEntry, RipMessage, infinity}
use mini_tls.Prelude.{
  ℕ, suc, ◌^◌, ◌≤◌, ◌<◌, ◌≡◌, refl, sym, ap, ◌∙◌, inl, inr, true, false, some, List, [], ◌∷◌,
  append-nil, arith, Bool-cases, length, All,
}
use mini_tls.Rip.Messages.{Told, deserialize_rip_message, marshal, rip_response}
use mini_tls.Rip.Messages.Roundtrip.{Fits, deserialize-marshal}
use mini_tls.Rip.Send.{learned_from, response, route_to_send, routes_to_send}

-- What a router is told that is not of cost infinity.
abbrev pub Honest : ℕ → List (Prefix × FwdEntry) → RipEntry → Type 0
Honest router_ip t r =
    r.cost < infinity
    → (p : Prefix) × (e : FwdEntry) × Row p e t
      × (r.prefix ≡ e.prefix)
      × (r.cost ≡ e.cost)
      × (learned_from e.source e.next_hop router_ip ≡ false)

route-Honest :
    (router_ip : ℕ) (p : Prefix) (e : FwdEntry) (t : List (Prefix × FwdEntry))
    → Row p e t
    → Honest router_ip t (route_to_send router_ip e)
unfolding route_to_send
route-Honest router_ip p e t row up =
    elim (Bool-cases (learned_from e.source e.next_hop router_ip)) [
      | inl poisoned ↦ absurd (ground (arith, poisoned, up))
      | inr free ↦ (p, e, row, refl, rw free refl, free)
    ]

routes-Honest :
    (router_ip : ℕ) (t whole : List (Prefix × FwdEntry))
    → ((p : Prefix) (e : FwdEntry) → Row p e t → Row p e whole)
    → All (Honest router_ip whole) (routes_to_send router_ip t)
unfolding routes_to_send
routes-Honest router_ip [] whole sub = tt
routes-Honest router_ip ((p, e) ∷ t) whole sub = (
  route-Honest router_ip p e whole (sub p e (inl (refl, refl))),
  routes-Honest router_ip t whole (λ q f r. sub q f (inr r)),
)

-- The rows of the table have fields that fit into a message.
abbrev pub Sendable : List (Prefix × FwdEntry) → Type 0
Sendable t =
    (p : Prefix) (e : FwdEntry)
    → Row p e t
    → (e.cost < 256 ^ 4) × (e.prefix.addr < 256 ^ 4) × (e.prefix.bits ≤ 32)

route-Fits :
    (router_ip : ℕ) (e : FwdEntry)
    → (e.cost < 256 ^ 4) × (e.prefix.addr < 256 ^ 4) × (e.prefix.bits ≤ 32)
    → Fits (route_to_send router_ip e)
unfolding route_to_send
route-Fits router_ip e (c, a, b) = record { cost = ground (arith, c); addr = a; bits = b }

routes-Fits :
    (router_ip : ℕ) (t : List (Prefix × FwdEntry))
    → Sendable t
    → All Fits (routes_to_send router_ip t)
unfolding routes_to_send
routes-Fits router_ip [] v = tt
routes-Fits router_ip ((p, e) ∷ t) v = (
  route-Fits router_ip e (v p e (inl (refl, refl))),
  routes-Fits router_ip t (λ q f r. v q f (inr r)),
)

pub length-routes :
    (router_ip : ℕ) (t : List (Prefix × FwdEntry)) → length (routes_to_send router_ip t) ≡ length t
unfolding routes_to_send
length-routes router_ip [] = refl
length-routes router_ip ((p, e) ∷ t) = ap suc (length-routes router_ip t)

routes_poisoned :
    (router_ip : ℕ) (p : Prefix) (e : FwdEntry) (t : List (Prefix × FwdEntry))
    → Row p e t
    → learned_from e.source e.next_hop router_ip ≡ true
    → Told (record { cost = infinity; prefix = e.prefix }) (routes_to_send router_ip t)
unfolding routes_to_send route_to_send
routes_poisoned router_ip p e [] r l = elim r [ ]
routes_poisoned router_ip p e ((q, f) ∷ t) (inl (_, same)) l = inl (ground (arith, l, same))
routes_poisoned router_ip p e ((q, f) ∷ t) (inr r) l = inr (routes_poisoned router_ip p e t r l)

-- What a router reads in the message that is made for it.
pub record Poisoned (router_ip : ℕ) (t : List (Prefix × FwdEntry)) (bytes : List ℕ) : Type 0 where
  pub message : RipMessage
  pub decodes : deserialize_rip_message bytes ≡ some message
  pub is_response : message.command ≡ rip_response
  pub honest : All (Honest router_ip t) message.entries
  pub poisoned :
      (p : Prefix) (e : FwdEntry)
      → Row p e t
      → learned_from e.source e.next_hop router_ip ≡ true
      → Told (record { cost = infinity; prefix = e.prefix }) message.entries

pub response-Poisoned :
    (router_ip : ℕ) (t : List (Prefix × FwdEntry))
    → Sendable t
    → length t < 2 ^ 16
    → Poisoned router_ip t (marshal (response (routes_to_send router_ip t)))
response-Poisoned router_ip t v small =
    let m = response (routes_to_send router_ip t) in
    let whole =
      deserialize-marshal m [] (omega arith) (omega (arith, length-routes router_ip t))
        (routes-Fits router_ip t v) in
    record {
      message = record m { num_entries = 0 };
      decodes = ap deserialize_rip_message (sym (append-nil (marshal m))) ∙ whole;
      is_response = refl;
      honest = routes-Honest router_ip t t (λ p e r. r);
      poisoned = λ p e. routes_poisoned router_ip p e t;
    }
