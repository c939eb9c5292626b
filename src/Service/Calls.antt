-- ===== src/Service/Calls.antt =====
-- Sequences of calls of `OrderService` on the in-memory repository, and the invariant over them.
use innoprog_fastapi_deliver.Prelude.{
  ℕ, String, ◌≡◌, refl, true, Option, none, some, arith, ok, err, inl, inr, number_eq, text_eq,
  ◌!=◌, Result, Option-cases, Bool-cases,
}
use innoprog_fastapi_deliver.Runtime.{Runtime}
use innoprog_fastapi_deliver.Dict
use innoprog_fastapi_deliver.Status.{assigned, allows}
use innoprog_fastapi_deliver.Errors.{Error, order_not_found}
use innoprog_fastapi_deliver.Domain
use innoprog_fastapi_deliver.Domain.{DeliveryOrder}
use innoprog_fastapi_deliver.Domain.Details.{update_details-IsEdit}
use innoprog_fastapi_deliver.Commands.{
  CreateOrderCommand, UpdateOrderCommand, TransitionOrderCommand, changes,
}
use innoprog_fastapi_deliver.Events.{from_order}
use innoprog_fastapi_deliver.Repository
use innoprog_fastapi_deliver.Repository.{Memory, empty, memory_repository, publish}
use innoprog_fastapi_deliver.Repository.Invariant.{IsConsistent, empty-IsConsistent}
use innoprog_fastapi_deliver.Repository.Writes.{
  stored, moved, given_to, stored-IsConsistent, published-IsConsistent, added-IsConsistent,
  announced-IsConsistent, remembered-IsConsistent,
}
use innoprog_fastapi_deliver.Repository.Exclusive.{claim-IsConsistent}
use innoprog_fastapi_deliver.Service
use innoprog_fastapi_deliver.Service.{Fresh, usable, fingerprint, request_scope}
use innoprog_fastapi_deliver.Service.Creation.{
  Answer, placed, new_order, remembered, answered, create_keyed_lem, create_unkeyed_lem,
}
use innoprog_fastapi_deliver.Service.Optimistic.{
  moved_event, given_event, kept, transition_lem, update_lem, assign_lem,
}

-- A call of a use case that may write.
pub data Call : Type 0 where
  create : Fresh → CreateOrderCommand → Option String → ℕ → Call
  assign : Fresh → ℕ → ℕ → Call
  claim_next : Fresh → ℕ → ℕ → String → Call
  update : ℕ → UpdateOrderCommand → ℕ → Call
  transition : Fresh → ℕ → TransitionOrderCommand → Call

-- The state after a call, whether it returns or raises.
unfoldable pub after : Runtime → Call → Memory → Memory
after py (create fresh c key tenant) s =
    (Service.create py (memory_repository py) fresh c key tenant s).1
after py (assign fresh i courier) s = (Service.assign py (memory_repository py) fresh i courier s).1
after py (claim_next fresh courier tenant correlation) s =
    (Service.claim_next py (memory_repository py) fresh courier tenant correlation s).1
after py (update i c v) s = (Service.update py (memory_repository py) i c v s).1
after py (transition fresh i c) s = (Service.transition py (memory_repository py) fresh i c s).1

-- `uuid4()` gives a new order an identifier that is not in use.
abbrev pub IsFresh : Call → Memory → Type 0
IsFresh (create fresh _ _ _) s = Dict.get fresh.order_id s.orders ≡ none
IsFresh _ s = Unit

-- The states that calls lead to, from the repository as it is made.
pub data Reached (py : Runtime) : Memory → Type 0 where
  start : Reached py empty
  call : {s : Memory} (c : Call) → Reached py s → IsFresh c s → Reached py (after py c s)

module _ (py : Runtime) where
  pub missing_transition :
      (fresh : Fresh) (i : ℕ) (c : TransitionOrderCommand) (s : Memory)
      → Dict.get i s.orders ≡ none
      → Service.transition py (memory_repository py) fresh i c s ≡ (err (order_not_found i), s)
  unfolding Service.transition Repository.get
  missing_transition fresh i c s h = ground arith

  pub missing_update :
      (i : ℕ) (c : UpdateOrderCommand) (v : ℕ) (s : Memory)
      → Dict.get i s.orders ≡ none
      → Service.update py (memory_repository py) i c v s ≡ (err (order_not_found i), s)
  unfolding Service.update Repository.get
  missing_update i c v s h = ground arith

  pub missing_assign :
      (fresh : Fresh) (i courier : ℕ) (s : Memory)
      → Dict.get i s.orders ≡ none
      → Service.assign py (memory_repository py) fresh i courier s ≡ (err (order_not_found i), s)
  unfolding Service.assign Repository.get
  missing_assign fresh i courier s h = ground arith

module _ (py : Runtime) (s : Memory) (h : IsConsistent py s) where
  moved-IsConsistent :
      (fresh : Fresh) (c : TransitionOrderCommand) {i : ℕ} (current : DeliveryOrder)
      → current.id ≡ i
      → Dict.get i s.orders ≡ some current
      → allows current.status c.target ≡ true
      → IsConsistent py
          (publish py (moved_event fresh current c) (stored (moved current c.target) s))
  moved-IsConsistent fresh c {i} current keyed found legal =
      published-IsConsistent current (moved current c.target) s (moved_event fresh current c)
        (ground arith)
        (record {
          id = refl;
          tenant_id = refl;
          grows = omega arith;
          weight = ground (arith, h.weights i current found);
        })
        (omega arith)
        (record {
          order_id = refl;
          version = refl;
          tenant_id = refl;
          leaves = refl;
          enters = refl;
          legal = legal;
        })
        h

  transition-IsConsistent :
      (fresh : Fresh) (i : ℕ) (c : TransitionOrderCommand)
      → IsConsistent py (Service.transition py (memory_repository py) fresh i c s).1
  transition-IsConsistent fresh i c = elim (Option-cases (Dict.get i s.orders)) [
    | inl none_there ↦ rw (missing_transition py fresh i c s none_there) h
    | inr (current, found) ↦
        let keyed = h.keyed i current found in
        elim (Bool-cases (current.version != c.expected_version)) [
          | inl stale ↦ rw (transition_lem py fresh i c s current found keyed, stale) h
          | inr timely ↦ elim (Bool-cases (allows current.status c.target)) [
            | inl legal ↦
                rw (transition_lem py fresh i c s current found keyed, timely, legal)
                  (moved-IsConsistent fresh c current keyed found legal)
            | inr forbidden ↦
                rw (transition_lem py fresh i c s current found keyed, timely, forbidden) h
          ]
        ]
  ]

  assign-IsConsistent :
      (fresh : Fresh) (i courier : ℕ)
      → IsConsistent py (Service.assign py (memory_repository py) fresh i courier s).1
  assign-IsConsistent fresh i courier = elim (Option-cases (Dict.get i s.orders)) [
    | inl none_there ↦ rw (missing_assign py fresh i courier s none_there) h
    | inr (current, found) ↦
        let keyed = h.keyed i current found in
        elim (Bool-cases (allows current.status assigned)) [
          | inl legal ↦
              rw (assign_lem py fresh i courier s current found keyed, legal)
                (published-IsConsistent current (given_to current courier) s
                  (given_event fresh current courier) (ground arith)
                  (record {
                    id = refl;
                    tenant_id = refl;
                    grows = omega arith;
                    weight = ground (arith, h.weights i current found);
                  })
                  (omega arith)
                  (record {
                    order_id = refl;
                    version = refl;
                    tenant_id = refl;
                    leaves = refl;
                    enters = refl;
                    legal = legal;
                  })
                  h)
          | inr forbidden ↦ rw (assign_lem py fresh i courier s current found keyed, forbidden) h
        ]
  ]

  kept-IsConsistent :
      {i : ℕ} (c : UpdateOrderCommand) (current : DeliveryOrder)
      → current.id ≡ i
      → Dict.get i s.orders ≡ some current
      → (r : Result Error DeliveryOrder) → Domain.update_details py current (changes c) ≡ r
      → IsConsistent py (kept s r).1
  kept-IsConsistent c current keyed found (ok updated) e =
      let edit = update_details-IsEdit py current (changes c) e in
      stored-IsConsistent current updated s (ground (arith, edit.identity.id))
        (record {
          id = edit.identity.id;
          tenant_id = edit.identity.tenant_id;
          grows = omega (arith, edit.version);
          weight = edit.weight;
        })
        edit.progress.status h
  kept-IsConsistent c current keyed found (err _) e = h

  update-IsConsistent :
      (i : ℕ) (c : UpdateOrderCommand) (v : ℕ)
      → IsConsistent py (Service.update py (memory_repository py) i c v s).1
  update-IsConsistent i c v = elim (Option-cases (Dict.get i s.orders)) [
    | inl none_there ↦ rw (missing_update py i c v s none_there) h
    | inr (current, found) ↦
        let keyed = h.keyed i current found in
        elim (Bool-cases (current.version != v)) [
          | inl stale ↦ rw (update_lem py i c v s current found keyed, stale) h
          | inr timely ↦
              rw (update_lem py i c v s current found keyed, timely)
                (kept-IsConsistent c current keyed found
                  (Domain.update_details py current (changes c)) refl)
        ]
  ]

  placed-IsConsistent :
      (fresh : Fresh) (c : CreateOrderCommand) (tenant : ℕ)
      → Dict.get fresh.order_id s.orders ≡ none
      → (r : Result Error DeliveryOrder) → new_order fresh c tenant ≡ r
      → IsConsistent py (placed py fresh.event_id s r).1
  unfolding Domain.create
  placed-IsConsistent fresh c tenant unused (ok order) e =
      announced-IsConsistent (from_order fresh.event_id order) (stored order s)
        (added-IsConsistent order s (ground arith) (ground arith) (ground arith) h)
  placed-IsConsistent fresh c tenant unused (err _) e = h

  remembered-keeps :
      (scope print : String) (a : Answer)
      → IsConsistent py a.1
      → IsConsistent py (remembered scope print a).1
  remembered-keeps scope print (ok order, s') c =
      remembered-IsConsistent (Dict.put scope (print, order) s'.idempotency) s' c
  remembered-keeps scope print (err _, s') c = c

  answered-IsConsistent :
      (fresh : Fresh) (c : CreateOrderCommand) (tenant : ℕ) (scope : String)
      → Dict.get fresh.order_id s.orders ≡ none
      → (saved : Option (String × DeliveryOrder))
      → IsConsistent py (answered py fresh c tenant scope s saved).1
  answered-IsConsistent fresh c tenant scope unused none =
      remembered-keeps scope (fingerprint py c)
        (placed py fresh.event_id s (new_order fresh c tenant))
        (placed-IsConsistent fresh c tenant unused (new_order fresh c tenant) refl)
  answered-IsConsistent fresh c tenant scope unused (some (print, snapshot)) =
      elim (Bool-cases (print != fingerprint py c)) [
        | inl other ↦ rw other h
        | inr agrees ↦ rw agrees h
      ]

  create-IsConsistent :
      (fresh : Fresh) (c : CreateOrderCommand) (key : Option String) (tenant : ℕ)
      → Dict.get fresh.order_id s.orders ≡ none
      → IsConsistent py (Service.create py (memory_repository py) fresh c key tenant s).1
  create-IsConsistent fresh c key tenant unused = elim (Option-cases (usable key)) [
    | inl no_key ↦
        rw (create_unkeyed_lem py fresh c key tenant s no_key)
          (placed-IsConsistent fresh c tenant unused (new_order fresh c tenant) refl)
    | inr (k, keyed) ↦ rw (create_keyed_lem py fresh c key k tenant s keyed) (
        answered-IsConsistent fresh c tenant (request_scope py tenant c.customer_id k) unused
          (Dict.get (request_scope py tenant c.customer_id k) s.idempotency))
  ]

  claim_next-IsConsistent :
      (fresh : Fresh) (courier tenant : ℕ) (correlation : String)
      → IsConsistent py
          (Service.claim_next py (memory_repository py) fresh courier tenant correlation s).1
  unfolding Service.claim_next
  claim_next-IsConsistent fresh courier tenant correlation = claim-IsConsistent _ s h

-- Every call keeps the invariant, whether it returns or raises.
pub after-IsConsistent :
    (py : Runtime) (c : Call) (s : Memory)
    → IsFresh c s
    → IsConsistent py s
    → IsConsistent py (after py c s)
unfolding after
after-IsConsistent py (create fresh c key tenant) s unused h =
    create-IsConsistent py s h fresh c key tenant unused
after-IsConsistent py (assign fresh i courier) s _ h = assign-IsConsistent py s h fresh i courier
after-IsConsistent py (claim_next fresh courier tenant correlation) s _ h =
    claim_next-IsConsistent py s h fresh courier tenant correlation
after-IsConsistent py (update i c v) s _ h = update-IsConsistent py s h i c v
after-IsConsistent py (transition fresh i c) s _ h = transition-IsConsistent py s h fresh i c

-- In every state that calls of the use cases lead to, failing ones included: each order is stored
-- under its identifier with a weight of 1 to 100000; each event of the history is a transition of
-- the diagram, about a stored order of the same tenant that has reached the event's version; no two
-- events of one order have the same version and they stand in the order of the versions; the events
-- of each stored order lead from `created` to the status the order has, each from the status where the
-- one before it ended; and the
-- `order.status_changed` messages of the outbox are the payloads of the history, in its order.
pub Reached-IsConsistent : {py : Runtime} {s : Memory} → Reached py s → IsConsistent py s
Reached-IsConsistent {py} start = empty-IsConsistent py
Reached-IsConsistent {py} (call {s} c r fresh) =
    after-IsConsistent py c s fresh (Reached-IsConsistent r)

-- The states that further calls lead to.
pub data Later (py : Runtime) (s : Memory) : Memory → Type 0 where
  same : Later py s s
  next : {t : Memory} (c : Call) → Later py s t → IsFresh c t → Later py s (after py c t)

pub Later-Reached : {py : Runtime} {s t : Memory} → Reached py s → Later py s t → Reached py t
Later-Reached r same = r
Later-Reached r (next c l fresh) = call c (Later-Reached r l) fresh

pub Later-IsConsistent :
    {py : Runtime} {s t : Memory} → IsConsistent py s → Later py s t → IsConsistent py t
Later-IsConsistent h same = h
Later-IsConsistent {py} h (next {t} c l fresh) =
    after-IsConsistent py c t fresh (Later-IsConsistent h l)
