-- ===== src/Service/Advancing.antt =====
-- Every call of `OrderService` moves the stored orders onward.
use innoprog_fastapi_deliver.Prelude.{
  ℕ, String, ◌≡◌, refl, Option, none, some, arith, ok, err, inl, inr, number_eq, text_eq, ◌!=◌,
  Result, Option-cases, Bool-cases,
}
use innoprog_fastapi_deliver.Runtime.{Runtime}
use innoprog_fastapi_deliver.Dict
use innoprog_fastapi_deliver.Dict.{Dict, get-put}
use innoprog_fastapi_deliver.Status.{assigned, allows}
use innoprog_fastapi_deliver.Errors.{Error}
use innoprog_fastapi_deliver.Domain
use innoprog_fastapi_deliver.Domain.{DeliveryOrder}
use innoprog_fastapi_deliver.Domain.Details.{update_details-IsEdit}
use innoprog_fastapi_deliver.Commands.{
  CreateOrderCommand, UpdateOrderCommand, TransitionOrderCommand, changes,
}
use innoprog_fastapi_deliver.Ports.{Claim}
use innoprog_fastapi_deliver.Repository.{Memory, memory_repository, claim_next_created_order}
use innoprog_fastapi_deliver.Repository.Invariant.{IsConsistent, stored_of_Among}
use innoprog_fastapi_deliver.Repository.Writes.{moved, given_to}
use innoprog_fastapi_deliver.Repository.Claims.{
  Answers, Claimed, nothing, handed_over, claim_takes_oldest,
}
use innoprog_fastapi_deliver.Service
use innoprog_fastapi_deliver.Service.{Fresh, usable, fingerprint, request_scope}
use innoprog_fastapi_deliver.Service.Creation.{
  Answer, placed, new_order, remembered, answered, create_keyed_lem, create_unkeyed_lem,
}
use innoprog_fastapi_deliver.Service.Optimistic.{kept, transition_lem, update_lem, assign_lem}
use innoprog_fastapi_deliver.Service.Calls.{
  Call, create, assign, claim_next, update, transition, after, IsFresh, Later, same, next,
  Later-IsConsistent, missing_transition, missing_update, missing_assign,
}
use innoprog_fastapi_deliver.Service.Onward.{
  Onward-then, Advances, advances, Advances-at, Advances-refl, put-Advances, add-Advances,
  assigned_from_created, moved-Onward, given_to-Onward,
}

module _ (py : Runtime) (s : Memory) (h : IsConsistent py s) where
  transition-Advances :
      (fresh : Fresh) (i : ℕ) (c : TransitionOrderCommand)
      → Advances s.orders (Service.transition py (memory_repository py) fresh i c s).1.orders
  transition-Advances fresh i c = elim (Option-cases (Dict.get i s.orders)) [
    | inl none_there ↦ rw (missing_transition py fresh i c s none_there) (Advances-refl s.orders)
    | inr (current, found) ↦
        let keyed = h.keyed i current found in
        elim (Bool-cases (current.version != c.expected_version)) [
          | inl stale ↦
              rw (transition_lem py fresh i c s current found keyed, stale) (Advances-refl s.orders)
          | inr timely ↦ elim (Bool-cases (allows current.status c.target)) [
            | inl legal ↦
                rw (transition_lem py fresh i c s current found keyed, timely, legal)
                  (put-Advances current (moved current c.target) s.orders (ground arith)
                    (moved-Onward current c.target legal))
            | inr forbidden ↦
                rw (transition_lem py fresh i c s current found keyed, timely, forbidden)
                  (Advances-refl s.orders)
          ]
        ]
  ]

  assign-Advances :
      (fresh : Fresh) (i courier : ℕ)
      → Advances s.orders (Service.assign py (memory_repository py) fresh i courier s).1.orders
  assign-Advances fresh i courier = elim (Option-cases (Dict.get i s.orders)) [
    | inl none_there ↦ rw (missing_assign py fresh i courier s none_there) (Advances-refl s.orders)
    | inr (current, found) ↦
        let keyed = h.keyed i current found in
        elim (Bool-cases (allows current.status assigned)) [
          | inl legal ↦
              rw (assign_lem py fresh i courier s current found keyed, legal)
                (put-Advances current (given_to current courier) s.orders (ground arith)
                  (given_to-Onward current courier (assigned_from_created current.status legal)))
          | inr forbidden ↦
              rw (assign_lem py fresh i courier s current found keyed, forbidden)
                (Advances-refl s.orders)
        ]
  ]

  kept-Advances :
      {i : ℕ} (c : UpdateOrderCommand) (current : DeliveryOrder)
      → current.id ≡ i
      → Dict.get i s.orders ≡ some current
      → (r : Result Error DeliveryOrder) → Domain.update_details py current (changes c) ≡ r
      → Advances s.orders (kept s r).1.orders
  kept-Advances c current keyed found (ok updated) e =
      let edit = update_details-IsEdit py current (changes c) e in
      put-Advances current updated s.orders (ground (arith, edit.identity.id)) (record {
        tenant_id = edit.identity.tenant_id;
        grows = omega (arith, edit.version);
        stays_taken = λ taken. ground (arith, taken, edit.progress.status);
        keeps_courier = λ taken. edit.progress.courier_id;
      })
  kept-Advances c current keyed found (err _) e = Advances-refl s.orders

  update-Advances :
      (i : ℕ) (c : UpdateOrderCommand) (v : ℕ)
      → Advances s.orders (Service.update py (memory_repository py) i c v s).1.orders
  update-Advances i c v = elim (Option-cases (Dict.get i s.orders)) [
    | inl none_there ↦ rw (missing_update py i c v s none_there) (Advances-refl s.orders)
    | inr (current, found) ↦
        let keyed = h.keyed i current found in
        elim (Bool-cases (current.version != v)) [
          | inl stale ↦
              rw (update_lem py i c v s current found keyed, stale) (Advances-refl s.orders)
          | inr timely ↦
              rw (update_lem py i c v s current found keyed, timely)
                (kept-Advances c current keyed found (Domain.update_details py current (changes c))
                  refl)
        ]
  ]

  claim-Advances : (c : Claim) → Advances s.orders (claim_next_created_order py c s).1.orders
  claim-Advances c = from_answer (claim_takes_oldest py c s)
    where
      by_claim :
          {r : Option DeliveryOrder} {s' : Memory}
          → Claimed py c s r s'
          → Advances s.orders s'.orders
      by_claim (nothing _) = Advances-refl s.orders
      by_claim (handed_over candidate old) =
          put-Advances candidate (given_to candidate c.courier_id) s.orders
            (stored_of_Among s candidate h old.waits.among)
            (given_to-Onward candidate c.courier_id old.waits.status)

      from_answer :
          Answers py c s (claim_next_created_order py c s)
          → Advances s.orders (claim_next_created_order py c s).1.orders
      from_answer (inl (_, _, claimed, _)) = by_claim claimed
      from_answer (inr (_, unchanged, _)) = rw unchanged (Advances-refl s.orders)

  placed-Advances :
      (fresh : Fresh) (c : CreateOrderCommand) (tenant : ℕ)
      → Dict.get fresh.order_id s.orders ≡ none
      → (r : Result Error DeliveryOrder) → new_order fresh c tenant ≡ r
      → Advances s.orders (placed py fresh.event_id s r).1.orders
  unfolding Domain.create
  placed-Advances fresh c tenant unused (ok order) e = add-Advances order s.orders (ground arith)
  placed-Advances fresh c tenant unused (err _) e = Advances-refl s.orders

  remembered-Advances :
      (scope print : String) (a : Answer)
      → Advances s.orders a.1.orders
      → Advances s.orders (remembered scope print a).1.orders
  remembered-Advances scope print (ok order, s') c = c
  remembered-Advances scope print (err _, s') c = c

  answered-Advances :
      (fresh : Fresh) (c : CreateOrderCommand) (tenant : ℕ) (scope : String)
      → Dict.get fresh.order_id s.orders ≡ none
      → (saved : Option (String × DeliveryOrder))
      → Advances s.orders (answered py fresh c tenant scope s saved).1.orders
  answered-Advances fresh c tenant scope unused none =
      remembered-Advances scope (fingerprint py c)
        (placed py fresh.event_id s (new_order fresh c tenant))
        (placed-Advances fresh c tenant unused (new_order fresh c tenant) refl)
  answered-Advances fresh c tenant scope unused (some (print, snapshot)) =
      elim (Bool-cases (print != fingerprint py c)) [
        | inl other ↦ rw other (Advances-refl s.orders)
        | inr agrees ↦ rw agrees (Advances-refl s.orders)
      ]

  create-Advances :
      (fresh : Fresh) (c : CreateOrderCommand) (key : Option String) (tenant : ℕ)
      → Dict.get fresh.order_id s.orders ≡ none
      → Advances s.orders (Service.create py (memory_repository py) fresh c key tenant s).1.orders
  create-Advances fresh c key tenant unused = elim (Option-cases (usable key)) [
    | inl no_key ↦
        rw (create_unkeyed_lem py fresh c key tenant s no_key)
          (placed-Advances fresh c tenant unused (new_order fresh c tenant) refl)
    | inr (k, keyed) ↦ rw (create_keyed_lem py fresh c key k tenant s keyed) (
        answered-Advances fresh c tenant (request_scope py tenant c.customer_id k) unused
          (Dict.get (request_scope py tenant c.customer_id k) s.idempotency))
  ]

after-Advances :
    (py : Runtime) (c : Call) (s : Memory)
    → IsFresh c s
    → IsConsistent py s
    → Advances s.orders (after py c s).orders
unfolding after Service.claim_next
after-Advances py (create fresh c key tenant) s unused h =
    create-Advances py s h fresh c key tenant unused
after-Advances py (assign fresh i courier) s _ h = assign-Advances py s h fresh i courier
after-Advances py (claim_next fresh courier tenant correlation) s _ h = claim-Advances py s h _
after-Advances py (update i c v) s _ h = update-Advances py s h i c v
after-Advances py (transition fresh i c) s _ h = transition-Advances py s h fresh i c

-- Whatever calls come, the stored orders only move onward.
pub Later-Advances :
    {py : Runtime} {s t : Memory} → IsConsistent py s → Later py s t → Advances s.orders t.orders
Later-Advances {s = s} h same = Advances-refl s.orders
Later-Advances {py} h (next {t} c l fresh) = advances (λ k o found.
    let (p, there, first) = Advances-at k o (Later-Advances h l) found in
    let (q, at_last, second) =
      Advances-at k p (after-Advances py c t fresh (Later-IsConsistent h l)) there in
    (q, at_last, Onward-then o p q first second))
