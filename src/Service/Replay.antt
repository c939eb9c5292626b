-- ===== src/Service/Replay.antt =====
-- Idempotency of `OrderService.create`: a repeated request replays the first answer, whatever other
-- calls came between, and a key reused for another request is refused.
use innoprog_fastapi_deliver.Prelude.{
  ℕ, String, ◌≡◌, ◌≢◌, refl, sym, subst, Option, none, some, arith, ok, err, inl, inr, number_eq,
  text_eq, Result, Option-cases,
}
use text.Mathlib.TextEquality.{eq_iff}
use innoprog_fastapi_deliver.Runtime.{Runtime}
use innoprog_fastapi_deliver.Dict
use innoprog_fastapi_deliver.Dict.{get-put, get-put_self}
use innoprog_fastapi_deliver.Errors.{Error, idempotency_conflict}
use innoprog_fastapi_deliver.Domain.{DeliveryOrder}
use innoprog_fastapi_deliver.Commands.{CreateOrderCommand}
use innoprog_fastapi_deliver.Ports.{Claim}
use innoprog_fastapi_deliver.Repository.{Memory, memory_repository, claim_next_created_order}
use innoprog_fastapi_deliver.Repository.Invariant.{IsConsistent}
use innoprog_fastapi_deliver.Repository.Claims.{
  Answers, Claimed, nothing, handed_over, claim_takes_oldest,
}
use innoprog_fastapi_deliver.Service
use innoprog_fastapi_deliver.Service.{Fresh, usable, fingerprint, request_scope}
use innoprog_fastapi_deliver.Service.Creation.{
  Answer, placed, new_order, remembered, answered, create_keyed_lem, create_unkeyed_lem,
}
use innoprog_fastapi_deliver.Service.Optimistic.{transition_lem, update_lem, assign_lem}
use innoprog_fastapi_deliver.Service.Calls.{
  Call, create, assign, claim_next, update, transition, after, Reached, call, Reached-IsConsistent,
  Later, same, next, Later-Reached, missing_transition, missing_update, missing_assign,
}

-- The saved answers are those of before, and maybe one more under a scope that had none.
abbrev Extends : Memory → Memory → Type 0
Extends s s' =
    (scope : String) (r : String × DeliveryOrder)
    → Dict.get scope s.idempotency ≡ some r
    → Dict.get scope s'.idempotency ≡ some r

module _ (py : Runtime) (s : Memory) (h : IsConsistent py s) where
  same_idempotency_transition :
      (fresh : Fresh) (i : ℕ) (c : Service.TransitionOrderCommand)
      → (Service.transition py (memory_repository py) fresh i c s).1.idempotency ≡ s.idempotency
  same_idempotency_transition fresh i c = elim (Option-cases (Dict.get i s.orders)) [
    | inl none_there ↦ rw (missing_transition py fresh i c s none_there)
    | inr (current, found) ↦
        ground (arith, transition_lem py fresh i c s current found (h.keyed i current found))
  ]

  same_idempotency_assign :
      (fresh : Fresh) (i courier : ℕ)
      → (Service.assign py (memory_repository py) fresh i courier s).1.idempotency ≡ s.idempotency
  same_idempotency_assign fresh i courier = elim (Option-cases (Dict.get i s.orders)) [
    | inl none_there ↦ rw (missing_assign py fresh i courier s none_there)
    | inr (current, found) ↦
        ground (arith, assign_lem py fresh i courier s current found (h.keyed i current found))
  ]

  same_idempotency_update :
      (i : ℕ) (c : Service.UpdateOrderCommand) (v : ℕ)
      → (Service.update py (memory_repository py) i c v s).1.idempotency ≡ s.idempotency
  same_idempotency_update i c v = elim (Option-cases (Dict.get i s.orders)) [
    | inl none_there ↦ rw (missing_update py i c v s none_there)
    | inr (current, found) ↦
        ground (arith, update_lem py i c v s current found (h.keyed i current found))
  ]

  same_idempotency_claim :
      (c : Claim) → (claim_next_created_order py c s).1.idempotency ≡ s.idempotency
  same_idempotency_claim c = from_answer (claim_takes_oldest py c s)
    where
      kept_all :
          {r : Option DeliveryOrder} {s' : Memory}
          → Claimed py c s r s'
          → s'.idempotency ≡ s.idempotency
      kept_all (nothing _) = refl
      kept_all (handed_over candidate old) = refl

      from_answer :
          Answers py c s (claim_next_created_order py c s)
          → (claim_next_created_order py c s).1.idempotency ≡ s.idempotency
      from_answer (inl (_, _, claimed, _)) = kept_all claimed
      from_answer (inr (_, unchanged, _)) = rw unchanged

  remembered_keeps :
      (own print scope : String) (event_id : ℕ) (r : String × DeliveryOrder)
      (made : Result Error DeliveryOrder)
      → Dict.get own s.idempotency ≡ none
      → Dict.get scope s.idempotency ≡ some r
      → Dict.get scope (remembered own print (placed py event_id s made)).1.idempotency ≡ some r
  remembered_keeps own print scope event_id r (ok order) new saved =
      ground (arith, get-put own scope (print, order) s.idempotency, eq_iff own scope)
  remembered_keeps own print scope event_id r (err _) new saved = saved

  answered_keeps :
      (fresh : Fresh) (c : CreateOrderCommand) (tenant : ℕ) (own scope : String)
      (r : String × DeliveryOrder)
      → Dict.get scope s.idempotency ≡ some r
      → (old : Option (String × DeliveryOrder)) → Dict.get own s.idempotency ≡ old
      → Dict.get scope (answered py fresh c tenant own s old).1.idempotency ≡ some r
  answered_keeps fresh c tenant own scope r saved none new =
      remembered_keeps own (fingerprint py c) scope fresh.event_id r (new_order fresh c tenant) new
        saved
  answered_keeps fresh c tenant own scope r saved (some (print, snapshot)) _ = ground arith

  create-Extends :
      (fresh : Fresh) (c : CreateOrderCommand) (key : Option String) (tenant : ℕ)
      → Extends s (Service.create py (memory_repository py) fresh c key tenant s).1
  create-Extends fresh c key tenant scope r saved = elim (Option-cases (usable key)) [
    | inl no_key ↦
        rw (create_unkeyed_lem py fresh c key tenant s no_key) (unkeyed (new_order fresh c tenant))
    | inr (k, keyed) ↦
        let own = request_scope py tenant c.customer_id k in
        rw (create_keyed_lem py fresh c key k tenant s keyed)
          (answered_keeps fresh c tenant own scope r saved (Dict.get own s.idempotency) refl)
  ]
    where
      unkeyed :
          (made : Result Error DeliveryOrder)
          → Dict.get scope (placed py fresh.event_id s made).1.idempotency ≡ some r
      unkeyed (ok order) = saved
      unkeyed (err _) = saved

after-Extends :
    (py : Runtime) (c : Call) (s : Memory) → IsConsistent py s → Extends s (after py c s)
unfolding after Service.claim_next
after-Extends py (create fresh c key tenant) s h = create-Extends py s h fresh c key tenant
after-Extends py (assign fresh i courier) s h =
    λ scope r saved. rw (same_idempotency_assign py s h fresh i courier) saved
after-Extends py (claim_next fresh courier tenant correlation) s h =
    λ scope r saved. rw (same_idempotency_claim py s h _) saved
after-Extends py (update i c v) s h =
    λ scope r saved. rw (same_idempotency_update py s h i c v) saved
after-Extends py (transition fresh i c) s h =
    λ scope r saved. rw (same_idempotency_transition py s h fresh i c) saved

Later-Extends : {py : Runtime} {s t : Memory} → Reached py s → Later py s t → Extends s t
Later-Extends r same = λ scope x saved. saved
Later-Extends {py} r (next {t} c l fresh) = λ scope x saved.
    after-Extends py c t (Reached-IsConsistent (Later-Reached r l)) scope x
      (Later-Extends r l scope x saved)

-- An order that was answered is saved under its scope with the fingerprint of its request.
abbrev Saved : String → String → DeliveryOrder → Answer → Type 0
Saved own print order (r, s') = r ≡ ok order → Dict.get own s'.idempotency ≡ some (print, order)

placed-Saved :
    (py : Runtime) (own print : String) (event_id : ℕ) (s : Memory) (order : DeliveryOrder)
    (made : Result Error DeliveryOrder)
    → Saved own print order (remembered own print (placed py event_id s made))
placed-Saved py own print event_id s order (ok o) =
    λ done. ground (arith, get-put_self own (print, o) s.idempotency)
placed-Saved py own print event_id s order (err e) = λ done. cc

answered-Saved :
    (py : Runtime) (fresh : Fresh) (c : CreateOrderCommand) (tenant : ℕ) (own : String) (s : Memory)
    (order : DeliveryOrder) (old : Option (String × DeliveryOrder))
    → Dict.get own s.idempotency ≡ old
    → Saved own (fingerprint py c) order (answered py fresh c tenant own s old)
answered-Saved py fresh c tenant own s order none new =
    placed-Saved py own (fingerprint py c) fresh.event_id s order (new_order fresh c tenant)
answered-Saved py fresh c tenant own s order (some (print, snapshot)) old =
    λ done. ground (arith, eq_iff print (fingerprint py c))

create-Saved :
    (py : Runtime) (fresh : Fresh) (c : CreateOrderCommand) (key : Option String) (k : String)
    (tenant : ℕ) (s : Memory) (order : DeliveryOrder)
    → usable key ≡ some k
    → Saved
        (request_scope py tenant c.customer_id k)
        (fingerprint py c)
        order
        (Service.create py (memory_repository py) fresh c key tenant s)
create-Saved py fresh c key k tenant s order keyed =
    let own = request_scope py tenant c.customer_id k in
    subst (Saved own (fingerprint py c) order)
      (sym (create_keyed_lem py fresh c key k tenant s keyed))
      (answered-Saved py fresh c tenant own s order (Dict.get own s.idempotency) refl)

-- Once a request with a usable key was answered with an order, then after any further calls of the
-- use cases the same request is answered with that order as it was, and a request of the same
-- customer with the same key and another fingerprint is refused; neither writes anything.
pub create_replays :
    (py : Runtime) (fresh again : Fresh) (c : CreateOrderCommand) (key : Option String) (k : String)
    (tenant : ℕ) (s t : Memory) (order : DeliveryOrder)
    → Reached py s
    → Dict.get fresh.order_id s.orders ≡ none
    → usable key ≡ some k
    → (Service.create py (memory_repository py) fresh c key tenant s).0 ≡ ok order
    → Later py (Service.create py (memory_repository py) fresh c key tenant s).1 t
    → (Service.create py (memory_repository py) again c key tenant t ≡ (ok order, t))
      × ((c' : CreateOrderCommand)
          → c'.customer_id ≡ c.customer_id
          → fingerprint py c' ≢ fingerprint py c
          → Service.create py (memory_repository py) again c' key tenant t
            ≡ (err idempotency_conflict, t))
unfolding after
create_replays py fresh again c key k tenant s t order reached unused keyed done later =
    let own = request_scope py tenant c.customer_id k in
    let saved =
      Later-Extends (call (create fresh c key tenant) reached unused) later own
        (fingerprint py c, order) (create-Saved py fresh c key k tenant s order keyed done) in
    (
      ground (
        arith,
        create_keyed_lem py again c key k tenant t keyed,
        saved,
        eq_iff (fingerprint py c) (fingerprint py c),
      ),
      λ c' same_customer other. ground (
        arith,
        create_keyed_lem py again c' key k tenant t keyed,
        saved,
        eq_iff (fingerprint py c) (fingerprint py c'),
      ),
    )
