-- ===== src/Repository/Writes.antt =====
-- Each write of the in-memory repository keeps its invariant.
use mathlib.Core.List.{map-append, append-nil}
use innoprog_fastapi_deliver.Prelude.{
  ℕ, String, ◌+◌, ◌≤◌, ◌<◌, ◌≡◌, refl, true, false, none, some, List, [], ◌∷◌, ◌++◌, arith,
  number_eq, text_eq, All, All-append, All-imply, keep_if-append, ◌==◌, Bool-cases, inl, inr, sym,
  subst, ap, ◌∙◌, ◌≢◌,
}
use innoprog_fastapi_deliver.Runtime.{Runtime}
use innoprog_fastapi_deliver.Dict
use innoprog_fastapi_deliver.Dict.{Dict, get-put, get-put_self}
use innoprog_fastapi_deliver.Dict.Entries.{put-IsDistinct}
use innoprog_fastapi_deliver.Status.{OrderStatus, created, assigned, allows}
use innoprog_fastapi_deliver.Domain.{DeliveryOrder}
use innoprog_fastapi_deliver.Domain.Details.{HasWeight}
use innoprog_fastapi_deliver.Events.{
  OrderCreated, OrderStatusChanged, status_changed_payload, created_payload,
}
use innoprog_fastapi_deliver.Repository.{Memory, publish}
use innoprog_fastapi_deliver.Repository.Invariant.{
  IsRecorded, Precedes, IsTrail, IsTrail-append, IsTrail-of_others, IsChronological, IsConsistent,
  is_status_changed,
}

abbrev pub stored : DeliveryOrder → Memory → Memory
stored order s = record s { orders = Dict.put order.id order s.orders }

-- The order after an accepted transition, and after an accepted assignment.
abbrev pub moved : DeliveryOrder → OrderStatus → DeliveryOrder
moved current target = record current { status = target; version = current.version + 1 }

abbrev pub given_to : DeliveryOrder → ℕ → DeliveryOrder
given_to current courier_id = record current {
  status = assigned;
  version = current.version + 1;
  courier_id = some courier_id;
}

-- `new` may take the place of `old`.
pub record Succeeds (old new : DeliveryOrder) : Type 0 where
  pub id : new.id ≡ old.id
  pub tenant_id : new.tenant_id ≡ old.tenant_id
  pub grows : old.version ≤ new.version
  pub weight : HasWeight new

stored-IsRecorded :
    (old new : DeliveryOrder) (orders : Dict ℕ DeliveryOrder) (e : OrderStatusChanged)
    → Dict.get new.id orders ≡ some old
    → Succeeds old new
    → IsRecorded orders e
    → IsRecorded (Dict.put new.id new orders) e
stored-IsRecorded old new orders e found step r = elim (Bool-cases (new.id == e.order_id)) [
  | inl same ↦ record {
    order = new;
    found = ground (arith, get-put new.id e.order_id new orders);
    reached = ground (arith, r, step);
    same_tenant = ground (arith, r, step);
    legal = r.legal;
  }
  | inr other ↦ record {
    order = r.order;
    found = ground (arith, get-put new.id e.order_id new orders, r.found);
    reached = r.reached;
    same_tenant = r.same_tenant;
    legal = r.legal;
  }
]

module _ {py : Runtime} (old new : DeliveryOrder) (s : Memory) where
  -- A stored order is replaced by one that succeeds it.
  pub stored-IsConsistent :
      Dict.get new.id s.orders ≡ some old
      → Succeeds old new
      → new.status ≡ old.status
      → IsConsistent py s
      → IsConsistent py (stored new s)
  stored-IsConsistent found step same_status c = record {
    distinct = put-IsDistinct new.id new s.orders c.distinct;
    keyed = λ k o h. ground (arith, get-put new.id k new s.orders, c.keyed k o);
    weights = λ k o h. ground (arith, get-put new.id k new s.orders, c.weights k o, step.weight);
    recorded =
        All-imply (IsRecorded s.orders) (IsRecorded (Dict.put new.id new s.orders))
          (λ e. stored-IsRecorded old new s.orders e found step) s.transition_history c.recorded;
    chronological = c.chronological;
    traced = λ k o h. elim (Bool-cases (new.id == k)) [
      | inl same ↦
          let at_k : new.id ≡ k = ground (arith, same) in
          let is_new : new ≡ o = ground (arith, same, h, get-put new.id k new s.orders) in
          let trail = c.traced new.id old found in
          let status : old.status ≡ o.status = sym same_status ∙ ap (λ x. x.status) is_new in
          subst (λ x. IsTrail k created x s.transition_history) status
            (subst (λ x. IsTrail x created old.status s.transition_history) at_k trail)
      | inr other ↦ c.traced k o (ground (arith, other, h, get-put new.id k new s.orders))
    ];
    published = c.published;
  }

IsChronological-append :
    (es : List OrderStatusChanged) (e : OrderStatusChanged)
    → IsChronological es
    → All (λ x. Precedes x e) es
    → IsChronological (es ++ e ∷ [])
IsChronological-append [] e h before = (tt, tt)
IsChronological-append (x ∷ es) e h before = (
  All-append (Precedes x) es (e ∷ []) h.0 (before.0, tt),
  IsChronological-append es e h.1 before.1,
)

status_changed_is :
    (py : Runtime) (e : OrderStatusChanged) → is_status_changed (status_changed_payload py e) ≡ true
unfolding Dict.get status_changed_payload
status_changed_is py e = refl

created_is_not :
    (py : Runtime) (e : OrderCreated) → is_status_changed (created_payload py e) ≡ false
unfolding Dict.get created_payload
created_is_not py e = refl

-- An event describes the order that a transition has stored.
pub record Describes (old new : DeliveryOrder) (e : OrderStatusChanged) : Type 0 where
  pub order_id : e.order_id ≡ new.id
  pub version : e.order_version ≡ new.version
  pub tenant_id : e.tenant_id ≡ new.tenant_id
  pub leaves : e.from_status ≡ old.status
  pub enters : e.to_status ≡ new.status
  pub legal : allows e.from_status e.to_status ≡ true

module _ {py : Runtime} (old new : DeliveryOrder) (s : Memory) (e : OrderStatusChanged) where
  -- A transition stores the next version and publishes its event.
  pub published-IsConsistent :
      Dict.get new.id s.orders ≡ some old
      → Succeeds old new
      → old.version < new.version
      → Describes old new e
      → IsConsistent py s
      → IsConsistent py (publish py e (stored new s))
  published-IsConsistent found step newer d c = record {
    distinct = put-IsDistinct new.id new s.orders c.distinct;
    keyed = λ k o h. ground (arith, get-put new.id k new s.orders, c.keyed k o);
    weights = λ k o h. ground (arith, get-put new.id k new s.orders, c.weights k o, step.weight);
    recorded =
        All-append (IsRecorded (Dict.put new.id new s.orders)) s.transition_history (e ∷ [])
          (All-imply (IsRecorded s.orders) (IsRecorded (Dict.put new.id new s.orders))
            (λ x. stored-IsRecorded old new s.orders x found step) s.transition_history c.recorded)
          (
            record {
              order = new;
              found = rw d.order_id (get-put_self new.id new s.orders);
              reached = ground arith;
              same_tenant = d.tenant_id;
              legal = d.legal;
            },
            tt,
          );
    chronological = IsChronological-append s.transition_history e c.chronological (
        All-imply (IsRecorded s.orders) (λ x. Precedes x e)
          (λ x r same. ground (arith, r.found, found, r.reached)) s.transition_history c.recorded);
    traced = λ k o h. elim (Bool-cases (new.id == k)) [
      | inl same ↦
          let at_k : new.id ≡ k = ground (arith, same) in
          let is_new : new ≡ o = ground (arith, same, h, get-put new.id k new s.orders) in
          IsTrail-append k created old.status o.status s.transition_history e
            (c.traced k old (subst (λ x. Dict.get x s.orders ≡ some old) at_k found))
            (inl (d.order_id ∙ at_k, d.leaves, d.enters ∙ ap (λ x. x.status) is_new))
      | inr other ↦
          IsTrail-append k created o.status o.status s.transition_history e
            (c.traced k o (ground (arith, other, h, get-put new.id k new s.orders)))
            (inr (ground (arith, other, d.order_id), refl))
    ];
    published = simp (keep_if-append, map-append, c.published, status_changed_is);
  }

module _ {py : Runtime} (new : DeliveryOrder) (s : Memory) where
  -- A new order under an identifier that is not in use.
  pub added-IsConsistent :
      Dict.get new.id s.orders ≡ none
      → HasWeight new
      → new.status ≡ created
      → IsConsistent py s
      → IsConsistent py (stored new s)
  added-IsConsistent unused weight initial c = record {
    distinct = put-IsDistinct new.id new s.orders c.distinct;
    keyed = λ k o h. ground (arith, get-put new.id k new s.orders, c.keyed k o);
    weights = λ k o h. ground (arith, get-put new.id k new s.orders, c.weights k o, weight);
    recorded =
        All-imply (IsRecorded s.orders) (IsRecorded (Dict.put new.id new s.orders))
          (λ e r. record {
            order = r.order;
            found = ground (arith, get-put new.id e.order_id new s.orders, r.found);
            reached = r.reached;
            same_tenant = r.same_tenant;
            legal = r.legal;
          })
          s.transition_history c.recorded;
    chronological = c.chronological;
    traced = λ k o h. elim (Bool-cases (new.id == k)) [
      | inl same ↦
          let is_new : new ≡ o = ground (arith, same, h, get-put new.id k new s.orders) in
          subst (λ x. IsTrail k created x s.transition_history)
            (sym initial ∙ ap (λ x. x.status) is_new)
            (IsTrail-of_others k created s.transition_history (
              All-imply (IsRecorded s.orders) (λ e. e.order_id ≢ k)
                (λ e r about. ground (arith, r.found, unused, same, about)) s.transition_history
                c.recorded))
      | inr other ↦ c.traced k o (ground (arith, other, h, get-put new.id k new s.orders))
    ];
    published = c.published;
  }

-- The message of a new order is not one of a transition.
pub announced-IsConsistent :
    {py : Runtime} (e : OrderCreated) (s : Memory)
    → IsConsistent py s
    → IsConsistent py (record s { outbox = s.outbox ++ created_payload py e ∷ [] })
announced-IsConsistent {py} e s c = record {
  distinct = c.distinct;
  keyed = c.keyed;
  weights = c.weights;
  recorded = c.recorded;
  chronological = c.chronological;
  traced = c.traced;
  published = simp (keep_if-append, c.published, created_is_not, append-nil);
}

pub remembered-IsConsistent :
    {py : Runtime} (d : Dict String (String × DeliveryOrder)) (s : Memory)
    → IsConsistent py s
    → IsConsistent py (record s { idempotency = d })
remembered-IsConsistent d s c = record {
  distinct = c.distinct;
  keyed = c.keyed;
  weights = c.weights;
  recorded = c.recorded;
  chronological = c.chronological;
  traced = c.traced;
  published = c.published;
}
