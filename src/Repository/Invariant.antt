-- ===== src/Repository/Invariant.antt =====
-- What holds of the in-memory repository between two calls.
use innoprog_fastapi_deliver.Prelude.{
  ℕ, ◌≤◌, ◌<◌, String, ◌≡◌, refl, sym, subst, Bool, true, false, Option, none, some, List, [], ◌∷◌,
  number_eq, text_eq, ◌==◌, map, All, keep_if, Among, ◌⊎◌, ◌≢◌, inl, inr, ◌++◌,
}
use innoprog_fastapi_deliver.Runtime.{Runtime, Json, text, number, null, Payload}
use innoprog_fastapi_deliver.Dict
use innoprog_fastapi_deliver.Dict.{Dict, values}
use innoprog_fastapi_deliver.Dict.Entries.{IsDistinct, get-of_Among}
use innoprog_fastapi_deliver.Status.{OrderStatus, created, allows}
use innoprog_fastapi_deliver.Domain.{DeliveryOrder}
use innoprog_fastapi_deliver.Domain.Details.{HasWeight}
use innoprog_fastapi_deliver.Events.{OrderStatusChanged, status_changed_payload}
use innoprog_fastapi_deliver.Repository.{Memory, empty}

-- An event of the history: it is about an order of the store that has reached its version, and its
-- statuses are a transition of the diagram.
pub record IsRecorded (orders : Dict ℕ DeliveryOrder) (e : OrderStatusChanged) : Type 0 where
  pub order : DeliveryOrder
  pub found : Dict.get e.order_id orders ≡ some order
  pub reached : e.order_version ≤ order.version
  pub same_tenant : e.tenant_id ≡ order.tenant_id
  pub legal : allows e.from_status e.to_status ≡ true

abbrev pub Precedes : OrderStatusChanged → OrderStatusChanged → Type 0
Precedes e f = f.order_id ≡ e.order_id → e.order_version < f.order_version

-- The events of one order stand in the order of its versions, no version twice.
abbrev pub IsChronological : List OrderStatusChanged → Type 0
IsChronological [] = Unit
IsChronological (e ∷ es) = All (Precedes e) es × IsChronological es

-- The events of one order lead from one status to another, each from where the one before it ended.
abbrev pub IsTrail : ℕ → OrderStatus → OrderStatus → List OrderStatusChanged → Type 0
IsTrail k from to [] = from ≡ to
IsTrail k from to (e ∷ es) =
    ((e.order_id ≡ k) × (e.from_status ≡ from) × IsTrail k e.to_status to es)
    ⊎ ((e.order_id ≢ k) × IsTrail k from to es)

pub IsTrail-append :
    (k : ℕ) (from mid to : OrderStatus) (es : List OrderStatusChanged) (e : OrderStatusChanged)
    → IsTrail k from mid es
    → IsTrail k mid to (e ∷ [])
    → IsTrail k from to (es ++ e ∷ [])
IsTrail-append k from mid to [] e h step = subst (λ x. IsTrail k x to (e ∷ [])) (sym h) step
IsTrail-append k from mid to (x ∷ es) e (inl (about, start, h)) step =
    inl (about, start, IsTrail-append k x.to_status mid to es e h step)
IsTrail-append k from mid to (x ∷ es) e (inr (other, h)) step =
    inr (other, IsTrail-append k from mid to es e h step)

pub IsTrail-of_others :
    (k : ℕ) (from : OrderStatus) (es : List OrderStatusChanged)
    → All (λ e. e.order_id ≢ k) es
    → IsTrail k from from es
IsTrail-of_others k from [] h = refl
IsTrail-of_others k from (e ∷ es) h = inr (h.0, IsTrail-of_others k from es h.1)

-- The outbox messages of type `order.status_changed`.
abbrev is_text : String → Option Json → Bool
is_text t none = false
is_text t (some (text v)) = v == t
is_text t (some (number _)) = false
is_text t (some null) = false

abbrev pub is_status_changed : Payload → Bool
is_status_changed payload = is_text "order.status_changed" (Dict.get "event_type" payload)

pub record IsConsistent (py : Runtime) (s : Memory) : Type 0 where
  pub distinct : IsDistinct s.orders
  pub keyed : (k : ℕ) (o : DeliveryOrder) → Dict.get k s.orders ≡ some o → o.id ≡ k
  pub weights : (k : ℕ) (o : DeliveryOrder) → Dict.get k s.orders ≡ some o → HasWeight o
  pub recorded : All (IsRecorded s.orders) s.transition_history
  pub chronological : IsChronological s.transition_history
  pub traced :
      (k : ℕ) (o : DeliveryOrder)
      → Dict.get k s.orders ≡ some o
      → IsTrail k created o.status s.transition_history
  pub published :
      keep_if is_status_changed s.outbox ≡ map (status_changed_payload py) s.transition_history

pub empty-IsConsistent : (py : Runtime) → IsConsistent py empty
unfolding Dict.get
empty-IsConsistent py = record {
  distinct = tt;
  keyed = λ k o h. cc;
  weights = λ k o h. cc;
  recorded = tt;
  chronological = tt;
  traced = λ k o h. cc;
  published = refl;
}

-- What iteration over the orders meets is stored under its own identifier.
pub stored_of_Among :
    {py : Runtime} (s : Memory) (o : DeliveryOrder)
    → IsConsistent py s
    → Among o (values s.orders)
    → Dict.get o.id s.orders ≡ some o
stored_of_Among s o c m =
    let (k, found) = get-of_Among s.orders o c.distinct m in
    subst (λ i. Dict.get i s.orders ≡ some o) (sym (c.keyed k o found)) found
