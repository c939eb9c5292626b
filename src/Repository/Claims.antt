-- ===== src/Repository/Claims.antt =====
-- `claim_next_created_order` of the in-memory repository: which order a courier gets.
use innoprog_fastapi_deliver.Prelude.{
  ◌+◌, ◌<◌, ◌≤◌, ◌≡◌, ◌⊎◌, inl, inr, refl, sym, subst, true, false, Option, none, some, List, [],
  ◌∷◌, arith, ok, err, All, Among, Among-keep_if, All-Among, All-of_Among, any_of, any_of-Among,
  any_of-found, keep_if, Bool-cases, Result, sort_by, Among-sort_by, IsTotalOrder,
  IsOrdered-sort_by, if◌then◌else◌, number_eq,
}
use innoprog_fastapi_deliver.Runtime.{Runtime}
use innoprog_fastapi_deliver.Dict.{values}
use innoprog_fastapi_deliver.Status.{created, assigned, picked_up}
use innoprog_fastapi_deliver.Errors.{Error, courier_already_busy}
use innoprog_fastapi_deliver.Domain.{DeliveryOrder, assign}
use innoprog_fastapi_deliver.Events.{OrderStatusChanged, from_transition}
use innoprog_fastapi_deliver.Ports.{Claim}
use innoprog_fastapi_deliver.Repository.{
  Memory, publish, by_created, is_active, is_waiting, take_first, claim_next_created_order,
}
use innoprog_fastapi_deliver.Repository.Writes.{stored, given_to}

pub by_created_total : IsTotalOrder by_created
unfolding by_created
by_created_total = record {
  either_way = λ x y h. ground arith;
  through = λ x y z h k. ground arith;
}

-- created earlier, or at the same time with a smaller id
abbrev pub CameBefore : DeliveryOrder → DeliveryOrder → Type 0
CameBefore o w = (o.created_at < w.created_at) ⊎ ((o.created_at ≡ w.created_at) × (o.id ≤ w.id))

by_created-CameBefore : (o w : DeliveryOrder) → by_created o w ≡ true → CameBefore o w
unfolding by_created
by_created-CameBefore o w h = ground (arith, h)

abbrev pub claim_event : Claim → DeliveryOrder → OrderStatusChanged
claim_event c candidate = record {
  event_id = c.event_id;
  order_id = candidate.id;
  tenant_id = candidate.tenant_id;
  from_status = candidate.status;
  to_status = assigned;
  order_version = candidate.version + 1;
  actor_id = c.courier_id;
  actor_role = "courier";
  occurred_at = c.occurred_at;
  correlation_id = c.correlation_id;
}

-- The orders that a claim chooses from, oldest first.
abbrev pub queue : Claim → Memory → List DeliveryOrder
queue c s = sort_by by_created (keep_if (is_waiting c) (values s.orders))

abbrev handed :
    Runtime → Claim → List DeliveryOrder → Memory → Result Error (Option DeliveryOrder) × Memory
handed py c [] s = (ok none, s)
handed py c (candidate ∷ _) s = (
  ok (some (given_to candidate c.courier_id)),
  publish py (claim_event c candidate) (stored (given_to candidate c.courier_id) s),
)

take_first_lem :
    (py : Runtime) (c : Claim) (q : List DeliveryOrder) (s : Memory)
    → All (λ o. o.status ≡ created) q
    → take_first py c q s ≡ handed py c q s
unfolding take_first assign from_transition
take_first_lem py c [] s h = refl
take_first_lem py c (candidate ∷ _) s h = ground arith

-- What a claim chooses from: orders of the store that wait in the courier's tenant.
pub record Waits (c : Claim) (s : Memory) (o : DeliveryOrder) : Type 0 where
  pub among : Among o (values s.orders)
  pub tenant : o.tenant_id ≡ c.tenant_id
  pub status : o.status ≡ created

queue-Waits : (c : Claim) (s : Memory) (o : DeliveryOrder) → Among o (queue c s) → Waits c s o
unfolding is_waiting
queue-Waits c s o m =
    let (among, waits) =
      (Among-keep_if (is_waiting c) (values s.orders) o).0
        ((Among-sort_by by_created (keep_if (is_waiting c) (values s.orders)) o).0 m) in
    ground arith

Waits-queue : (c : Claim) (s : Memory) (o : DeliveryOrder) → Waits c s o → Among o (queue c s)
unfolding is_waiting
Waits-queue c s o w =
    (Among-sort_by by_created (keep_if (is_waiting c) (values s.orders)) o).1
      ((Among-keep_if (is_waiting c) (values s.orders) o).1 (w.among, ground arith))

-- A claim on every branch.
pub claim_lem :
    (py : Runtime) (c : Claim) (s : Memory)
    → claim_next_created_order py c s ≡ (
        if any_of (is_active c) (values s.orders)
        then (err courier_already_busy, s)
        else handed py c (queue c s) s)
unfolding claim_next_created_order
claim_lem py c s = elim (Bool-cases (any_of (is_active c) (values s.orders))) [
  | inl busy ↦ rw busy
  | inr free ↦ rw free (
      take_first_lem py c (queue c s) s
        (All-of_Among (λ o. o.status ≡ created) (queue c s) (λ o m. (queue-Waits c s o m).status)))
]

-- What a courier gets: the oldest waiting order of the tenant, by time of creation and then by
-- identifier.
pub record IsOldest (c : Claim) (s : Memory) (o : DeliveryOrder) : Type 0 where
  pub waits : Waits c s o
  pub oldest : (w : DeliveryOrder) → Waits c s w → (w ≡ o) ⊎ CameBefore o w

-- The result of a claim that raises nothing.
pub data Claimed (py : Runtime) (c : Claim) (s : Memory)
    : Option DeliveryOrder → Memory → Type 0 where
  nothing : ((w : DeliveryOrder) → ¬ Waits c s w) → Claimed py c s none s
  handed_over :
      (candidate : DeliveryOrder)
      → IsOldest c s candidate
      → Claimed py c s
          (some (given_to candidate c.courier_id))
          (publish py (claim_event c candidate) (stored (given_to candidate c.courier_id) s))

IsOldest-of_head :
    (c : Claim) (s : Memory) (candidate : DeliveryOrder) (rest : List DeliveryOrder)
    → queue c s ≡ candidate ∷ rest
    → IsOldest c s candidate
IsOldest-of_head c s candidate rest e = record {
  waits = queue-Waits c s candidate (rw e (inl refl));
  oldest = λ w waits.
      let first : All (λ y. by_created candidate y ≡ true) rest =
        (rw e at (
          IsOrdered-sort_by by_created by_created_total
            (keep_if (is_waiting c) (values s.orders)))).0 in
      let m : Among w (candidate ∷ rest) = rw e at (Waits-queue c s w waits) in
      elim m [
        | inl same ↦ inl same
        | inr later ↦ inr (
            by_created-CameBefore candidate w
              (All-Among (λ y. by_created candidate y ≡ true) rest w first later))
      ];
}

-- The courier of a claim carries no order of the tenant that is under way.
abbrev pub IsFree : Claim → Memory → Type 0
IsFree c s =
    (o : DeliveryOrder)
    → Among o (values s.orders)
    → o.tenant_id ≡ c.tenant_id
    → o.courier_id ≡ some c.courier_id
    → ¬ ((o.status ≡ assigned) ⊎ (o.status ≡ picked_up))

not_active-IsFree :
    (c : Claim) (s : Memory) → any_of (is_active c) (values s.orders) ≡ false → IsFree c s
unfolding is_active
not_active-IsFree c s free o among tenant carries under_way =
    let active : is_active c o ≡ true = ground (arith, tenant, carries, under_way) in
    ground (arith, free, any_of-Among (is_active c) (values s.orders) o among active)

-- The courier of a claim carries an order of the tenant that is under way.
abbrev pub IsBusy : Claim → Memory → Type 0
IsBusy c s =
    (o : DeliveryOrder) × Among o (values s.orders)
    × (o.tenant_id ≡ c.tenant_id)
    × (o.courier_id ≡ some c.courier_id)
    × ((o.status ≡ assigned) ⊎ (o.status ≡ picked_up))

active-IsBusy :
    (c : Claim) (s : Memory) → any_of (is_active c) (values s.orders) ≡ true → IsBusy c s
unfolding is_active
active-IsBusy c s busy =
    let (o, among, active) = any_of-found (is_active c) (values s.orders) busy in
    (o, among, ground (arith, active), ground (arith, active), ground (arith, active))

-- What a claim answers.
abbrev pub Answers :
    Runtime → Claim → Memory → Result Error (Option DeliveryOrder) × Memory → Type 0
Answers py c s (r, s') =
    ((o : Option DeliveryOrder) × (r ≡ ok o) × Claimed py c s o s' × IsFree c s)
    ⊎ ((r ≡ err courier_already_busy) × (s' ≡ s) × IsBusy c s)

handed-Answers :
    (py : Runtime) (c : Claim) (s : Memory) (q : List DeliveryOrder)
    → queue c s ≡ q
    → IsFree c s
    → Answers py c s (handed py c q s)
handed-Answers py c s [] e free =
    inl (none, refl, nothing (λ w waits. rw e at (Waits-queue c s w waits)), free)
handed-Answers py c s (candidate ∷ rest) e free = inl (
  some (given_to candidate c.courier_id),
  refl,
  handed_over candidate (IsOldest-of_head c s candidate rest e),
  free,
)

claim_free :
    (py : Runtime) (c : Claim) (s : Memory)
    → any_of (is_active c) (values s.orders) ≡ false
    → claim_next_created_order py c s ≡ handed py c (queue c s) s
claim_free py c s free = rw (claim_lem, free)

-- A claim has one of two outcomes. The courier carries no assigned or picked-up order of the tenant, and
-- gets the oldest waiting order of the tenant, or nothing if none waits; or the courier carries such an
-- order, and the claim is refused and nothing is written.
pub claim_takes_oldest :
    (py : Runtime) (c : Claim) (s : Memory) → Answers py c s (claim_next_created_order py c s)
claim_takes_oldest py c s = elim (Bool-cases (any_of (is_active c) (values s.orders))) [
  | inl busy ↦ rw (claim_lem, busy) (inr (refl, refl, active-IsBusy c s busy))
  | inr free ↦
      subst (Answers py c s) (sym (claim_free py c s free))
        (handed-Answers py c s (queue c s) refl (not_active-IsFree c s free))
]
