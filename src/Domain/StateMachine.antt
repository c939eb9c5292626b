-- ===== src/Domain/StateMachine.antt =====
-- The life of an order: the transition diagram, and what holds of every order that is reached from
-- a new one by accepted commands.
use innoprog_fastapi_deliver.Prelude.{
  ℕ, suc, ◌+◌, ◌≤◌, ◌≡◌, ◌⊎◌, String, refl, true, List, arith, ok, err, some, inl, inr, Bool-cases,
}
use innoprog_fastapi_deliver.Runtime.{Runtime}
use innoprog_fastapi_deliver.Status.{
  OrderStatus, created, assigned, picked_up, delivered, cancelled, allows,
}
use innoprog_fastapi_deliver.Errors.{invalid_transition}
use innoprog_fastapi_deliver.Domain.{
  DeliveryOrder, Change, create, transition, assign, update_details,
}
use innoprog_fastapi_deliver.Domain.Details.{
  SameIdentity, SameProgress, HasWeight, update_details-IsEdit,
}

-- The transitions that the README allows.
pub data Edge : OrderStatus → OrderStatus → Type 0 where
  take : Edge created assigned
  drop_new : Edge created cancelled
  pick : Edge assigned picked_up
  drop_assigned : Edge assigned cancelled
  deliver : Edge picked_up delivered

Edge-allows : {s t : OrderStatus} → Edge s t → allows s t ≡ true
Edge-allows take = refl
Edge-allows drop_new = refl
Edge-allows pick = refl
Edge-allows drop_assigned = refl
Edge-allows deliver = refl

Edge_of_allows : (s t : OrderStatus) → allows s t ≡ true → Edge s t
Edge_of_allows s t h = grind (arith, take, drop_new, pick, drop_assigned, deliver)

-- A transition along the diagram gives the order with the new status and the next version; any other
-- raises `InvalidTransition` with both statuses.
pub transition_follows_diagram :
    (o : DeliveryOrder) (t : OrderStatus)
    → (Edge o.status t → transition o t ≡ ok (record o { status = t; version = o.version + 1 }))
      × (¬ Edge o.status t → transition o t ≡ err (invalid_transition o.status t))
unfolding transition
transition_follows_diagram o t = (
  (λ e. ground (arith, Edge-allows e)),
  λ none_such. elim (Bool-cases (allows o.status t)) [
    | inl allowed ↦ absurd (none_such (Edge_of_allows o.status t allowed))
    | inr forbidden ↦ rw forbidden
  ],
)

-- How many changes of status lead to a status.
abbrev pub Depth : OrderStatus → ℕ → Type 0
Depth created k = k ≡ 0
Depth assigned k = k ≡ 1
Depth picked_up k = k ≡ 2
Depth delivered k = k ≡ 3
Depth cancelled k = (1 ≤ k) × (k ≤ 2)

-- The accepted commands on one order: `n` of them, of which `k` changed the status.
pub data Life (first : DeliveryOrder) : DeliveryOrder → ℕ → ℕ → Type 0 where
  born : Life first first 0 0
  moved :
      {o o' : DeliveryOrder} {n k : ℕ} (t : OrderStatus)
      → Life first o n k
      → transition o t ≡ ok o'
      → Life first o' (suc n) (suc k)
  taken :
      {o o' : DeliveryOrder} {n k : ℕ} (courier_id : ℕ)
      → Life first o n k
      → assign o courier_id ≡ ok o'
      → Life first o' (suc n) (suc k)
  edited :
      {o o' : DeliveryOrder} {n k : ℕ} (py : Runtime) (changes : List Change)
      → Life first o n k
      → update_details py o changes ≡ ok o'
      → Life first o' (suc n) k

-- What a life makes of the first order.
pub record IsLife (first o : DeliveryOrder) (n k : ℕ) : Type 0 where
  pub identity : SameIdentity first o
  pub version : o.version ≡ first.version + n
  pub weight : HasWeight o
  pub depth : Depth o.status k

Depth-step : (s t : OrderStatus) (k : ℕ) → allows s t ≡ true → Depth s k → Depth t (suc k)
Depth-step s t k h d = ground arith

-- An accepted transition.
pub transition_ok :
    (o : DeliveryOrder) (t : OrderStatus) {o' : DeliveryOrder}
    → transition o t ≡ ok o'
    → (allows o.status t ≡ true) × (o' ≡ record o { status = t; version = o.version + 1 })
unfolding transition
transition_ok o t h = ground arith

-- An accepted assignment.
pub assign_ok :
    (o : DeliveryOrder) (c : ℕ) {o' : DeliveryOrder}
    → assign o c ≡ ok o'
    → (o.status ≡ created)
      × (o' ≡ record o { status = assigned; version = o.version + 1; courier_id = some c })
unfolding assign
assign_ok o c h = ground arith

create_ok :
    (new_id now customer tenant : ℕ) (from to : String) (w : ℕ) {o : DeliveryOrder}
    → create new_id now customer tenant from to w ≡ ok o
    → (o.status ≡ created) × (o.version ≡ 1) × HasWeight o
unfolding create
create_ok new_id now customer tenant from to w h = ground arith

Life-IsLife :
    {first o : DeliveryOrder} {n k : ℕ}
    → first.status ≡ created
    → HasWeight first
    → Life first o n k
    → IsLife first o n k
Life-IsLife new w born = ground arith
Life-IsLife {first} new w (moved {o = b} {n = m} {k = j} t life h) =
    let ih = Life-IsLife new w life in
    ground (arith, transition_ok b t h, Depth-step b.status t j, ih)
Life-IsLife {first} new w (taken {o = b} {n = m} {k = j} c life h) =
    let ih = Life-IsLife new w life in
    ground (arith, assign_ok b c h, Depth-step b.status assigned j, ih)
Life-IsLife {first} new w (edited {o = b} py changes life h) =
    let ih = Life-IsLife new w life in ground (arith, update_details-IsEdit py b changes h, ih)

-- An order made by `create`, after any `n` accepted commands of which `k` changed its status: the
-- version is 1 + n, the status changed at most three times and exactly three times if it is
-- delivered, the weight is still 1 to 100000, and the identity is that of the order made.
pub lifecycle :
    (new_id now customer tenant : ℕ) (from to : String) (w : ℕ) {first o : DeliveryOrder} {n k : ℕ}
    → create new_id now customer tenant from to w ≡ ok first
    → Life first o n k
    → (o.version ≡ 1 + n)
      × (k ≤ 3)
      × (o.status ≡ delivered → k ≡ 3)
      × HasWeight o
      × SameIdentity first o
lifecycle new_id now customer tenant from to w made life =
    let (status, version, weight) = create_ok new_id now customer tenant from to w made in
    let end = Life-IsLife status weight life in ground (arith, end.depth)

abbrev pub IsTerminal : OrderStatus → Type 0
IsTerminal s = (s ≡ delivered) ⊎ (s ≡ cancelled)

terminal_stays :
    {first o : DeliveryOrder} {n k : ℕ}
    → IsTerminal first.status
    → Life first o n k
    → (k ≡ 0) × SameProgress first o
terminal_stays final born = ground arith
terminal_stays final (moved {o = b} t life h) =
    ground (arith, terminal_stays final life, transition_ok b t h)
terminal_stays final (taken {o = b} c life h) =
    ground (arith, terminal_stays final life, assign_ok b c h)
terminal_stays final (edited {o = b} py changes life h) =
    ground (arith, terminal_stays final life, update_details-IsEdit py b changes h)

terminal_refuses :
    (o : DeliveryOrder)
    → IsTerminal o.status
    → ((t : OrderStatus) → transition o t ≡ err (invalid_transition o.status t))
      × ((c : ℕ) → assign o c ≡ err (invalid_transition o.status assigned))
unfolding assign
terminal_refuses o final = ((λ t. ground arith), λ c. ground arith)

-- From a delivered or cancelled order no accepted command changes the status or the courier again,
-- and every transition and every assignment is refused with `InvalidTransition`.
pub terminal_absorbs :
    {first o : DeliveryOrder} {n k : ℕ}
    → IsTerminal first.status
    → Life first o n k
    → (k ≡ 0)
      × (o.status ≡ first.status)
      × (o.courier_id ≡ first.courier_id)
      × ((t : OrderStatus) → transition o t ≡ err (invalid_transition o.status t))
      × ((c : ℕ) → assign o c ≡ err (invalid_transition o.status assigned))
terminal_absorbs {first} {o} final life =
    let (none_changed, same) = terminal_stays final life in
    let (no_transition, no_assign) = terminal_refuses o (ground arith) in
    (none_changed, same.status, same.courier_id, no_transition, no_assign)
