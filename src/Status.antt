-- ===== src/Status.antt =====
-- src/delivery_service/domain.py: the order statuses and the table of allowed transitions.
use innoprog_fastapi_deliver.Prelude.{
  String, ◌≡◌, ◌↔◌, Bool, true, false, List, [], ◌∷◌, arith, HasEquality, text_eq, ◌==◌, any_of,
}

pub data OrderStatus : Type 0 where
  created assigned picked_up delivered cancelled : OrderStatus

abbrev pub same_status : OrderStatus → OrderStatus → Bool
same_status created created = true
same_status assigned assigned = true
same_status picked_up picked_up = true
same_status delivered delivered = true
same_status cancelled cancelled = true
same_status _ _ = false

pub same_status_iff : (a b : OrderStatus) → (same_status a b ≡ true) ↔ (a ≡ b)
same_status_iff a b = ground arith

instance abbrev pub status_eq : HasEquality OrderStatus
status_eq = record { same = same_status; same_iff = same_status_iff }

-- The string values of the `StrEnum`.
abbrev pub status_value : OrderStatus → String
status_value created = "created"
status_value assigned = "assigned"
status_value picked_up = "picked_up"
status_value delivered = "delivered"
status_value cancelled = "cancelled"

-- ALLOWED_TRANSITIONS
abbrev pub allowed_transitions : OrderStatus → List OrderStatus
allowed_transitions created = assigned ∷ cancelled ∷ []
allowed_transitions assigned = picked_up ∷ cancelled ∷ []
allowed_transitions picked_up = delivered ∷ []
allowed_transitions delivered = []
allowed_transitions cancelled = []

-- OrderStateMachine.allows: `target in ALLOWED_TRANSITIONS[current]`
abbrev pub allows : OrderStatus → OrderStatus → Bool
allows current target = any_of (λ s. s == target) (allowed_transitions current)
