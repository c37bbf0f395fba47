-- ===== src/Shared/Workflow.antt =====
-- libs/shared/src/constants/billing-workflow.constants.ts and the status enums of
-- prisma/schema.prisma.
use crm_system_backend.Prelude.{ℕ, ◌≡◌, Bool, true, List, [], ◌∷◌, arith, ◌==◌, any}

pub data OrderStatus : Type 0 where
  draft confirmed partially_paid paid cancelled refunded : OrderStatus

pub data PaymentStatus : Type 0 where
  pending succeeded failed cancelled refunded : PaymentStatus

abbrev pub order_index : OrderStatus → ℕ
order_index draft = 0
order_index confirmed = 1
order_index partially_paid = 2
order_index paid = 3
order_index OrderStatus.cancelled = 4
order_index OrderStatus.refunded = 5

abbrev pub payment_index : PaymentStatus → ℕ
payment_index pending = 0
payment_index succeeded = 1
payment_index failed = 2
payment_index PaymentStatus.cancelled = 3
payment_index PaymentStatus.refunded = 4

-- `===` on two statuses.
abbrev pub same_order : OrderStatus → OrderStatus → Bool
same_order s t = order_index s == order_index t

abbrev pub same_payment : PaymentStatus → PaymentStatus → Bool
same_payment s t = payment_index s == payment_index t

pub same_order→eq : (s t : OrderStatus) → same_order s t ≡ true → s ≡ t
same_order→eq s t h = ground arith

pub same_payment→eq : (s t : PaymentStatus) → same_payment s t ≡ true → s ≡ t
same_payment→eq s t h = ground arith

-- ORDER_STATUS_TRANSITIONS: the manual transitions.
abbrev pub order_status_transitions : OrderStatus → List OrderStatus
order_status_transitions draft = confirmed ∷ OrderStatus.cancelled ∷ []
order_status_transitions confirmed = partially_paid ∷ paid ∷ OrderStatus.cancelled ∷ []
order_status_transitions partially_paid = paid ∷ OrderStatus.cancelled ∷ OrderStatus.refunded ∷ []
order_status_transitions paid = OrderStatus.refunded ∷ []
order_status_transitions OrderStatus.cancelled = []
order_status_transitions OrderStatus.refunded = []

-- ORDER_ADMIN_ONLY_STATUSES.
abbrev pub order_admin_only_statuses : List OrderStatus
order_admin_only_statuses = OrderStatus.cancelled ∷ OrderStatus.refunded ∷ []

-- PAYMENT_STATUS_TRANSITIONS.
abbrev pub payment_status_transitions : PaymentStatus → List PaymentStatus
payment_status_transitions pending = succeeded ∷ failed ∷ PaymentStatus.cancelled ∷ []
payment_status_transitions failed = pending ∷ []
payment_status_transitions succeeded = PaymentStatus.refunded ∷ []
payment_status_transitions PaymentStatus.cancelled = []
payment_status_transitions PaymentStatus.refunded = []

-- `Array.includes`.
abbrev pub includes_order : List OrderStatus → OrderStatus → Bool
includes_order xs s = any (λ t. same_order t s) xs

abbrev pub includes_payment : List PaymentStatus → PaymentStatus → Bool
includes_payment xs s = any (λ t. same_payment t s) xs
