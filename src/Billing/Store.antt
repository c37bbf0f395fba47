-- ===== src/Billing/Store.antt =====
-- The tables that orders and payments live in (prisma/schema.prisma), and the calls that the
-- services make on them. A table is the list of its rows in the order of insertion. What the
-- database fills in by itself (a uuid, the time, the rounding of a decimal column) comes with
-- each call, in `Env`, and so does what `round2` makes of a sum of doubles; `updatedAt` is not kept. Uuids are only compared: they are numbers.
pub mod Rules
use crm_system_backend.Prelude.{
  ℕ, ◌+◌, Bool, not, Option, List, [], ◌∷◌, ◌++◌, String, ◌==◌, keep_if, find, update, erase, any,
}
use crm_system_backend.Prelude.Results.{Result, ok, ◌>>=◌, ◌>>◌, failed_write, or_throw}
use crm_system_backend.Prelude.Int.{ℤ}
use crm_system_backend.Shared.Workflow.{OrderStatus, PaymentStatus, same_payment, succeeded}
use crm_system_backend.Billing.Money.{number}

pub record Env : Type 0 where
  pub now : ℕ
  pub uuid : ℕ
  pub column : ℕ → ℕ
  pub round : ℤ → ℤ

pub data PaymentMethod : Type 0 where
  cash card transfer sbp other : PaymentMethod

-- `quantity` in thousandths, `price` in hundredths.
pub record OrderItem : Type 0 where
  pub name : String
  pub quantity : ℕ
  pub unit : Option String
  pub price : ℕ
  pub spec : Option String

pub record Order : Type 0 where
  pub id : ℕ
  pub order_number : ℕ
  pub deal_id : Option ℕ
  pub customer_id : ℕ
  pub created_by : Option ℕ
  pub total : ℕ
  pub status : OrderStatus
  pub comment : Option String
  pub items : List OrderItem
  pub created_at : ℕ

pub record Payment : Type 0 where
  pub id : ℕ
  pub order_id : ℕ
  pub amount : ℕ
  pub method : PaymentMethod
  pub status : PaymentStatus
  pub comment : Option String
  pub paid_at : Option ℕ
  pub created_by : Option ℕ
  pub created_at : ℕ

-- The comments of the history rows: a caller's text, or one of the texts in the code.
pub data Remark : Type 0 where
  said : String → Remark
  order_created auto_confirmed payment_created payment_succeeded : Remark
  recalculated : ℤ → ℤ → Remark

pub record OrderStatusHistory : Type 0 where
  pub order_id : ℕ
  pub from_status : Option OrderStatus
  pub to_status : OrderStatus
  pub changed_by : Option ℕ
  pub comment : Option Remark

pub record PaymentStatusHistory : Type 0 where
  pub payment_id : ℕ
  pub from_status : Option PaymentStatus
  pub to_status : PaymentStatus
  pub changed_by : Option ℕ
  pub comment : Option Remark

pub record DealItem : Type 0 where
  pub name : String
  pub quantity : ℕ
  pub unit : Option String
  pub spec : Option String

-- The columns of a deal that the creation of an order reads.
pub record DealSource : Type 0 where
  pub id : ℕ
  pub customer_id : ℕ
  pub price : ℕ
  pub items : List DealItem

pub record Db : Type 0 where
  pub orders : List Order
  pub payments : List Payment
  pub order_history : List OrderStatusHistory
  pub payment_history : List PaymentStatusHistory
  pub deals : List DealSource
  pub customers : List ℕ
  pub next_number : ℕ

abbrev pub order_key : Order → ℕ
order_key o = o.id

abbrev pub payment_key : Payment → ℕ
payment_key p = p.id

abbrev pub deal_key : DealSource → ℕ
deal_key d = d.id

abbrev pub customer_key : ℕ → ℕ
customer_key c = c

abbrev pub find_order : ℕ → Db → Option Order
find_order id db = find order_key id db.orders

abbrev pub find_payment : ℕ → Db → Option Payment
find_payment id db = find payment_key id db.payments

-- `include: { payments: ... }` of an order.
abbrev pub payments_of : ℕ → Db → List Payment
payments_of order_id db = keep_if (λ p. p.order_id == order_id) db.payments

abbrev pub is_succeeded : Payment → Bool
is_succeeded p = same_payment p.status succeeded

-- `.filter(p => p.status === 'SUCCEEDED').reduce((sum, p) => sum + Number(p.amount), 0)`.
unfoldable pub add_amounts : ℕ → List Payment → ℕ
add_amounts sum [] = sum
add_amounts sum (p ∷ ps) = add_amounts (sum + number p.amount) ps

unfoldable pub paid_sum : List Payment → ℕ
unfolding add_amounts
paid_sum ps = add_amounts 0 (keep_if is_succeeded ps)

-- `payment.create` and `order.update` reject when the row they point at is gone.
unfoldable pub insert_payment : Payment → Db → Result Db
insert_payment p db = do
  or_throw (find_order p.order_id db) failed_write
  ok (record db { payments = db.payments ++ p ∷ [] })

unfoldable pub change_payment : ℕ → (Payment → Payment) → Db → Result (Payment × Db)
change_payment id change db = do
  p ← or_throw (find_payment id db) failed_write
  ok (change p, record db { payments = update payment_key id change db.payments })

unfoldable pub change_order : ℕ → (Order → Order) → Db → Result (Order × Db)
change_order id change db = do
  o ← or_throw (find_order id db) failed_write
  ok (change o, record db { orders = update order_key id change db.orders })

abbrev pub log_order : OrderStatusHistory → Db → Db
log_order h db = record db { order_history = db.order_history ++ h ∷ [] }

abbrev pub log_payment : PaymentStatusHistory → Db → Db
log_payment h db = record db { payment_history = db.payment_history ++ h ∷ [] }

-- `payment.delete`, and the cascade onto its history.
unfoldable pub delete_payment : ℕ → Db → Db
delete_payment id db = record db {
  payments = erase payment_key id db.payments;
  payment_history = keep_if (λ h. not (h.payment_id == id)) db.payment_history;
}

-- `order.delete`, and the cascades onto its payments, their histories and its own.
unfoldable pub delete_order : ℕ → Db → Db
delete_order id db = record db {
  orders = erase order_key id db.orders;
  payments = keep_if (λ p. not (p.order_id == id)) db.payments;
  order_history = keep_if (λ h. not (h.order_id == id)) db.order_history;
  payment_history =
      keep_if (λ h. not (any (λ p. p.id == h.payment_id) (payments_of id db))) db.payment_history;
}
