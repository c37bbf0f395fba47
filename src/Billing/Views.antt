-- ===== src/Billing/Views.antt =====
-- What the reads of orders and payments show: `findAll` and `findOne` of
-- apps/api-gateway/src/modules/orders/orders.service.ts and payments/payments.service.ts. The names
-- of customers, deals and users, which are only copied, are left out.
use crm_system_backend.Prelude.{
  ℕ, ◌*◌, Bool, true, ◌&&◌, Option, none, some, List, map, String, ◌==◌, keep_if, same_id?,
}
use crm_system_backend.Prelude.Results.{Result, ok, ◌>>=◌, not_found, or_throw}
use crm_system_backend.Prelude.Int.{ℤ, pos}
use crm_system_backend.Prelude.Sort.{newest_first}
use crm_system_backend.Shared.Workflow.{OrderStatus, PaymentStatus, same_order, same_payment}
use crm_system_backend.Billing.Store.{
  Order, OrderItem, Payment, OrderStatusHistory, PaymentStatusHistory, Db, find_order, find_payment,
  payments_of,
}
use crm_system_backend.Billing.Orders.{OrderSums, order_sums}

-- The query of the list of orders, and of the list of payments.
pub record OrderQuery : Type 0 where
  pub status : Option OrderStatus
  pub customer_id : Option ℕ
  pub deal_id : Option ℕ

pub record PaymentQuery : Type 0 where
  pub order_id : Option ℕ
  pub status : Option PaymentStatus

abbrev pub matches_order : OrderQuery → Order → Bool
matches_order q o =
    (elim q.status [ none ↦ true | some s ↦ same_order o.status s ])
    && (elim q.customer_id [ none ↦ true | some c ↦ o.customer_id == c ])
    && (elim q.deal_id [ none ↦ true | some d ↦ same_id? o.deal_id d ])

-- `toListDto`.
pub record OrderListDto : Type 0 where
  pub id : ℕ
  pub order_number : ℕ
  pub deal_id : Option ℕ
  pub customer_id : ℕ
  pub sums : OrderSums
  pub status : OrderStatus
  pub comment : Option String
  pub created_at : ℕ

abbrev pub to_list_dto : Db → Order → OrderListDto
to_list_dto db o = record {
  id = o.id;
  order_number = o.order_number;
  deal_id = o.deal_id;
  customer_id = o.customer_id;
  sums = order_sums o db;
  status = o.status;
  comment = o.comment;
  created_at = o.created_at;
}

abbrev pub number_of : Order → ℕ
number_of o = o.order_number

-- `findAll` of the orders: the highest number first.
unfoldable pub find_all_orders : OrderQuery → Db → List OrderListDto
find_all_orders q db =
    map (to_list_dto db) (newest_first number_of (keep_if (matches_order q) db.orders))

-- A position as it is shown: quantity and price as they are stored, and their product, which need
-- not be a whole number of hundredths: `round` is what the doubles make of it.
pub record LineDto : Type 0 where
  pub item : OrderItem
  pub line_total : ℤ

unfoldable pub line_of : (ℤ → ℤ) → OrderItem → LineDto
line_of round i = record { item = i; line_total = round (pos (i.price * i.quantity)) }

abbrev pub payment_time : Payment → ℕ
payment_time p = p.created_at

-- A payment with its history, as both services show it.
pub record PaymentDto : Type 0 where
  pub payment : Payment
  pub status_history : List PaymentStatusHistory

abbrev pub payment_dto : Db → Payment → PaymentDto
payment_dto db p = record {
  payment = p;
  status_history = keep_if (λ h. h.payment_id == p.id) db.payment_history;
}

-- `findOne` of the orders.
pub record OrderDto : Type 0 where
  pub order : Order
  pub sums : OrderSums
  pub lines : List LineDto
  pub payments : List PaymentDto
  pub status_history : List OrderStatusHistory

unfoldable pub to_order_dto : (ℤ → ℤ) → Db → Order → OrderDto
to_order_dto round db o = record {
  order = o;
  sums = order_sums o db;
  lines = map (line_of round) o.items;
  payments = map (payment_dto db) (newest_first payment_time (payments_of o.id db));
  status_history = keep_if (λ h. h.order_id == o.id) db.order_history;
}

unfoldable pub find_one_order : (ℤ → ℤ) → ℕ → Db → Result OrderDto
find_one_order round id db = do
  o ← or_throw (find_order id db) not_found
  ok (to_order_dto round db o)

-- `findAll` of the payments, each with the columns of its order, and `findOne`.
abbrev pub matches_payment : PaymentQuery → Payment → Bool
matches_payment q p =
    (elim q.order_id [ none ↦ true | some o ↦ p.order_id == o ])
    && (elim q.status [ none ↦ true | some s ↦ same_payment p.status s ])

pub record PaymentListDto : Type 0 where
  pub payment : Payment
  pub order : Option Order

unfoldable pub find_all_payments : PaymentQuery → Db → List PaymentListDto
find_all_payments q db =
    map (λ p. record { payment = p; order = find_order p.order_id db })
      (newest_first payment_time (keep_if (matches_payment q) db.payments))

unfoldable pub find_one_payment : ℕ → Db → Result PaymentDto
find_one_payment id db = do p ← or_throw (find_payment id db) not_found; ok (payment_dto db p)
