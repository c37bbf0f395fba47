-- ===== src/Billing/Orders.antt =====
-- OrdersService (apps/api-gateway/src/modules/orders/orders.service.ts). A method takes the
-- database and returns its value with the new database, or the exception that it throws; nothing
-- is written before an exception. A method that reads before its transaction is two functions,
-- so that what others do in between can be said.
pub mod Recalc
use mathlib.Core.List.{foldl}
use crm_system_backend.Prelude.{
  ℕ, suc, ◌+◌, ◌*◌, Bool, true, false, not, ◌&&◌, ◌||◌, Option, none, some, List, [], ◌∷◌, ◌++◌,
  String, map, if◌then◌else◌, find, update, is_some, or_else, any,
}
use crm_system_backend.Prelude.Sent.{Sent, write_column}
use crm_system_backend.Prelude.Results.{
  Result, ok, err, ◌>>=◌, ◌>>◌, bad_request, not_found, or_throw, throw_if,
}
use crm_system_backend.Prelude.Int.{ℤ, pos, pos_part, ◌-ℤ◌, ltb_ℤ, leb_ℤ}
use crm_system_backend.Shared.Workflow.{
  OrderStatus, draft, confirmed, partially_paid, paid, same_order, order_status_transitions,
  order_admin_only_statuses, includes_order, same_payment, PaymentStatus,
}
use crm_system_backend.Shared.Access.{AuthUser, admin, same_role}
use crm_system_backend.Billing.Money.{number, round2}
use crm_system_backend.Billing.Store.{
  Env, OrderItem, Order, Payment, Remark, said, order_created, auto_confirmed, recalculated,
  DealItem, Db, deal_key, customer_key, find_order, payments_of, paid_sum, change_order, log_order,
  delete_order,
}

-- CreateOrderDto, UpdateOrderDto, ChangeOrderStatusDto. `total` is taken as it is sent, before
-- any check; the prices and quantities of the items are not negative (`@Min`).
pub record CreateOrderDto : Type 0 where
  pub deal_id : Option ℕ
  pub customer_id : Option ℕ
  pub total : Option ℤ
  pub comment : Option String
  pub items : Option (List OrderItem)

pub record UpdateOrderDto : Type 0 where
  pub comment : Sent String
  pub total : Option ℤ
  pub items : Option (List OrderItem)

pub record ChangeOrderStatusDto : Type 0 where
  pub status : OrderStatus
  pub comment : Option String

-- `itemsTotal`.
unfoldable pub items_total : List OrderItem → ℕ
items_total items = foldl (λ sum item. sum + item.price * item.quantity) 0 items

-- `paid` of `toListDto`, `findOne` and `recalcStatus`.
unfoldable pub order_paid : ℕ → Db → ℤ
order_paid id db = round2 (pos (paid_sum (payments_of id db)))

-- The sums of `toListDto` and of `findOne`; the other fields are copied.
pub record OrderSums : Type 0 where
  pub total : ℤ
  pub paid : ℤ
  pub remaining : ℤ

unfoldable pub order_sums : Order → Db → OrderSums
order_sums o db =
    let total = pos (number o.total) in
    let paid = order_paid o.id db in
    record { total = total; paid = paid; remaining = round2 (total -ℤ paid) }

-- Where the order comes from: the customer, and a deal's price and items.
pub record Source : Type 0 where
  pub customer_id : ℕ
  pub deal_price : Option ℕ
  pub deal_items : List DealItem

unfoldable pub order_source : CreateOrderDto → Db → Result Source
order_source dto db = elim dto.deal_id [
  | some d ↦ do
    deal ← or_throw (find deal_key d db.deals) not_found
    ok (record {
      customer_id = deal.customer_id;
      deal_price = some (number deal.price);
      deal_items = deal.items;
    })
  | none ↦ do
    c ← or_throw dto.customer_id not_found
    or_throw (find customer_key c db.customers) not_found
    ok (record { customer_id = c; deal_price = none; deal_items = [] })
]

-- A deal's item, priced 0.
abbrev pub snapshot : DealItem → OrderItem
snapshot i = record {
  name = i.name;
  quantity = i.quantity;
  unit = i.unit;
  price = 0;
  spec = i.spec;
}

abbrev pub is_nonempty {ℓ} : {A : Type ℓ} → List A → Bool
is_nonempty [] = false
is_nonempty (x ∷ xs) = true

-- The items that are stored: those of the request, else the deal's.
unfoldable pub order_items : List OrderItem → List DealItem → List OrderItem
order_items [] deal_items = map snapshot deal_items
order_items (i ∷ is) deal_items = i ∷ is

-- The total: the request's, else the sum of its items, else the deal's price.
unfoldable pub order_total :
    (ℤ → ℤ) → Option ℤ → List OrderItem → List OrderItem → Option ℕ → Result ℤ
order_total round (some t) explicit items price = ok t
order_total round none explicit items price =
    if is_nonempty items && is_nonempty explicit
    then ok (round (pos (items_total items)))
    else elim price [ some p ↦ ok (pos p) | none ↦ err bad_request ]

unfoldable pub new_order : Env → CreateOrderDto → Option ℕ → Source → ℤ → Db → Order
new_order env dto actor source total db = record {
  id = env.uuid;
  order_number = db.next_number;
  deal_id = dto.deal_id;
  customer_id = source.customer_id;
  created_by = actor;
  total = env.column (pos_part total);
  status = draft;
  comment = dto.comment;
  items = order_items (or_else dto.items []) source.deal_items;
  created_at = env.now;
}

abbrev insert_order : Order → Db → Db
insert_order o db = record db { orders = db.orders ++ o ∷ []; next_number = suc db.next_number }

-- `create`.
unfoldable pub create : Env → CreateOrderDto → Option ℕ → Db → Result (Order × Db)
create env dto actor db = do
  throw_if (is_some dto.deal_id && is_some dto.customer_id) bad_request
  throw_if (not (is_some dto.deal_id) && not (is_some dto.customer_id)) bad_request
  source ← order_source dto db
  let explicit = or_else dto.items []
  total ←
      order_total env.round dto.total explicit (order_items explicit source.deal_items)
        source.deal_price
  throw_if (ltb_ℤ total (pos 0)) bad_request
  let o = new_order env dto actor source total db
  ok (
    o,
    log_order
        (record {
          order_id = o.id;
          from_status = none;
          to_status = draft;
          changed_by = actor;
          comment = some order_created;
        })
        (insert_order o db),
  )

-- `nextTotal` of `update`.
unfoldable pub next_total : Env → UpdateOrderDto → Order → ℤ
next_total env dto o = elim dto.total [
  | some t ↦ t
  | none ↦ elim dto.items [
    | some items ↦ env.round (pos (items_total items))
    | none ↦ pos (number o.total)
  ]
]

-- The columns that `update` writes; `undefined` leaves one alone, and a null comment is stored.
unfoldable pub edit_order : Env → UpdateOrderDto → Order → Order
edit_order env dto o = record o {
  comment = write_column dto.comment o.comment;
  total =
      if is_some dto.total || is_some dto.items
      then env.column (pos_part (next_total env dto o))
      else o.total;
  items = or_else dto.items o.items;
}

abbrev pub is_editable : OrderStatus → Bool
is_editable s = same_order s draft || same_order s confirmed

-- `update`: read, checks and write are one transaction under `FOR UPDATE`.
unfoldable pub update_order : Env → ℕ → UpdateOrderDto → Db → Result (Order × Db)
update_order env id dto db = do
  existing ← or_throw (find_order id db) not_found
  throw_if (not (is_editable existing.status)) bad_request
  let total = next_total env dto existing
  throw_if (ltb_ℤ total (pos 0)) bad_request
  throw_if (ltb_ℤ (env.round (total -ℤ pos (paid_sum (payments_of id db)))) (pos 0)) bad_request
  change_order id (edit_order env dto) db

-- The guards of `changeStatus`, on the row that it read.
unfoldable pub check_status : ChangeOrderStatusDto → AuthUser → Order → Result (Unit {0})
check_status dto actor existing = do
  throw_if (not (includes_order (order_status_transitions existing.status) dto.status)) bad_request
  throw_if (includes_order order_admin_only_statuses dto.status && not (same_role actor.role admin))
      bad_request

abbrev pub said? : Option String → Option Remark
said? none = none
said? (some s) = some (said s)

abbrev pub set_status : OrderStatus → Order → Order
set_status s o = record o { status = s }

-- The transaction of `changeStatus`.
unfoldable pub write_status :
    ℕ → OrderStatus → ChangeOrderStatusDto → AuthUser → Db → Result (Unit {0} × Db)
write_status id from dto actor db = do
  (o, db') ← change_order id (set_status dto.status) db
  ok (
    tt,
    log_order
        (record {
          order_id = id;
          from_status = some from;
          to_status = dto.status;
          changed_by = some actor.id;
          comment = said? dto.comment;
        })
        db',
  )

-- `changeStatus`.
unfoldable pub change_status : ℕ → ChangeOrderStatusDto → AuthUser → Db → Result (Unit {0} × Db)
change_status id dto actor db = do
  existing ← or_throw (find_order id db) not_found
  if same_order existing.status dto.status
      then ok (tt, db)
      else (check_status dto actor existing >> write_status id existing.status dto actor db)

-- The status that the payments call for; `none` keeps the present one.
unfoldable pub derived_status : OrderStatus → ℤ → ℤ → Option OrderStatus
derived_status s total paid_amount =
    if ltb_ℤ (pos 0) total && leb_ℤ total paid_amount
    then some paid
    else if ltb_ℤ (pos 0) paid_amount
    then some partially_paid
    else if same_order s partially_paid || same_order s paid
    then some confirmed
    else none

abbrev pub is_closed : OrderStatus → Bool
is_closed s = same_order s OrderStatus.cancelled || same_order s OrderStatus.refunded

-- One `order.update` and its `orderStatusHistory.create` inside `recalcStatus`.
unfoldable pub move_order : ℕ → OrderStatus → OrderStatus → Option ℕ → Remark → Db → Db
move_order id from to actor why db =
    log_order
      (record {
        order_id = id;
        from_status = some from;
        to_status = to;
        changed_by = actor;
        comment = some why;
      })
      (record db { orders = update (λ o. o.id) id (set_status to) db.orders })

-- `viaConfirm`.
abbrev pub via_confirm : OrderStatus → OrderStatus → Bool
via_confirm from next =
    same_order from draft && (same_order next partially_paid || same_order next paid)

-- The transaction of `recalcStatus`.
unfoldable pub write_recalc : Order → OrderStatus → ℤ → ℤ → Option ℕ → Db → Db
write_recalc o next total paid_amount actor db =
    if via_confirm o.status next
    then move_order o.id confirmed next actor (recalculated paid_amount total)
        (move_order o.id draft confirmed actor auto_confirmed db)
    else move_order o.id o.status next actor (recalculated paid_amount total) db

-- `recalcStatus` once the order is read.
unfoldable pub recalc_order : Order → ℤ → ℤ → Option ℕ → Db → Db
recalc_order o total paid_amount actor db =
    if is_closed o.status then db else elim (derived_status o.status total paid_amount) [
      | none ↦ db
      | some next ↦
          if same_order next o.status then db else write_recalc o next total paid_amount actor db
    ]

-- `recalcStatus`.
unfoldable pub recalc_status : ℕ → Option ℕ → Db → Db
recalc_status id actor db = elim (find_order id db) [
  | none ↦ db
  | some o ↦ recalc_order o (pos (number o.total)) (order_paid id db) actor db
]

abbrev pub moved_money : Payment → Bool
moved_money p =
    same_payment p.status PaymentStatus.succeeded || same_payment p.status PaymentStatus.refunded

-- `remove`.
unfoldable pub remove : ℕ → Db → Result (Unit {0} × Db)
remove id db = do
  or_throw (find_order id db) not_found
  throw_if (any moved_money (payments_of id db)) bad_request
  ok (tt, delete_order id db)
