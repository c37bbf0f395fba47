-- ===== src/Billing/Interleaving.antt =====
-- Requests that run at the same time. One step is one transaction of one request; what the
-- request read before its transaction is arbitrary, as if it were read at any time. Only the
-- booking of a succeeded payment is taken with the total that its order has at the lock.
use crm_system_backend.Prelude.{ℕ, ◌≡◌, ◌≢◌, ◌%◌, Option, none, some, false}
use crm_system_backend.Prelude.Results.{ok, Ensures-ok}
use crm_system_backend.Prelude.Int.{ℤ}
use crm_system_backend.Shared.Workflow.{OrderStatus, succeeded, same_payment}
use crm_system_backend.Shared.Access.{AuthUser}
use crm_system_backend.Billing.Money.{number, Rounds, Nearest}
use crm_system_backend.Billing.Store.{
  Env, Order, Payment, Db, payment_created, find_order, find_payment, delete_order, delete_payment,
}
use crm_system_backend.Billing.Orders
use crm_system_backend.Billing.Orders.{
  CreateOrderDto, UpdateOrderDto, ChangeOrderStatusDto, update_order, write_status, recalc_order,
}
use crm_system_backend.Billing.Payments.{
  CreatePaymentDto, ChangePaymentStatusDto, create_succeeded, book_payment, confirm, overwrite,
}
use crm_system_backend.Shared.Workflow.{pending}
use crm_system_backend.Billing.Solvency.{IsSound}
use crm_system_backend.Billing.Solvency.Orders.{
  create-Sound, update_order-Sound, write_status-Sound, recalc_order-IsSound, delete_order-IsSound,
}
use crm_system_backend.Billing.Solvency.Payments.{
  create_succeeded-Sound, create_pending-Sound, confirm-Sound, overwrite-Sound,
  delete_payment-IsSound,
}

pub data Step (db : Db) : Db → Type 0 where
  creates_order :
      {db' : Db} (env : Env) (dto : CreateOrderDto) (actor : Option ℕ) (o : Order)
      → Orders.create env dto actor db ≡ ok (o, db')
      → Step db db'
  edits_order :
      {db' : Db} (env : Env) (id : ℕ) (dto : UpdateOrderDto) (o : Order)
      → Nearest env.round
      → Rounds env.column
      → update_order env id dto db ≡ ok (o, db')
      → Step db db'
  writes_status :
      {db' : Db} (id : ℕ) (from : OrderStatus) (dto : ChangeOrderStatusDto) (actor : AuthUser)
      → write_status id from dto actor db ≡ ok (tt, db')
      → Step db db'
  recalculates :
      (o : Order) (total paid : ℤ) (actor : Option ℕ) → Step db (recalc_order o total paid actor db)
  deletes_order : (id : ℕ) → Step db (delete_order id db)
  books_succeeded :
      {db' : Db} (env : Env) (dto : CreatePaymentDto) (actor : Option ℕ) (o : Order) (p : Payment)
      → Nearest env.round
      → dto.amount % 1000 ≢ 500
      → Rounds env.column
      → find_payment env.uuid db ≡ none
      → find_order dto.order_id db ≡ some o
      → create_succeeded env dto actor (number o.total) db ≡ ok (p, db')
      → Step db db'
  books_pending :
      {db' : Db} (env : Env) (dto : CreatePaymentDto) (actor : Option ℕ) (p : Payment)
      → find_payment env.uuid db ≡ none
      → book_payment env dto pending actor payment_created db ≡ ok (p, db')
      → Step db db'
  confirms :
      {db' : Db} (env : Env) (id : ℕ) (dto : ChangePaymentStatusDto) (actor : Option ℕ)
      (p : Payment)
      → Nearest env.round
      → confirm env id dto actor db ≡ ok (p, db')
      → Step db db'
  overwrites :
      {db' : Db} (id : ℕ) (dto : ChangePaymentStatusDto) (actor : Option ℕ) (existing p : Payment)
      → same_payment dto.status succeeded ≡ false
      → overwrite id dto actor existing db ≡ ok (p, db')
      → Step db db'
  deletes_payment : (id : ℕ) → Step db (delete_payment id db)

pub data Reach (db : Db) : Db → Type 0 where
  here : Reach db db
  next : {db' db'' : Db} → Reach db db' → Step db' db'' → Reach db db''

abbrev SoundPair : {A : Type 0} → A × Db → Type 0
SoundPair r = IsSound r.1

Step-IsSound : {db db' : Db} → Step db db' → IsSound db → IsSound db'
Step-IsSound (creates_order env dto actor o e) s =
    Ensures-ok SoundPair _ _ (create-Sound env dto actor _ s) e
Step-IsSound (edits_order env id dto o near r e) s =
    Ensures-ok SoundPair _ _ (update_order-Sound env id dto _ near r s) e
Step-IsSound (writes_status id from dto actor e) s =
    Ensures-ok SoundPair _ _ (write_status-Sound id from dto actor _ s) e
Step-IsSound (recalculates o total paid actor) s = recalc_order-IsSound o total paid actor _ s
Step-IsSound (deletes_order id) s = delete_order-IsSound id _ s
Step-IsSound (books_succeeded env dto actor o p near tie r fresh found e) s =
    Ensures-ok SoundPair _ _ (create_succeeded-Sound env dto actor o _ near tie r fresh found s) e
Step-IsSound (books_pending env dto actor p fresh e) s =
    Ensures-ok SoundPair _ _ (create_pending-Sound env dto actor _ fresh s) e
Step-IsSound (confirms env id dto actor p near e) s =
    Ensures-ok SoundPair _ _ (confirm-Sound env id dto actor _ near s) e
Step-IsSound (overwrites id dto actor existing p other e) s =
    Ensures-ok SoundPair _ _ (overwrite-Sound id dto actor existing _ other s) e
Step-IsSound (deletes_payment id) s = delete_payment-IsSound id _ s

-- Whatever transactions of whatever requests follow one another, no order is ever paid beyond
-- its total, provided that each succeeded payment is booked with the total that its order has at
-- that moment and is not of an amount halfway between two hundredths, that the doubles and the
-- columns round to the nearest hundredth, and that new payments get new uuids.
pub Reach-IsSound : {db db' : Db} → IsSound db → Reach db db' → IsSound db'
Reach-IsSound s here = s
Reach-IsSound s (next r st) = Step-IsSound st (Reach-IsSound s r)
