-- ===== src/Billing/Payments.antt =====
-- PaymentsService (apps/api-gateway/src/modules/payments/payments.service.ts). `create` and
-- `changeStatus` read outside their transactions: the read, the transaction and the status
-- recalculation after it are functions of their own, so that what others do in between can be
-- said; `create` and `change_status` run them without an interruption.
use crm_system_backend.Prelude.{
  ℕ, Bool, not, ◌&&◌, ◌||◌, Option, none, some, String, ◌==◌, if◌then◌else◌, keep_if, or_else,
  or_else?,
}
use crm_system_backend.Prelude.Results.{
  Result, ok, ◌>>=◌, ◌>>◌, bad_request, not_found, or_throw, throw_if,
}
use crm_system_backend.Prelude.Int.{ℤ, pos, ◌-ℤ◌, ltb_ℤ, ◌+ℤ◌}
use crm_system_backend.Shared.Workflow.{
  PaymentStatus, pending, succeeded, failed, same_payment, payment_status_transitions,
  includes_payment,
}
use crm_system_backend.Billing.Money.{number, round2}
use crm_system_backend.Billing.Store.{
  Env, PaymentMethod, transfer, Order, Payment, Remark, payment_created, payment_succeeded, Db,
  payments_of, paid_sum, find_order, find_payment, insert_payment, change_payment, log_payment,
  delete_payment,
}
use crm_system_backend.Billing.Orders.{recalc_status, is_closed, said?}

-- CreatePaymentDto, ChangePaymentStatusDto. The amount is positive (`@Min(0.01)`).
pub record CreatePaymentDto : Type 0 where
  pub order_id : ℕ
  pub amount : ℕ
  pub method : Option PaymentMethod
  pub status : Option PaymentStatus
  pub comment : Option String

pub record ChangePaymentStatusDto : Type 0 where
  pub status : PaymentStatus
  pub comment : Option String

-- `orderPaidSumInTransaction`, with and without `excludePaymentId`.
unfoldable pub order_paid_sum : ℕ → Db → ℤ
order_paid_sum order_id db = round2 (pos (paid_sum (payments_of order_id db)))

unfoldable pub order_paid_sum_except : ℕ → ℕ → Db → ℤ
order_paid_sum_except order_id except db =
    round2 (pos (paid_sum (keep_if (λ p. not (p.id == except)) (payments_of order_id db))))

-- `round2(paid + amount - total) > 0`. The amount need not be a whole number of hundredths, so
-- `round` is what the doubles make of the sum.
unfoldable pub overpays : (ℤ → ℤ) → ℤ → ℕ → ℕ → Bool
overpays round paid_amount amount total =
    ltb_ℤ (pos 0) (round (paid_amount +ℤ pos amount -ℤ pos total))

unfoldable pub new_payment : Env → CreatePaymentDto → PaymentStatus → Option ℕ → Payment
new_payment env dto status actor = record {
  id = env.uuid;
  order_id = dto.order_id;
  amount = env.column dto.amount;
  method = or_else dto.method transfer;
  status = status;
  comment = dto.comment;
  paid_at = if same_payment status succeeded then some env.now else none;
  created_by = actor;
  created_at = env.now;
}

-- `payment.create` and the first row of its history.
unfoldable pub book_payment :
    Env → CreatePaymentDto → PaymentStatus → Option ℕ → Remark → Db → Result (Payment × Db)
book_payment env dto status actor why db = do
  let p = new_payment env dto status actor
  db' ← insert_payment p db
  ok (
    p,
    log_payment
        (record {
          payment_id = p.id;
          from_status = none;
          to_status = status;
          changed_by = actor;
          comment = some (or_else (said? dto.comment) why);
        })
        db',
  )

-- The transaction of `create` for SUCCEEDED. `total` is that of the order that was read before
-- the lock.
unfoldable pub create_succeeded : Env → CreatePaymentDto → Option ℕ → ℕ → Db → Result (Payment × Db)
create_succeeded env dto actor total db = do
  throw_if (overpays env.round (order_paid_sum dto.order_id db) dto.amount total) bad_request
  book_payment env dto succeeded actor payment_succeeded db

-- The checks of `create` on the order that it read, and the status that the payment begins with.
unfoldable pub initial_status : CreatePaymentDto → Order → Result PaymentStatus
initial_status dto o = do
  throw_if (is_closed o.status) bad_request
  let status = or_else dto.status pending
  throw_if (not (same_payment status pending) && not (same_payment status succeeded)) bad_request
  ok status

-- The rest of `create`, once the order `o` is read and checked.
unfoldable pub commit_create :
    Env → CreatePaymentDto → Option ℕ → Order → PaymentStatus → Db → Result (Payment × Db)
commit_create env dto actor o status db =
    if same_payment status succeeded
    then (do
      (p, db') ← create_succeeded env dto actor (number o.total) db
      ok (p, recalc_status dto.order_id actor db'))
    else book_payment env dto pending actor payment_created db

-- `create`.
unfoldable pub create : Env → CreatePaymentDto → Option ℕ → Db → Result (Payment × Db)
create env dto actor db = do
  o ← or_throw (find_order dto.order_id db) not_found
  status ← initial_status dto o
  commit_create env dto actor o status db

abbrev pub may_become : PaymentStatus → PaymentStatus → Bool
may_become s t = includes_payment (payment_status_transitions s) t

abbrev pub confirm_payment : Env → ChangePaymentStatusDto → Payment → Payment
confirm_payment env dto p = record p {
  status = succeeded;
  comment = or_else? dto.comment p.comment;
  paid_at = some (or_else p.paid_at env.now);
}

-- The transaction of `changeStatus` for SUCCEEDED: the payment and its order are read again under
-- the lock.
unfoldable pub confirm : Env → ℕ → ChangePaymentStatusDto → Option ℕ → Db → Result (Payment × Db)
confirm env id dto actor db = do
  current ← or_throw (find_payment id db) not_found
  throw_if (not (may_become current.status succeeded)) bad_request
  o ← or_throw (find_order current.order_id db) not_found
  throw_if (is_closed o.status) bad_request
  throw_if
      (overpays env.round (order_paid_sum_except current.order_id current.id db)
        (number current.amount) (number o.total))
      bad_request
  (p, db') ← change_payment id (confirm_payment env dto) db
  ok (
    p,
    log_payment
        (record {
          payment_id = id;
          from_status = some current.status;
          to_status = succeeded;
          changed_by = actor;
          comment = said? dto.comment;
        })
        db',
  )

abbrev pub overwrite_payment : ChangePaymentStatusDto → Payment → Payment → Payment
overwrite_payment dto existing p = record p {
  status = dto.status;
  comment = or_else? dto.comment existing.comment;
  paid_at = if same_payment dto.status pending then none else existing.paid_at;
}

-- The transaction of `changeStatus` for the other statuses. `existing` is the payment that was
-- read before it.
unfoldable pub overwrite :
    ℕ → ChangePaymentStatusDto → Option ℕ → Payment → Db → Result (Payment × Db)
overwrite id dto actor existing db = do
  (p, db') ← change_payment id (overwrite_payment dto existing) db
  ok (
    p,
    log_payment
        (record {
          payment_id = id;
          from_status = some existing.status;
          to_status = dto.status;
          changed_by = actor;
          comment = said? dto.comment;
        })
        db',
  )

-- The rest of `changeStatus`, once the payment `existing` is read.
unfoldable pub commit_change :
    Env → ℕ → ChangePaymentStatusDto → Option ℕ → Payment → Db → Result (Payment × Db)
commit_change env id dto actor existing db = do
  throw_if (not (may_become existing.status dto.status)) bad_request
  (p, db') ←
      (if same_payment dto.status succeeded
        then confirm env id dto actor db
        else overwrite id dto actor existing db)
  ok (p, recalc_status existing.order_id actor db')

-- `changeStatus`.
unfoldable pub change_status :
    Env → ℕ → ChangePaymentStatusDto → Option ℕ → Db → Result (Payment × Db)
change_status env id dto actor db = do
  existing ← or_throw (find_payment id db) not_found
  if same_payment existing.status dto.status
      then ok (existing, db)
      else commit_change env id dto actor existing db

-- `refund`.
unfoldable pub refund : Env → ℕ → Option ℕ → Option String → Db → Result (Payment × Db)
refund env id actor comment db =
    change_status env id (record { status = PaymentStatus.refunded; comment = comment }) actor db

abbrev pub is_removable : PaymentStatus → Bool
is_removable s =
    same_payment s pending || same_payment s failed || same_payment s PaymentStatus.cancelled

-- `remove`.
unfoldable pub remove : ℕ → Db → Result (Unit {0} × Db)
remove id db = do
  existing ← or_throw (find_payment id db) not_found
  throw_if (not (is_removable existing.status)) bad_request
  ok (tt, delete_payment id db)
