-- ===== src/Billing/Service/History.antt =====
-- Served one after another, the requests keep each order's history a chain up to its status.
use crm_system_backend.Prelude.{
  ℕ, Option, some, List, [], ◌∷◌, inl, inr, Bool-cases, not, if◌then◌else◌,
}
use crm_system_backend.Prelude.Results.{
  Ensures-ok, >>=-Ensures, or_throw-Ensures, throw_if-Ensures, not_found, bad_request,
}
use crm_system_backend.Shared.Workflow.{PaymentStatus, pending, succeeded, same_payment}
use crm_system_backend.Billing.Money.{number}
use crm_system_backend.Billing.Store
use crm_system_backend.Billing.Store.{
  Env, Order, Payment, Remark, Db, order_key, find_order, find_payment, payments_of,
  payment_created, paid_sum, PaymentStatusHistory, log_payment, payment_key,
}
use crm_system_backend.Billing.Store.Rules.{insert_payment-Ensures, change_payment-Ensures}
use crm_system_backend.Billing.Orders.{is_closed}
use crm_system_backend.Billing.Payments
use crm_system_backend.Billing.Payments.{
  CreatePaymentDto, ChangePaymentStatusDto, create_succeeded, book_payment, initial_status,
  commit_create, commit_change, confirm, overwrite, may_become, is_removable, new_payment, overpays,
  order_paid_sum, confirm_payment, overwrite_payment, order_paid_sum_except,
}
use crm_system_backend.Billing.Audit.{IsAudited}
use crm_system_backend.Billing.Service.{
  Request, post_order, patch_order, patch_order_status, delete_order, post_payment,
  patch_payment_status, post_refund, delete_payment, serve, run, IsFresh, AllFresh,
}
use crm_system_backend.Billing.Service.Audit.{
  Audited, AuditedPair, after-IsAudited, payments-IsAudited, recalc_status-IsAudited,
  create_order-Audited, update_order-Audited, change_order_status-Audited, remove_order-Audited,
}

book_payment-Audited :
    (env : Env) (dto : CreatePaymentDto) (status : PaymentStatus) (actor : Option ℕ) (why : Remark)
    (db : Db)
    → IsAudited db
    → Audited (book_payment env dto status actor why db)
unfolding book_payment
book_payment-Audited env dto status actor why db a =
    insert_payment-Ensures AuditedPair (new_payment env dto status actor) db _
      λ o _. payments-IsAudited _ _ db a

create_succeeded-Audited :
    (env : Env) (dto : CreatePaymentDto) (actor : Option ℕ) (total : ℕ) (db : Db)
    → IsAudited db
    → Audited (create_succeeded env dto actor total db)
unfolding create_succeeded
create_succeeded-Audited env dto actor total db a =
    throw_if-Ensures AuditedPair
      (overpays env.round (order_paid_sum dto.order_id db) dto.amount total) bad_request _
      λ _. book_payment-Audited env dto succeeded actor _ db a

create_payment-Audited :
    (env : Env) (dto : CreatePaymentDto) (actor : Option ℕ) (db : Db)
    → IsAudited db
    → Audited (Payments.create env dto actor db)
unfolding Payments.create commit_create
create_payment-Audited env dto actor db a =
    or_throw-Ensures P (find_order dto.order_id db) not_found _ λ o _.
      >>=-Ensures P (initial_status dto o) _ λ status _.
        elim (Bool-cases (same_payment status succeeded)) [
          | inl e ↦ rw e (
              >>=-Ensures P (create_succeeded env dto actor (number o.total) db) _ λ r booked.
                recalc_status-IsAudited dto.order_id actor r.1
                  (Ensures-ok P _ r (create_succeeded-Audited env dto actor _ db a) booked))
          | inr e ↦ rw e (book_payment-Audited env dto pending actor _ db a)
        ]
  where
    P : Payment × Db → Type 0
    P r = IsAudited r.1

confirm-Audited :
    (env : Env) (id : ℕ) (dto : ChangePaymentStatusDto) (actor : Option ℕ) (db : Db)
    → IsAudited db
    → Audited (confirm env id dto actor db)
unfolding confirm
confirm-Audited env id dto actor db a = or_throw-Ensures P (find_payment id db) not_found _ λ p _.
    throw_if-Ensures P (not (may_become p.status succeeded)) bad_request _ λ _.
      or_throw-Ensures P (find_order p.order_id db) not_found _ λ o _.
        throw_if-Ensures P (is_closed o.status) bad_request _ λ _.
          throw_if-Ensures P
            (overpays env.round (order_paid_sum_except p.order_id p.id db) (number p.amount)
              (number o.total))
            bad_request _
            λ _.
              change_payment-Ensures P id (confirm_payment env dto) db _
                λ q _. payments-IsAudited _ _ db a
  where
    P : Payment × Db → Type 0
    P r = IsAudited r.1

overwrite-Audited :
    (id : ℕ) (dto : ChangePaymentStatusDto) (actor : Option ℕ) (existing : Payment) (db : Db)
    → IsAudited db
    → Audited (overwrite id dto actor existing db)
unfolding overwrite
overwrite-Audited id dto actor existing db a =
    change_payment-Ensures AuditedPair id (overwrite_payment dto existing) db _
      λ p _. payments-IsAudited _ _ db a

change_payment_status-Audited :
    (env : Env) (id : ℕ) (dto : ChangePaymentStatusDto) (actor : Option ℕ) (db : Db)
    → IsAudited db
    → Audited (Payments.change_status env id dto actor db)
unfolding Payments.change_status commit_change
change_payment_status-Audited env id dto actor db a =
    or_throw-Ensures P (find_payment id db) not_found _ λ p _.
      elim (Bool-cases (same_payment p.status dto.status)) [
        | inl e ↦ rw e a
        | inr e ↦ rw e (
            throw_if-Ensures P (not (may_become p.status dto.status)) bad_request _ λ _.
              >>=-Ensures P _ _ λ r done.
                recalc_status-IsAudited p.order_id actor r.1 (Ensures-ok P _ r (written p) done))
      ]
  where
    P : Payment × Db → Type 0
    P r = IsAudited r.1

    written :
        (p : Payment)
        → Audited (
            if same_payment dto.status succeeded
            then confirm env id dto actor db
            else overwrite id dto actor p db)
    written p = elim (Bool-cases (same_payment dto.status succeeded)) [
      | inl e ↦ rw e (confirm-Audited env id dto actor db a)
      | inr e ↦ rw e (overwrite-Audited id dto actor p db a)
    ]

remove_payment-Audited : (id : ℕ) (db : Db) → IsAudited db → Audited (Payments.remove id db)
unfolding Payments.remove Store.delete_payment
remove_payment-Audited id db a = or_throw-Ensures P (find_payment id db) not_found _ λ p _.
    throw_if-Ensures P (not (is_removable p.status)) bad_request _ λ _. payments-IsAudited _ _ db a
  where
    P : Unit {0} × Db → Type 0
    P r = IsAudited r.1

serve-IsAudited :
    (env : Env) (r : Request) (db : Db) → IsFresh env db → IsAudited db → IsAudited (serve env r db)
unfolding serve Payments.refund
serve-IsAudited env (post_order dto u) db f a =
    after-IsAudited db _ a (create_order-Audited env dto (some u.id) db f a)
serve-IsAudited env (patch_order id dto) db f a =
    after-IsAudited db _ a (update_order-Audited env id dto db a)
serve-IsAudited env (patch_order_status id dto u) db f a =
    after-IsAudited db _ a (change_order_status-Audited id dto u db a)
serve-IsAudited env (delete_order id) db f a = after-IsAudited db _ a (remove_order-Audited id db a)
serve-IsAudited env (post_payment dto u) db f a =
    after-IsAudited db _ a (create_payment-Audited env dto (some u.id) db a)
serve-IsAudited env (patch_payment_status id dto u) db f a =
    after-IsAudited db _ a (change_payment_status-Audited env id dto (some u.id) db a)
serve-IsAudited env (post_refund id comment u) db f a = after-IsAudited db _ a (
    change_payment_status-Audited env id
      (record { status = PaymentStatus.refunded; comment = comment }) (some u.id) db a)
serve-IsAudited env (delete_payment id) db f a =
    after-IsAudited db _ a (remove_payment-Audited id db a)

-- After any sequence of requests, served one after another with new uuids, the rows of
-- order_status_history of each order form a chain: the first leaves no status, each later one
-- leaves the status that the row before it entered, and the last entered the order's present
-- status. An order that is not there has no rows.
pub run-IsAudited :
    (calls : List (Env × Request)) (db : Db)
    → AllFresh calls db
    → IsAudited db
    → IsAudited (run calls db)
unfolding run
run-IsAudited [] db f a = a
run-IsAudited ((env, r) ∷ calls) db f a =
    run-IsAudited calls (serve env r db) f.1 (serve-IsAudited env r db f.0 a)
