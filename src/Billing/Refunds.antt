-- ===== src/Billing/Refunds.antt =====
-- Who may give money back: the roles of `POST /payments/:id/refund` and of
-- `PATCH /payments/:id/status` (libs/shared/src/constants/billing-permissions.constants.ts and
-- apps/api-gateway/src/modules/payments).
use crm_system_backend.Prelude.{
  ℕ, ◌≡◌, refl, true, false, Option, some, String, update, ◌+◌, ◌++◌, ◌∷◌, [], arith, or_else?,
  find-update_self,
}
use crm_system_backend.Billing.Paid.{
  paid_cents, paid_cents-update, counted-succeeded, counted-not_succeeded,
}
use crm_system_backend.Billing.Orders.Recalc.{recalc_status-KeepsPayments}
use crm_system_backend.Prelude.Results.{ok}
use crm_system_backend.Shared.Workflow.{PaymentStatus, succeeded}
use crm_system_backend.Shared.Access.{
  AuthUser, user, payment_permissions, refund_payment, change_payment_status, can_activate,
}
use crm_system_backend.Billing.Store.{
  Env, Payment, Db, find_payment, change_payment, log_payment, payment_key,
}
use crm_system_backend.Billing.Orders.{recalc_status, said?}
use crm_system_backend.Billing.Payments.{
  ChangePaymentStatusDto, change_status, commit_change, overwrite, overwrite_payment,
}

abbrev pub refund_dto : Option String → ChangePaymentStatusDto
refund_dto comment = record { status = PaymentStatus.refunded; comment = comment }

-- A user with the role USER is turned away by the guard of the refund route and let through by the
-- guard of the status route; and if that user names a payment that has succeeded, the status route
-- refunds it: the stored payment is REFUNDED, and is otherwise as it was but for the comment; its
-- amount is no longer counted as paid; and the one history row that is written names the user.
pub user_refunds_by_status :
    (env : Env) (u : AuthUser) (id : ℕ) (comment : Option String) (p : Payment) (db : Db)
    → u.role ≡ user
    → find_payment id db ≡ some p
    → p.status ≡ succeeded
    → let q : Payment = record p {
      status = PaymentStatus.refunded;
      comment = or_else? comment p.comment;
    } in
      (can_activate (some (payment_permissions refund_payment)) (some u) ≡ false)
      × (can_activate (some (payment_permissions change_payment_status)) (some u) ≡ true)
      × (db' : Db) × (change_status env id (refund_dto comment) (some u.id) db ≡ ok (q, db'))
      × (find_payment id db' ≡ some q)
      × (paid_cents p.order_id db'.payments + p.amount ≡ paid_cents p.order_id db.payments)
      × (db'.payment_history
          ≡ db.payment_history
            ++ record {
              payment_id = id;
              from_status = some succeeded;
              to_status = PaymentStatus.refunded;
              changed_by = some u.id;
              comment = said? comment;
            }
              ∷ [])
unfolding can_activate change_status commit_change overwrite change_payment
user_refunds_by_status env u id comment p db role found was =
    let dto = refund_dto comment in
    let written : Db =
      log_payment
        (record {
          payment_id = id;
          from_status = some p.status;
          to_status = PaymentStatus.refunded;
          changed_by = some u.id;
          comment = said? comment;
        })
        (record db { payments = update payment_key id (overwrite_payment dto p) db.payments }) in
    let kept = recalc_status-KeepsPayments p.order_id (some u.id) written in
    (
      rw role,
      rw role,
      recalc_status p.order_id (some u.id) written,
      rw found (rw was refl),
      rw kept.0 (
          find-update_self payment_key id (overwrite_payment dto p) db.payments p (λ x. refl)
            found),
      rw kept.0 (
          omega (
            arith,
            paid_cents-update p.order_id id (overwrite_payment dto p) db.payments p found,
            counted-succeeded p (rw was),
            counted-not_succeeded p.order_id (overwrite_payment dto p p) refl,
          )),
      rw kept.1 (rw was refl),
    )
