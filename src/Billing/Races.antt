-- ===== src/Billing/Races.antt =====
-- What the reads outside the transactions of PaymentsService cost.
use crm_system_backend.Prelude.{
  ℕ, ◌+◌, ◌≤◌, ◌<◌, ◌≡◌, refl, ap, ◌≢◌, Option, none, some, false, true, arith, ◌++◌, ◌∷◌, [],
  update, or_else,
}
use crm_system_backend.Prelude.Results.{ok}
use crm_system_backend.Prelude.Int.{ℤ, parts_disjoint, pos, ◌+ℤ◌, ◌-ℤ◌, int_laws, pos_part}
use crm_system_backend.Shared.Workflow.{pending, succeeded}
use crm_system_backend.Billing.Money.{number, round2, Rounds, round2-number, Nearest}
use crm_system_backend.Billing.Store.{
  Env, Order, Payment, Db, find_order, find_payment, insert_payment, change_payment,
  payment_succeeded, log_payment, is_succeeded, payment_key,
}
use crm_system_backend.Billing.Paid.{
  counted-succeeded, paid_cents, paid_sum-payments_of, paid_cents-append, paid_cents-update,
  counted-not_succeeded,
}
use crm_system_backend.Billing.Payments.{
  CreatePaymentDto, ChangePaymentStatusDto, create_succeeded, overpays, order_paid_sum, new_payment,
  book_payment, overwrite, overwrite_payment, may_become,
}
use crm_system_backend.Billing.Orders.{said?}
use crm_system_backend.Billing.Solvency.{IsSound, limit_found}

-- The test of `create` passes whenever the total that was read would carry the payment.
passes :
    (round : ℤ → ℤ) (c amount total : ℕ)
    → Nearest round
    → number c + amount ≤ total
    → overpays round (round2 (pos (number c))) amount total ≡ false
unfolding overpays
passes round c amount total near h =
    let x = pos (number c) +ℤ pos amount -ℤ pos total in
    let none_over : pos_part x ≡ 0 = omega (int_laws, parts_disjoint x) in
    let small : pos_part (round x) ≡ 0 = omega (arith, near.above x, near.whole x, none_over) in
    rw (round2-number c) (ground (arith, small))

-- What the transaction of `create` writes once its test passes.
booked :
    (env : Env) (dto : CreatePaymentDto) (actor : Option ℕ) (total : ℕ) (o : Order) (db : Db)
    → find_order dto.order_id db ≡ some o
    → overpays env.round (order_paid_sum dto.order_id db) dto.amount total ≡ false
    → let p = new_payment env dto succeeded actor in
      (db' : Db) × (create_succeeded env dto actor total db ≡ ok (p, db'))
      × (db'.payments ≡ db.payments ++ p ∷ [])
      × (db'.orders ≡ db.orders)
unfolding create_succeeded book_payment insert_payment new_payment
booked env dto actor total o db found test = (
  record db {
    payments = db.payments ++ new_payment env dto succeeded actor ∷ [];
    payment_history =
        db.payment_history
        ++ record {
          payment_id = env.uuid;
          from_status = none;
          to_status = succeeded;
          changed_by = actor;
          comment = some (or_else (said? dto.comment) payment_succeeded);
        }
          ∷ [];
  },
  rw (test, found),
  refl,
  refl,
)

-- `create` tests a payment against the total that it read before it took the lock. If the order
-- `o` was given a lower total in between, so that the payment fits under the total that was read
-- but no longer under the total of `o`, the payment is booked all the same, and the order is paid
-- beyond its total. The amount is a whole number of hundredths, so that storing it changes
-- nothing.
pub stale_total_overpays :
    (env : Env) (dto : CreatePaymentDto) (actor : Option ℕ) (read o : Order) (cents : ℕ) (db : Db)
    → Nearest env.round
    → Rounds env.column
    → find_order dto.order_id db ≡ some o
    → dto.amount ≡ number cents
    → paid_cents dto.order_id db.payments + cents ≤ read.total
    → o.total < paid_cents dto.order_id db.payments + cents
    → (p : Payment) × (db' : Db) × (create_succeeded env dto actor (number read.total) db
        ≡ ok (p, db'))
      × ¬ IsSound db'
unfolding order_paid_sum new_payment
stale_total_overpays env dto actor read o cents db near rounds found whole fits low =
    let p = new_payment env dto succeeded actor in
    let test : overpays env.round (order_paid_sum dto.order_id db) dto.amount (number read.total)
        ≡ false =
      rw paid_sum-payments_of (passes env.round _ _ _ near (omega arith)) in
    let (db', done, ps, os) = booked env dto actor (number read.total) o db found test in
    (
      p,
      db',
      done,
      λ s. omega (
        arith,
        rw (ps, os) at (s.solvent dto.order_id),
        limit_found dto.order_id db.orders o found,
        paid_cents-append dto.order_id db.payments p,
        counted-succeeded p refl,
        rounds.lower (number cents),
        ap env.column whole,
      ),
    )

-- Likewise `changeStatus` tests the transition on the payment that it read before its
-- transaction. A payment that was read while PENDING, and confirmed since, is overwritten with
-- CANCELLED or FAILED, a transition that PAYMENT_STATUS_TRANSITIONS does not have: the money that
-- came in is no longer counted. The one history row that is written says that the payment went from
-- PENDING to the new status.
pub stale_status_drops_payment :
    (id : ℕ) (dto : ChangePaymentStatusDto) (actor : Option ℕ) (read p : Payment) (db : Db)
    → find_payment id db ≡ some p
    → p.status ≡ succeeded
    → read.status ≡ pending
    → may_become read.status dto.status ≡ true
    → dto.status ≢ succeeded
    → let q = overwrite_payment dto read p in
      (db' : Db) × (overwrite id dto actor read db ≡ ok (q, db'))
      × (may_become p.status q.status ≡ false)
      × (db'.payment_history
          ≡ db.payment_history
            ++ record {
              payment_id = id;
              from_status = some pending;
              to_status = dto.status;
              changed_by = actor;
              comment = said? dto.comment;
            }
              ∷ [])
      × (paid_cents p.order_id db'.payments + p.amount ≡ paid_cents p.order_id db.payments)
unfolding overwrite change_payment
stale_status_drops_payment id dto actor read p db found was is_pending allowed other =
    let q = overwrite_payment dto read p in
    let gone : is_succeeded q ≡ false = ground arith in
    let counts : is_succeeded p ≡ true = rw was in
    (
      log_payment
          (record {
            payment_id = id;
            from_status = some read.status;
            to_status = dto.status;
            changed_by = actor;
            comment = said? dto.comment;
          })
          (record db { payments = update payment_key id (overwrite_payment dto read) db.payments }),
      rw found,
      rw was (ground arith),
      rw is_pending refl,
      omega (
        arith,
        paid_cents-update p.order_id id (overwrite_payment dto read) db.payments p found,
        counted-succeeded p counts,
        counted-not_succeeded p.order_id q gone,
      ),
    )
