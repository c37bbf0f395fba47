-- ===== src/Billing/Solvency/Payments.antt =====
-- The transactions of PaymentsService keep every order solvent.
use crm_system_backend.Prelude.{
  ℕ, ◌+◌, ◌-◌, ◌%◌, ◌≤◌, ◌≡◌, ◌≢◌, refl, false, not, Option, none, some, [], ◌∷◌, ◌++◌, arith, ◌==◌,
  keep_if, update, Unique, find-key, append-Unique, update-Unique, erase-Unique,
}
use native.Mathlib.Decide.{ℕ_discrete}
use crm_system_backend.Prelude.Results.{
  Result, Ensures, or_throw-Ensures, throw_if-Ensures, bad_request, not_found,
}
use crm_system_backend.Prelude.Int.{pos}
use crm_system_backend.Shared.Workflow.{PaymentStatus, pending, succeeded, same_payment}
use crm_system_backend.Billing.Money.{number, round2, Rounds, Nearest}
use crm_system_backend.Billing.Store.{
  Env, Order, Payment, Db, payment_key, find_order, find_payment, payments_of, paid_sum, Remark,
  payment_created, delete_payment, log_payment, PaymentStatusHistory,
}
use crm_system_backend.Billing.Store.Rules.{insert_payment-Ensures, change_payment-Ensures}
use crm_system_backend.Billing.Paid.{
  counted, paid_cents, paid_sum-payments_of, paid_sum-except, paid_cents-append, paid_cents-update,
  paid_cents-erase-le, counted-other, counted-le, counted-not_succeeded,
}
use crm_system_backend.Billing.Payments.{
  CreatePaymentDto, ChangePaymentStatusDto, overpays, order_paid_sum, order_paid_sum_except,
  new_payment, book_payment, create_succeeded, confirm, confirm_payment, overwrite,
  overwrite_payment, may_become,
}
use crm_system_backend.Billing.Orders.{is_closed}
use crm_system_backend.Billing.Solvency.{IsSound, limit, limit_found, not-overpays, fits_rounded}

-- What holds of the database that a call returns.
abbrev SoundPair : {A : Type 0} → A × Db → Type 0
SoundPair r = IsSound r.1

abbrev pub Sound : {A : Type 0} → Result (A × Db) → Type 0
Sound = Ensures SoundPair

log-IsSound : (h : PaymentStatusHistory) (db : Db) → IsSound db → IsSound (log_payment h db)
log-IsSound h db s = record { unique_payments = s.unique_payments; solvent = s.solvent }

-- A payment under a fresh id that adds no more than the order can take.
insert-IsSound :
    (p : Payment) (db : Db)
    → find_payment p.id db ≡ none
    → paid_cents p.order_id db.payments + counted p.order_id p ≤ limit p.order_id db.orders
    → IsSound db
    → IsSound (record db { payments = db.payments ++ p ∷ [] })
insert-IsSound p db fresh fits s = record {
  unique_payments = append-Unique payment_key db.payments p s.unique_payments fresh;
  solvent = λ o. rw (paid_cents-append o db.payments p) (solvent o);
}
  where
    solvent : (o : ℕ) → paid_cents o db.payments + counted o p ≤ limit o db.orders
    solvent o = elim (ℕ_discrete p.order_id o) [
      | yes e ↦ rw (← e) fits
      | no e ↦ omega (arith, counted-other o p e, s.solvent o)
    ]

book_payment-Sound :
    (env : Env) (dto : CreatePaymentDto) (status : PaymentStatus) (actor : Option ℕ) (why : Remark)
    (db : Db)
    → find_payment env.uuid db ≡ none
    → paid_cents dto.order_id db.payments + counted dto.order_id (new_payment env dto status actor)
      ≤ limit dto.order_id db.orders
    → IsSound db
    → Sound (book_payment env dto status actor why db)
unfolding book_payment new_payment
book_payment-Sound env dto status actor why db fresh fits s =
    insert_payment-Ensures SoundPair (new_payment env dto status actor) db _
      λ o found. log-IsSound _ _ (insert-IsSound (new_payment env dto status actor) db fresh fits s)

-- The payment that is booked under the lock fits under the total that the test was made with.
pub create_succeeded-Sound :
    (env : Env) (dto : CreatePaymentDto) (actor : Option ℕ) (o : Order) (db : Db)
    → Nearest env.round
    → dto.amount % 1000 ≢ 500
    → Rounds env.column
    → find_payment env.uuid db ≡ none
    → find_order dto.order_id db ≡ some o
    → IsSound db
    → Sound (create_succeeded env dto actor (number o.total) db)
unfolding create_succeeded order_paid_sum new_payment
create_succeeded-Sound env dto actor o db near tie rounds fresh found s =
    throw_if-Ensures SoundPair
      (overpays env.round (order_paid_sum dto.order_id db) dto.amount (number o.total)) _ _
      λ test.
        book_payment-Sound env dto succeeded actor _ db fresh
          (omega (
            arith,
            limit_found dto.order_id db.orders o found,
            counted-le dto.order_id p,
            fits (rw paid_sum-payments_of at test),
          ))
          s
  where
    p : Payment
    p = new_payment env dto succeeded actor

    fits :
        overpays env.round
            (round2 (pos (number (paid_cents dto.order_id db.payments))))
            dto.amount
            (number o.total)
          ≡ false
        → paid_cents dto.order_id db.payments + env.column dto.amount ≤ o.total
    fits test =
        fits_rounded env.column _ dto.amount o.total rounds tie
          (not-overpays env.round _ _ _ near test)

-- A payment that is pending adds nothing.
pub create_pending-Sound :
    (env : Env) (dto : CreatePaymentDto) (actor : Option ℕ) (db : Db)
    → find_payment env.uuid db ≡ none
    → IsSound db
    → Sound (book_payment env dto pending actor payment_created db)
unfolding new_payment
create_pending-Sound env dto actor db fresh s =
    book_payment-Sound env dto pending actor payment_created db fresh
      (omega (
        arith,
        s.solvent dto.order_id,
        counted-not_succeeded dto.order_id (new_payment env dto pending actor) refl,
      ))
      s

-- A payment changed in place, where no order has more to carry than its total.
change-IsSound :
    (id : ℕ) (f : Payment → Payment) (p : Payment) (db : Db)
    → ((q : Payment) → (f q).id ≡ q.id)
    → find_payment id db ≡ some p
    → ((o : ℕ) → paid_cents o db.payments + counted o (f p) ≤ limit o db.orders + counted o p)
    → IsSound db
    → IsSound (record db { payments = update payment_key id f db.payments })
change-IsSound id f p db same found fits s = record {
  unique_payments = update-Unique payment_key id f db.payments same s.unique_payments;
  solvent = λ o. omega (arith, paid_cents-update o id f db.payments p found, fits o);
}

-- The test that leaves the payment itself out, once it passes, lets its order carry the amount.
confirm_fits :
    (env : Env) (dto : ChangePaymentStatusDto) (p : Payment) (o : Order) (db : Db)
    → Nearest env.round
    → Unique payment_key db.payments
    → find_payment p.id db ≡ some p
    → find_order p.order_id db ≡ some o
    → overpays env.round
        (order_paid_sum_except p.order_id p.id db)
        (number p.amount)
        (number o.total)
      ≡ false
    → paid_cents p.order_id db.payments + counted p.order_id (confirm_payment env dto p)
      ≤ limit p.order_id db.orders + counted p.order_id p
unfolding order_paid_sum_except
confirm_fits env dto p o db near unique found known test =
    let c = paid_cents p.order_id db.payments - counted p.order_id p in
    let rest = paid_sum-except p.order_id p.id db p unique found in
    let whole : paid_sum (keep_if (λ q. not (q.id == p.id)) (payments_of p.order_id db))
        ≡ number c =
      omega (arith, rest) in
    omega (
      arith,
      rest,
      limit_found p.order_id db.orders o known,
      counted-le p.order_id (confirm_payment env dto p),
      not-overpays env.round c (number p.amount) (number o.total) near (rw whole at test),
    )

-- The transaction that confirms a payment.
pub confirm-Sound :
    (env : Env) (id : ℕ) (dto : ChangePaymentStatusDto) (actor : Option ℕ) (db : Db)
    → Nearest env.round
    → IsSound db
    → Sound (confirm env id dto actor db)
unfolding confirm
confirm-Sound env id dto actor db near s =
    or_throw-Ensures P (find_payment id db) not_found _ λ p found.
      throw_if-Ensures P (not (may_become p.status succeeded)) bad_request _ λ _.
        or_throw-Ensures P (find_order p.order_id db) not_found _ λ o known.
          throw_if-Ensures P (is_closed o.status) bad_request _ λ _.
            throw_if-Ensures P
              (overpays env.round (order_paid_sum_except p.order_id p.id db) (number p.amount)
                (number o.total))
              bad_request _
              λ test. change_payment-Ensures P id (confirm_payment env dto) db _ λ q again.
                log-IsSound _ _ (
                  change-IsSound id (confirm_payment env dto) p db (λ r. refl) found
                    (fits p o found known test) s)
  where
    P : Payment × Db → Type 0
    P r = IsSound r.1

    fits :
        (p : Payment) (o : Order)
        → find_payment id db ≡ some p
        → find_order p.order_id db ≡ some o
        → overpays env.round
            (order_paid_sum_except p.order_id p.id db)
            (number p.amount)
            (number o.total)
          ≡ false
        → (n : ℕ)
        → paid_cents n db.payments + counted n (confirm_payment env dto p)
          ≤ limit n db.orders + counted n p
    fits p o found known test n =
        let key : p.id ≡ id = find-key payment_key id db.payments p found in
        elim (ℕ_discrete p.order_id n) [
          | yes e ↦
              rw (← e)
                (confirm_fits env dto p o db near s.unique_payments (simp key found) known test)
          | no e ↦ omega (arith, s.solvent n, counted-other n (confirm_payment env dto p) e)
        ]

-- The transaction for the other statuses, whatever was read before it: money only leaves.
pub overwrite-Sound :
    (id : ℕ) (dto : ChangePaymentStatusDto) (actor : Option ℕ) (existing : Payment) (db : Db)
    → same_payment dto.status succeeded ≡ false
    → IsSound db
    → Sound (overwrite id dto actor existing db)
unfolding overwrite
overwrite-Sound id dto actor existing db other s =
    change_payment-Ensures SoundPair id (overwrite_payment dto existing) db _ λ p found.
      log-IsSound _ _ (
        change-IsSound id (overwrite_payment dto existing) p db (λ q. refl) found (λ o. fits o p) s)
  where
    fits :
        (o : ℕ) (p : Payment)
        → paid_cents o db.payments + counted o (overwrite_payment dto existing p)
          ≤ limit o db.orders + counted o p
    fits o p =
        omega (arith, s.solvent o, counted-not_succeeded o (overwrite_payment dto existing p) other)

-- The deletion of a payment.
pub delete_payment-IsSound : (id : ℕ) (db : Db) → IsSound db → IsSound (delete_payment id db)
unfolding delete_payment
delete_payment-IsSound id db s = record {
  unique_payments = erase-Unique payment_key id db.payments s.unique_payments;
  solvent = λ o. omega (arith, s.solvent o, paid_cents-erase-le o id db.payments);
}
