-- ===== src/Billing/Service/Solvency.antt =====
-- Served one after another, the requests keep every order solvent.
use crm_system_backend.Prelude.{
  ℕ, ◌≡◌, ◌≢◌, ◌%◌, ◌∙◌, ap, arith, true, or_else, Option, some, List, [], ◌∷◌, inl, inr,
  Bool-cases, not, any, if◌then◌else◌,
}
use crm_system_backend.Prelude.Results.{
  Result, ok, err, Ensures, Ensures-ok, >>=-Ensures, or_throw-Ensures, throw_if-Ensures, not_found,
  bad_request,
}
use crm_system_backend.Shared.Workflow.{PaymentStatus, pending, succeeded, same_payment, same_order}
use crm_system_backend.Shared.Access.{AuthUser}
use crm_system_backend.Billing.Money.{number, Nearest}
use crm_system_backend.Billing.Store.{
  Env, Order, Payment, Db, find_order, find_payment, payments_of,
}
use crm_system_backend.Billing.Orders
use crm_system_backend.Billing.Orders.{
  ChangeOrderStatusDto, check_status, write_status, moved_money, recalc_status,
}
use crm_system_backend.Billing.Payments
use crm_system_backend.Billing.Payments.{
  CreatePaymentDto, ChangePaymentStatusDto, create_succeeded, book_payment, initial_status,
  commit_create, commit_change, confirm, overwrite, may_become, is_removable,
}
use crm_system_backend.Billing.Solvency.{IsSound}
use crm_system_backend.Billing.Solvency.Orders.{
  create-Sound, update_order-Sound, write_status-Sound, recalc_status-IsSound, delete_order-IsSound,
}
use crm_system_backend.Billing.Solvency.Payments.{
  create_succeeded-Sound, create_pending-Sound, confirm-Sound, overwrite-Sound,
  delete_payment-IsSound,
}
use crm_system_backend.Billing.Service.{
  Request, post_order, patch_order, patch_order_status, delete_order, post_payment,
  patch_payment_status, post_refund, delete_payment, after, serve, run, IsFresh, AllFresh, HasNoTie,
  AllNearest,
}

abbrev SoundPair : {A : Type 0} → A × Db → Type 0
SoundPair r = IsSound r.1

abbrev Sound : {A : Type 0} → Result (A × Db) → Type 0
Sound = Ensures SoundPair

after-IsSound :
    {A : Type 0} (db : Db) (r : Result (A × Db)) → IsSound db → Sound r → IsSound (after db r)
after-IsSound db (ok a) s h = h
after-IsSound db (err e) s h = s

change_order_status-Sound :
    (id : ℕ) (dto : ChangeOrderStatusDto) (u : AuthUser) (db : Db)
    → IsSound db
    → Sound (Orders.change_status id dto u db)
unfolding Orders.change_status
change_order_status-Sound id dto u db s = or_throw-Ensures P (find_order id db) not_found _ λ o _.
    elim (Bool-cases (same_order o.status dto.status)) [
      | inl e ↦ rw e s
      | inr e ↦
          rw e (
            >>=-Ensures P (check_status dto u o) _ λ _ _. write_status-Sound id o.status dto u db s)
    ]
  where
    P : Unit {0} × Db → Type 0
    P r = IsSound r.1

remove_order-Sound : (id : ℕ) (db : Db) → IsSound db → Sound (Orders.remove id db)
unfolding Orders.remove
remove_order-Sound id db s = or_throw-Ensures P (find_order id db) not_found _ λ o _.
    throw_if-Ensures P (any moved_money (payments_of id db)) bad_request _
      λ _. delete_order-IsSound id db s
  where
    P : Unit {0} × Db → Type 0
    P r = IsSound r.1

commit_create-Sound :
    (env : Env) (dto : CreatePaymentDto) (actor : Option ℕ) (o : Order) (status : PaymentStatus)
    (db : Db)
    → Nearest env.round
    → (same_payment status succeeded ≡ true → dto.amount % 1000 ≢ 500)
    → IsFresh env db
    → find_order dto.order_id db ≡ some o
    → IsSound db
    → Sound (commit_create env dto actor o status db)
unfolding commit_create
commit_create-Sound env dto actor o status db near tie f found s =
    elim (Bool-cases (same_payment status succeeded)) [
      | inl e ↦ rw e (
          >>=-Ensures P (create_succeeded env dto actor (number o.total) db) _ λ r booked.
            recalc_status-IsSound dto.order_id actor r.1 (
              Ensures-ok P _ r
                (create_succeeded-Sound env dto actor o db near (tie e) f.rounds f.new_payment found
                  s)
                booked))
      | inr e ↦ rw e (create_pending-Sound env dto actor db f.new_payment s)
    ]
  where
    P : Payment × Db → Type 0
    P r = IsSound r.1

initial :
    (dto : CreatePaymentDto) (o : Order) (status : PaymentStatus)
    → initial_status dto o ≡ ok status
    → or_else dto.status pending ≡ status
unfolding initial_status
initial dto o status e = ground arith

create_payment-Sound :
    (env : Env) (dto : CreatePaymentDto) (actor : Option ℕ) (db : Db)
    → Nearest env.round
    → (same_payment (or_else dto.status pending) succeeded ≡ true → dto.amount % 1000 ≢ 500)
    → IsFresh env db
    → IsSound db
    → Sound (Payments.create env dto actor db)
unfolding Payments.create
create_payment-Sound env dto actor db near tie f s =
    or_throw-Ensures P (find_order dto.order_id db) not_found _ λ o found.
      >>=-Ensures P (initial_status dto o) _ λ status e.
        commit_create-Sound env dto actor o status db near
          (λ k. tie (ap (λ t. same_payment t succeeded) (initial dto o status e) ∙ k)) f found s
  where
    P : Payment × Db → Type 0
    P r = IsSound r.1

change_payment_status-Sound :
    (env : Env) (id : ℕ) (dto : ChangePaymentStatusDto) (actor : Option ℕ) (db : Db)
    → Nearest env.round
    → IsSound db
    → Sound (Payments.change_status env id dto actor db)
unfolding Payments.change_status commit_change
change_payment_status-Sound env id dto actor db near s =
    or_throw-Ensures P (find_payment id db) not_found _ λ p _.
      elim (Bool-cases (same_payment p.status dto.status)) [
        | inl e ↦ rw e s
        | inr e ↦ rw e (
            throw_if-Ensures P (not (may_become p.status dto.status)) bad_request _ λ _.
              >>=-Ensures P _ _ λ r done.
                recalc_status-IsSound p.order_id actor r.1 (Ensures-ok P _ r (written p) done))
      ]
  where
    P : Payment × Db → Type 0
    P r = IsSound r.1

    written :
        (p : Payment)
        → Sound (
            if same_payment dto.status succeeded
            then confirm env id dto actor db
            else overwrite id dto actor p db)
    written p = elim (Bool-cases (same_payment dto.status succeeded)) [
      | inl e ↦ rw e (confirm-Sound env id dto actor db near s)
      | inr e ↦ rw e (overwrite-Sound id dto actor p db e s)
    ]

remove_payment-Sound : (id : ℕ) (db : Db) → IsSound db → Sound (Payments.remove id db)
unfolding Payments.remove
remove_payment-Sound id db s = or_throw-Ensures P (find_payment id db) not_found _ λ p _.
    throw_if-Ensures P (not (is_removable p.status)) bad_request _
      λ _. delete_payment-IsSound id db s
  where
    P : Unit {0} × Db → Type 0
    P r = IsSound r.1

-- Every request without a tie, whether it succeeds or throws, leaves every order paid at most to
-- its total.
pub serve-IsSound :
    (env : Env) (r : Request) (db : Db)
    → Nearest env.round
    → HasNoTie r
    → IsFresh env db
    → IsSound db
    → IsSound (serve env r db)
unfolding serve Payments.refund
serve-IsSound env (post_order dto u) db near tie f s =
    after-IsSound db _ s (create-Sound env dto (some u.id) db s)
serve-IsSound env (patch_order id dto) db near tie f s =
    after-IsSound db _ s (update_order-Sound env id dto db near f.rounds s)
serve-IsSound env (patch_order_status id dto u) db near tie f s =
    after-IsSound db _ s (change_order_status-Sound id dto u db s)
serve-IsSound env (delete_order id) db near tie f s =
    after-IsSound db _ s (remove_order-Sound id db s)
serve-IsSound env (post_payment dto u) db near tie f s =
    after-IsSound db _ s (create_payment-Sound env dto (some u.id) db near tie f s)
serve-IsSound env (patch_payment_status id dto u) db near tie f s =
    after-IsSound db _ s (change_payment_status-Sound env id dto (some u.id) db near s)
serve-IsSound env (post_refund id comment u) db near tie f s = after-IsSound db _ s (
    change_payment_status-Sound env id
      (record { status = PaymentStatus.refunded; comment = comment }) (some u.id) db near s)
serve-IsSound env (delete_payment id) db near tie f s =
    after-IsSound db _ s (remove_payment-Sound id db s)

-- Any sequence of requests, served one after another on a database in which no order is paid
-- beyond its total, ends in such a database, provided that no payment is booked at once with an
-- amount halfway between two hundredths, that the doubles and the columns round to the nearest
-- hundredth, and that the database gives out new uuids.
pub run-IsSound :
    (calls : List (Env × Request)) (db : Db)
    → AllNearest calls
    → AllFresh calls db
    → IsSound db
    → IsSound (run calls db)
unfolding run
run-IsSound [] db n f s = s
run-IsSound ((env, r) ∷ calls) db n f s =
    run-IsSound calls (serve env r db) n.1 f.1 (serve-IsSound env r db n.0.0 n.0.1 f.0 s)
