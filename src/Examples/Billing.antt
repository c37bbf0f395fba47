-- ===== src/Examples/Billing.antt =====
-- Orders and payments at concrete inputs: one order of 100.00, of which 60.00 is paid.
use crm_system_backend.Prelude.{All, ℕ, ◌+◌, ◌/◌, ◌≤◌, ◌≡◌, refl, false, none, some, [], ◌∷◌, arith}
use crm_system_backend.Prelude.Results.{ok}
use crm_system_backend.Prelude.Int.{pos}
use crm_system_backend.Shared.Workflow.{OrderStatus, PaymentStatus, confirmed, pending, succeeded}
use crm_system_backend.Shared.Access.{AuthUser, manager}
use crm_system_backend.Billing.Money.{Rounds, round2, round2-Nearest, number}
use crm_system_backend.Billing.Store.{
  Env, Order, Payment, PaymentMethod, Db, find_order, delete_payment,
}
use crm_system_backend.Billing.Orders.{CreateOrderDto, set_status, recalc_status, recalc_order}
use crm_system_backend.Billing.Payments.{
  CreatePaymentDto, ChangePaymentStatusDto, create_succeeded, overwrite, overwrite_payment,
  may_become,
}
use crm_system_backend.Billing.Paid.{counted, paid_cents}
use crm_system_backend.Billing.Solvency.{IsSound, limit}
use crm_system_backend.Billing.Interleaving.{
  here, next, recalculates, deletes_payment, Reach-IsSound,
}
use crm_system_backend.Billing.Service.{post_payment, post_order, IsFresh, run}
use crm_system_backend.Billing.Service.Solvency.{run-IsSound}
use crm_system_backend.Billing.Service.History.{run-IsAudited}
use crm_system_backend.Billing.Audit.{IsAudited}
use crm_system_backend.Billing.Settlement.{IsSettled, recalc_status_settles}
use crm_system_backend.Billing.Views.{OrderQuery, find_all_orders}
use crm_system_backend.Billing.Shown.{AgreesWith, shown_orders_agree}
use crm_system_backend.Billing.Races.{stale_total_overpays, stale_status_drops_payment}

abbrev column : ℕ → ℕ
column n = (n + 500) / 1000

column-Rounds : Rounds column
column-Rounds = record { lower = λ n. omega arith; upper = λ n. omega arith }

abbrev env : Env
env = record { now = 100; uuid = 9; column = column; round = round2 }

abbrev order : Order
order = record {
  id = 1;
  order_number = 1;
  deal_id = none;
  customer_id = 5;
  created_by = none;
  total = 10000;
  status = confirmed;
  comment = none;
  items = [];
  created_at = 10;
}

abbrev payment : Payment
payment = record {
  id = 2;
  order_id = 1;
  amount = 6000;
  method = PaymentMethod.card;
  status = succeeded;
  comment = none;
  paid_at = some 20;
  created_by = none;
  created_at = 20;
}

abbrev shop : Db
shop = record {
  orders = order ∷ [];
  payments = payment ∷ [];
  order_history = [];
  payment_history = [];
  deals = [];
  customers = 5 ∷ [];
  next_number = 2;
}

shop_solvent : (o : ℕ) → paid_cents o shop.payments ≤ limit o shop.orders
unfolding counted
shop_solvent o = ground arith

shop-IsSound : IsSound shop
shop-IsSound = record { unique_payments = (refl, tt); solvent = shop_solvent }

abbrev clerk : AuthUser
clerk = record { id = 7; email = "clerk@example.com"; role = manager }

-- 40.00 more, booked at once.
abbrev rest_dto : CreatePaymentDto
rest_dto = record {
  order_id = 1;
  amount = 4000000;
  method = none;
  status = some succeeded;
  comment = none;
}

fresh : IsFresh env shop
fresh = record { rounds = column-Rounds; new_order = refl; new_payment = refl }

run-IsSound_example : IsSound (run ((env, post_payment rest_dto clerk) ∷ []) shop)
run-IsSound_example =
    run-IsSound ((env, post_payment rest_dto clerk) ∷ []) shop ((round2-Nearest, λ e k. cc), tt)
      (fresh, tt) shop-IsSound

-- The deletion of the payment and then a recalculation from an old reading.
Reach-IsSound_example :
    IsSound (recalc_order order (pos 10000000) (pos 6000000) none (delete_payment 2 shop))
Reach-IsSound_example =
    Reach-IsSound shop-IsSound
      (next (next here (deletes_payment 2)) (recalculates order (pos 10000000) (pos 6000000) none))

-- The total was 100.00 when it was read, and is 80.00 at the lock.
abbrev cut_shop : Db
cut_shop = record shop { orders = record order { total = 8000 } ∷ [] }

stale_total_overpays_example :
    (p : Payment) × (db' : Db) × (create_succeeded env rest_dto none (number 10000) cut_shop
      ≡ ok (p, db'))
    × ¬ IsSound db'
unfolding counted
stale_total_overpays_example =
    stale_total_overpays env rest_dto none order (record order { total = 8000 }) 4000 cut_shop
      round2-Nearest column-Rounds refl refl (omega arith) (omega arith)

abbrev cancel_dto : ChangePaymentStatusDto
cancel_dto = record { status = PaymentStatus.cancelled; comment = none }

-- Payment 2 was PENDING when it was read, and is SUCCEEDED now.
abbrev stale_payment : Payment
stale_payment = record payment { status = pending; paid_at = none }

stale_status_drops_payment_example :
    (db' : Db) × (overwrite 2 cancel_dto none stale_payment shop
      ≡ ok (overwrite_payment cancel_dto stale_payment payment, db'))
    × (may_become succeeded PaymentStatus.cancelled ≡ false)
    × (db'.payment_history
        ≡ record {
          payment_id = 2;
          from_status = some pending;
          to_status = PaymentStatus.cancelled;
          changed_by = none;
          comment = none;
        }
          ∷ [])
    × (paid_cents 1 db'.payments + 6000 ≡ paid_cents 1 shop.payments)
stale_status_drops_payment_example =
    stale_status_drops_payment 2 cancel_dto none stale_payment payment shop refl refl refl refl
      (λ e. cc)

recalc_status_settles_example :
    (s : OrderStatus) × (find_order 1 (recalc_status 1 none shop) ≡ some (set_status s order))
    × IsSettled s 10000 (paid_cents 1 shop.payments)
recalc_status_settles_example = recalc_status_settles 1 none order shop refl refl

-- The history of an empty shop, and a first order by hand.
abbrev empty_shop : Db
empty_shop = record {
  orders = [];
  payments = [];
  order_history = [];
  payment_history = [];
  deals = [];
  customers = 5 ∷ [];
  next_number = 1;
}

abbrev order_dto : CreateOrderDto
order_dto = record {
  deal_id = none;
  customer_id = some 5;
  total = some (pos 10000000);
  comment = none;
  items = none;
}

empty_shop-IsAudited : IsAudited empty_shop
empty_shop-IsAudited = record { unique_orders = tt; chained = λ id. tt; current = λ id. refl }

run-IsAudited_example : IsAudited (run ((env, post_order order_dto clerk) ∷ []) empty_shop)
run-IsAudited_example =
    run-IsAudited ((env, post_order order_dto clerk) ∷ []) empty_shop
      (record { rounds = column-Rounds; new_order = refl; new_payment = refl }, tt)
      empty_shop-IsAudited

empty_shop-IsSound : IsSound empty_shop
empty_shop-IsSound = record { unique_payments = tt; solvent = λ o. omega arith }

abbrev all_orders : OrderQuery
all_orders = record { status = none; customer_id = none; deal_id = none }

shown_orders_agree_example :
    All
      (AgreesWith round2 (run ((env, post_order order_dto clerk) ∷ []) empty_shop))
      (find_all_orders all_orders (run ((env, post_order order_dto clerk) ∷ []) empty_shop))
shown_orders_agree_example =
    shown_orders_agree round2 ((env, post_order order_dto clerk) ∷ []) empty_shop all_orders
      ((round2-Nearest, tt), tt)
      (record { rounds = column-Rounds; new_order = refl; new_payment = refl }, tt)
      empty_shop-IsSound empty_shop-IsAudited
