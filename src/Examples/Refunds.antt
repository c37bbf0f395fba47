-- ===== src/Examples/Refunds.antt =====
-- A refund by a user with the role USER.
use crm_system_backend.Prelude.{◌≡◌, refl, true, false, none, some, [], ◌∷◌, ◌+◌}
use crm_system_backend.Prelude.Results.{ok}
use crm_system_backend.Shared.Workflow.{PaymentStatus, succeeded, confirmed}
use crm_system_backend.Shared.Access.{
  AuthUser, user, payment_permissions, refund_payment, change_payment_status, can_activate,
}
use crm_system_backend.Billing.Store.{Env, Order, Payment, PaymentMethod, Db, find_payment}
use crm_system_backend.Billing.Payments.{change_status}
use crm_system_backend.Billing.Money.{round2}
use crm_system_backend.Billing.Paid.{paid_cents}
use crm_system_backend.Billing.Refunds.{refund_dto, user_refunds_by_status}

abbrev env : Env
env = record { now = 100; uuid = 9; column = λ n. n; round = round2 }

abbrev order : Order
order = record {
  id = 1;
  order_number = 1;
  deal_id = none;
  customer_id = 5;
  created_by = none;
  total = 10000;
  status = confirmed;
  comment = none;
  items = [];
  created_at = 10;
}

abbrev payment : Payment
payment = record {
  id = 2;
  order_id = 1;
  amount = 6000;
  method = PaymentMethod.card;
  status = succeeded;
  comment = none;
  paid_at = some 20;
  created_by = none;
  created_at = 20;
}

abbrev shop : Db
shop = record {
  orders = order ∷ [];
  payments = payment ∷ [];
  order_history = [];
  payment_history = [];
  deals = [];
  customers = 5 ∷ [];
  next_number = 2;
}

abbrev visitor : AuthUser
visitor = record { id = 7; email = "user@example.com"; role = user }

user_refunds_by_status_example :
    (can_activate (some (payment_permissions refund_payment)) (some visitor) ≡ false)
    × (can_activate (some (payment_permissions change_payment_status)) (some visitor) ≡ true)
    × (db' : Db) × (change_status env 2 (refund_dto none) (some 7) shop
        ≡ ok (record payment { status = PaymentStatus.refunded }, db'))
    × (find_payment 2 db' ≡ some (record payment { status = PaymentStatus.refunded }))
    × (paid_cents 1 db'.payments + 6000 ≡ paid_cents 1 shop.payments)
    × (db'.payment_history
        ≡ record {
          payment_id = 2;
          from_status = some succeeded;
          to_status = PaymentStatus.refunded;
          changed_by = some 7;
          comment = none;
        }
          ∷ [])
user_refunds_by_status_example =
    user_refunds_by_status env visitor 2 none payment shop refl refl refl
