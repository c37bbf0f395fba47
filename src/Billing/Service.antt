-- ===== src/Billing/Service.antt =====
-- The routes of OrdersController and PaymentsController that write
-- (apps/api-gateway/src/modules/orders/orders.controller.ts, payments/payments.controller.ts),
-- served one after another. A request that throws leaves the database as it was.
pub mod Solvency
pub mod Audit
pub mod History
use crm_system_backend.Prelude.{
  ℕ, ◌≡◌, ◌≢◌, ◌%◌, true, or_else, Option, none, some, List, [], ◌∷◌, String,
}
use crm_system_backend.Prelude.Results.{Result, ok, err}
use crm_system_backend.Shared.Access.{AuthUser}
use crm_system_backend.Shared.Workflow.{pending, succeeded, same_payment}
use crm_system_backend.Billing.Money.{Rounds, Nearest}
use crm_system_backend.Billing.Store.{Env, Db, find_order, find_payment}
use crm_system_backend.Billing.Orders
use crm_system_backend.Billing.Orders.{
  CreateOrderDto, UpdateOrderDto, ChangeOrderStatusDto, update_order,
}
use crm_system_backend.Billing.Payments
use crm_system_backend.Billing.Payments.{CreatePaymentDto, ChangePaymentStatusDto}

pub data Request : Type 0 where
  post_order : CreateOrderDto → AuthUser → Request
  patch_order : ℕ → UpdateOrderDto → Request
  patch_order_status : ℕ → ChangeOrderStatusDto → AuthUser → Request
  delete_order : ℕ → Request
  post_payment : CreatePaymentDto → AuthUser → Request
  patch_payment_status : ℕ → ChangePaymentStatusDto → AuthUser → Request
  post_refund : ℕ → Option String → AuthUser → Request
  delete_payment : ℕ → Request

-- The database after a call.
abbrev pub after : {A : Type 0} → Db → Result (A × Db) → Db
after db (ok (_, db')) = db'
after db (err e) = db

unfoldable pub serve : Env → Request → Db → Db
serve env (post_order dto u) db = after db (Orders.create env dto (some u.id) db)
serve env (patch_order id dto) db = after db (update_order env id dto db)
serve env (patch_order_status id dto u) db = after db (Orders.change_status id dto u db)
serve env (delete_order id) db = after db (Orders.remove id db)
serve env (post_payment dto u) db = after db (Payments.create env dto (some u.id) db)
serve env (patch_payment_status id dto u) db =
    after db (Payments.change_status env id dto (some u.id) db)
serve env (post_refund id comment u) db = after db (Payments.refund env id (some u.id) comment db)
serve env (delete_payment id) db = after db (Payments.remove id db)

unfoldable pub run : List (Env × Request) → Db → Db
run [] db = db
run ((env, r) ∷ calls) db = run calls (serve env r db)

-- The database rounds decimals as documented, and hands out a uuid that no row has.
pub record IsFresh (env : Env) (db : Db) : Type 0 where
  pub rounds : Rounds env.column
  pub new_order : find_order env.uuid db ≡ none
  pub new_payment : find_payment env.uuid db ≡ none

-- A payment that is booked at once is not of an amount halfway between two hundredths.
abbrev pub HasNoTie : Request → Type 0
HasNoTie (post_payment dto u) =
    same_payment (or_else dto.status pending) succeeded ≡ true → dto.amount % 1000 ≢ 500
HasNoTie (post_order dto u) = Unit
HasNoTie (patch_order id dto) = Unit
HasNoTie (patch_order_status id dto u) = Unit
HasNoTie (delete_order id) = Unit
HasNoTie (patch_payment_status id dto u) = Unit
HasNoTie (post_refund id comment u) = Unit
HasNoTie (delete_payment id) = Unit

-- The doubles round to the nearest hundredth, and no call has a tie.
abbrev pub AllNearest : List (Env × Request) → Type 0
AllNearest [] = Unit
AllNearest ((env, r) ∷ calls) = (Nearest env.round × HasNoTie r) × AllNearest calls

abbrev pub AllFresh : List (Env × Request) → Db → Type 0
AllFresh [] db = Unit
AllFresh ((env, r) ∷ calls) db = IsFresh env db × AllFresh calls (serve env r db)
