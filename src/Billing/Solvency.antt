-- ===== src/Billing/Solvency.antt =====
-- No order is paid beyond its total: every transaction of the two services keeps this.
pub mod Payments
pub mod Orders
use crm_system_backend.Prelude.{
  ℕ, ◌+◌, ◌*◌, ◌%◌, ◌≤◌, ◌<◌, ◌≡◌, refl, ◌≢◌, Bool, true, false, not, ◌&&◌, ◌||◌, Option, none,
  some, List, [], ◌∷◌, ◌++◌, arith, ◌==◌, if◌then◌else◌, keep_if, find, update, erase, Unique, inl,
  inr, Option-cases, Bool-cases, find-key, append-Unique, update-Unique, erase-Unique,
  keep_if-Unique,
}
use crm_system_backend.Prelude.Results.{
  Result, ok, err, ◌>>=◌, ◌>>◌, Ensures, >>=-Ensures, or_throw-Ensures, throw_if-Ensures, or_throw,
  failed_write, bad_request, not_found,
}
use crm_system_backend.Prelude.Int.{
  ℤ, pos, pos_part, neg_part, ◌+ℤ◌, ◌-ℤ◌, ltb_ℤ, int_laws, +ℤ_parts, -ℤ_parts,
}
use crm_system_backend.Shared.Workflow.{OrderStatus, PaymentStatus, succeeded, same_payment}
use crm_system_backend.Billing.Money.{number, round2, Rounds, round2-number, Nearest}
use crm_system_backend.Billing.Store.{
  Env, Order, Payment, Db, order_key, payment_key, find_order, find_payment, payments_of, paid_sum,
  insert_payment, change_payment, change_order, OrderStatusHistory,
}
use crm_system_backend.Billing.Paid.{
  counted, paid_cents, paid_sum-payments_of, paid_sum-except, paid_cents-append, paid_cents-update,
  paid_cents-drop_order,
}
use crm_system_backend.Billing.Payments.{overpays, order_paid_sum, order_paid_sum_except}

-- The total of an order, and 0 for one that is not there.
abbrev pub limit : ℕ → List Order → ℕ
limit o orders = elim (find order_key o orders) [ none ↦ 0 | some r ↦ r.total ]

pub limit_found :
    (o : ℕ) (orders : List Order) (r : Order)
    → find order_key o orders ≡ some r
    → limit o orders ≡ r.total
limit_found o orders r h = rw (h, limit)

pub record IsSound (db : Db) : Type 0 where
  pub unique_payments : Unique payment_key db.payments
  pub solvent : (o : ℕ) → paid_cents o db.payments ≤ limit o db.orders

none_over : (x : ℤ) → ltb_ℤ (pos 0) x ≡ false → pos_part x ≡ 0
none_over x h = ground arith

none_owed : (x : ℤ) → ltb_ℤ x (pos 0) ≡ false → neg_part x ≡ 0
none_owed x h = ground arith

-- `overpays` read as an inequality, on a sum of whole hundredths.
pub not-overpays :
    (round : ℤ → ℤ) (c amount total : ℕ)
    → Nearest round
    → overpays round (round2 (pos (number c))) amount total ≡ false
    → number c + amount ≤ total + 500
unfolding overpays
not-overpays round c amount total near h =
    let x = pos (number c) +ℤ pos amount -ℤ pos total in
    let test : ltb_ℤ (pos 0) (round x) ≡ false = rw (← round2-number c) h in
    omega (int_laws, near.below x, none_over (round x) test)

-- A payment that passes the test, rounded to hundredths, fits under the total.
pub fits_rounded :
    (column : ℕ → ℕ) (c amount total : ℕ)
    → Rounds column
    → amount % 1000 ≢ 500
    → number c + amount ≤ number total + 500
    → c + column amount ≤ total
fits_rounded column c amount total r tie h = omega (arith, r.upper amount)

-- A total that passes the test of `update`, rounded to hundredths, covers what is paid.
pub covers_rounded :
    (round : ℤ → ℤ) (column : ℕ → ℕ) (c : ℕ) (total : ℤ)
    → Nearest round
    → Rounds column
    → ltb_ℤ total (pos 0) ≡ false
    → ltb_ℤ (round (total -ℤ pos (number c))) (pos 0) ≡ false
    → c ≤ column (pos_part total)
covers_rounded round column c total near r h k =
    let x = total -ℤ pos (number c) in
    let nonneg : neg_part total ≡ 0 = ground arith in
    omega (int_laws, r.lower (pos_part total), near.owed_below x, none_owed (round x) k, nonneg)

pub limit-update_same :
    (o id : ℕ) (f : Order → Order) (rs : List Order)
    → ((r : Order) → (f r).id ≡ r.id)
    → ((r : Order) → (f r).total ≡ r.total)
    → limit o (update order_key id f rs) ≡ limit o rs
limit-update_same o id f [] same_id same_total = refl
limit-update_same o id f (r ∷ rs) same_id same_total =
    ground (arith, same_id r, same_total r, limit-update_same o id f rs same_id same_total)

pub limit-update :
    (o id : ℕ) (f : Order → Order) (rs : List Order) (r : Order)
    → ((x : Order) → (f x).id ≡ x.id)
    → find order_key id rs ≡ some r
    → limit o (update order_key id f rs) ≡ (if o == id then (f r).total else limit o rs)
limit-update o id f [] r same_id h = cc
limit-update o id f (x ∷ rs) r same_id h =
    ground (arith, same_id x, limit-update o id f rs r same_id)

pub limit-append : (o : ℕ) (rs : List Order) (r : Order) → limit o rs ≤ limit o (rs ++ r ∷ [])
limit-append o [] r = ground arith
limit-append o (x ∷ rs) r = ground (arith, limit-append o rs r)

pub limit-erase :
    (o id : ℕ) (rs : List Order) → (o ≢ id) → limit o (erase order_key id rs) ≡ limit o rs
limit-erase o id [] h = refl
limit-erase o id (x ∷ rs) h = ground (arith, limit-erase o id rs h)
