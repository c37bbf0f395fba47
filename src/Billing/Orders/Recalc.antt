-- ===== src/Billing/Orders/Recalc.antt =====
-- `recalcStatus` taken apart: it leaves the database, or moves the order once or twice.
use crm_system_backend.Prelude.{
  ℕ, ◌≡◌, refl, false, Option, none, some, inl, inr, Option-cases, Bool-cases, if◌then◌else◌,
}
use crm_system_backend.Prelude.Int.{ℤ}
use crm_system_backend.Shared.Workflow.{OrderStatus, same_order}
use crm_system_backend.Billing.Store.{Order, Db, find_order}
use crm_system_backend.Billing.Orders.{
  is_closed, derived_status, write_recalc, recalc_order, recalc_status, move_order, via_confirm,
}

module _ {ι} (P : Db → Type ι) (o : Order) (total paid : ℤ) (actor : Option ℕ) (db : Db) where
  derived_cases :
      (next? : Option OrderStatus)
      → P db
      → ((next : OrderStatus)
          → next? ≡ some next
          → same_order next o.status ≡ false
          → P (write_recalc o next total paid actor db))
      → P (elim next? [
        | none ↦ db
        | some next ↦
            if same_order next o.status then db else write_recalc o next total paid actor db
      ])
  derived_cases none stay move = stay
  derived_cases (some next) stay move = elim (Bool-cases (same_order next o.status)) [
    | inl e ↦ rw e stay
    | inr e ↦ rw e (move next refl e)
  ]

  pub recalc_order_cases :
      P db
      → ((next : OrderStatus)
          → is_closed o.status ≡ false
          → derived_status o.status total paid ≡ some next
          → same_order next o.status ≡ false
          → P (write_recalc o next total paid actor db))
      → P (recalc_order o total paid actor db)
  unfolding recalc_order
  recalc_order_cases stay move = elim (Bool-cases (is_closed o.status)) [
    | inl e ↦ rw e stay
    | inr e ↦ rw e (
        derived_cases (derived_status o.status total paid) stay
          (λ next d other. move next e d other))
  ]

abbrev KeepsPayments : Db → Db → Type 0
KeepsPayments db db' = (db'.payments ≡ db.payments) × (db'.payment_history ≡ db.payment_history)

write_recalc-KeepsPayments :
    (o : Order) (next : OrderStatus) (total paid : ℤ) (actor : Option ℕ) (db : Db)
    → KeepsPayments db (write_recalc o next total paid actor db)
unfolding write_recalc move_order
write_recalc-KeepsPayments o next total paid actor db =
    elim (Bool-cases (via_confirm o.status next)) [
      | inl e ↦ rw e (refl, refl)
      | inr e ↦ rw e (refl, refl)
    ]

-- `recalcStatus` writes to no payment and to no history of one.
pub recalc_status-KeepsPayments :
    (id : ℕ) (actor : Option ℕ) (db : Db)
    → ((recalc_status id actor db).payments ≡ db.payments)
      × ((recalc_status id actor db).payment_history ≡ db.payment_history)
unfolding recalc_status
recalc_status-KeepsPayments id actor db = elim (Option-cases (find_order id db)) [
  | inl e ↦ rw (e, recalc_status) (refl, refl)
  | inr (o, e) ↦
      rw (e, recalc_status)
        (recalc_order_cases (KeepsPayments db) o _ _ actor db (refl, refl)
          λ next _ _ _. write_recalc-KeepsPayments o next _ _ actor db)
]
