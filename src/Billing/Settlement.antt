-- ===== src/Billing/Settlement.antt =====
-- What `recalcStatus` makes of an order: its status follows from the money, up and down.
use mathlib.Core.Path.{subst}
use crm_system_backend.Prelude.{
  ℕ, ◌≤◌, ◌<◌, ◌≡◌, ◌≢◌, refl, sym, false, Option, some, arith, or_else, inl, inr, Option-cases,
  Bool-cases, find-key, find-update_self,
}
use crm_system_backend.Prelude.Int.{ℤ, pos}
use crm_system_backend.Shared.Workflow.{
  OrderStatus, confirmed, partially_paid, paid, same_order, same_order→eq,
}
use crm_system_backend.Billing.Money.{number, round2-number}
use crm_system_backend.Billing.Store.{Order, Db, Remark, order_key, find_order}
use crm_system_backend.Billing.Paid.{paid_cents, paid_sum-payments_of}
use crm_system_backend.Billing.Orders.{
  derived_status, is_closed, via_confirm, set_status, move_order, write_recalc, recalc_order,
  recalc_status, order_paid,
}

-- The status that an order of `total` hundredths should have when `c` hundredths are paid.
pub record IsSettled (s : OrderStatus) (total c : ℕ) : Type 0 where
  pub full : 0 < total → total ≤ c → s ≡ paid
  pub part : 0 < c → c < total → s ≡ partially_paid
  pub free : 0 < c → total ≡ 0 → s ≡ partially_paid
  pub unpaid : c ≡ 0 → (s ≢ paid) × (s ≢ partially_paid)

pub order_paid-paid_cents :
    (id : ℕ) (db : Db) → order_paid id db ≡ pos (number (paid_cents id db.payments))
unfolding order_paid
order_paid-paid_cents id db = rw paid_sum-payments_of (round2-number (paid_cents id db.payments))

derived-IsSettled :
    (s : OrderStatus) (total c : ℕ)
    → IsSettled (or_else (derived_status s (pos (number total)) (pos (number c))) s) total c
unfolding derived_status
derived-IsSettled s total c = record {
  full = λ h k. ground arith;
  part = λ h k. ground arith;
  free = λ h k. ground arith;
  unpaid = λ h. (λ e. ground arith, λ e. ground arith);
}

pub find-move_order :
    (id : ℕ) (from to : OrderStatus) (actor : Option ℕ) (why : Remark) (o : Order) (db : Db)
    → find_order id db ≡ some o
    → find_order id (move_order id from to actor why db) ≡ some (set_status to o)
unfolding move_order
find-move_order id from to actor why o db found =
    find-update_self order_key id (set_status to) db.orders o (λ x. refl) found

find-write_recalc :
    (o : Order) (next : OrderStatus) (total covered : ℤ) (actor : Option ℕ) (db : Db)
    → find_order o.id db ≡ some o
    → find_order o.id (write_recalc o next total covered actor db) ≡ some (set_status next o)
unfolding write_recalc
find-write_recalc o next total covered actor db found =
    elim (Bool-cases (via_confirm o.status next)) [
      | inl e ↦ rw e (
          find-move_order o.id _ next _ _ (set_status confirmed o) _
            (find-move_order o.id _ confirmed _ _ o db found))
      | inr e ↦ rw e (find-move_order o.id _ next _ _ o db found)
    ]

find-recalc_order :
    (o : Order) (total covered : ℤ) (actor : Option ℕ) (db : Db)
    → is_closed o.status ≡ false
    → find_order o.id db ≡ some o
    → find_order o.id (recalc_order o total covered actor db)
      ≡ some (set_status (or_else (derived_status o.status total covered) o.status) o)
unfolding recalc_order
find-recalc_order o total covered actor db open_order found =
    elim (Option-cases (derived_status o.status total covered)) [
      | inl e ↦ rw (open_order, e) found
      | inr (next, e) ↦ elim (Bool-cases (same_order next o.status)) [
        | inl same ↦
            rw (open_order, e, same)
              (subst (λ t. find_order o.id db ≡ some (set_status t o))
                (sym (same_order→eq next o.status same)) found)
        | inr other ↦
            rw (open_order, e, other) (find-write_recalc o next total covered actor db found)
      ]
    ]

-- After `recalcStatus` an order that is neither CANCELLED nor REFUNDED has the status that its
-- succeeded payments call for: PAID when a positive total is covered, PARTIALLY_PAID when some
-- but not all of it is paid (or when the total is 0 and something is paid), and neither of the
-- two when nothing is paid. Nothing else of the order changes.
pub recalc_status_settles :
    (id : ℕ) (actor : Option ℕ) (o : Order) (db : Db)
    → find_order id db ≡ some o
    → is_closed o.status ≡ false
    → (s : OrderStatus) × (find_order id (recalc_status id actor db) ≡ some (set_status s o))
      × IsSettled s o.total (paid_cents id db.payments)
unfolding recalc_status
recalc_status_settles id actor o db found open_order =
    let s = or_else (derived_status o.status (pos (number o.total)) (order_paid id db)) o.status in
    let key : o.id ≡ id = find-key order_key id db.orders o found in
    (
      s,
      rw (found, recalc_status)
          (subst
            (λ k.
              find_order k (recalc_order o (pos (number o.total)) (order_paid id db) actor db)
              ≡ some (set_status s o))
            key
            (find-recalc_order o (pos (number o.total)) (order_paid id db) actor db open_order
              (subst (λ k. find_order k db ≡ some o) (sym key) found))),
      rw order_paid-paid_cents (derived-IsSettled o.status o.total (paid_cents id db.payments)),
    )
