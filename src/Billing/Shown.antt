-- ===== src/Billing/Shown.antt =====
-- What the lists of orders show agrees with the single order and adds up
-- (apps/api-gateway/src/modules/orders/orders.service.ts).
use crm_system_backend.Prelude.{
  ℕ, ◌+◌, ◌-◌, ◌≤◌, ◌≡◌, refl, ap, ◌∙◌, some, List, [], ◌∷◌, map, arith, find, keep_if, All, Unique,
}
use crm_system_backend.Prelude.Results.{ok}
use crm_system_backend.Prelude.Int.{ℤ, pos, ◌-ℤ◌}
use crm_system_backend.Prelude.Sort.{newest_first, newest_first-All, keep_if-All}
use crm_system_backend.Billing.Money.{number, round2, round2-number}
use crm_system_backend.Billing.Store.{Order, Db, order_key, find_order, Env}
use crm_system_backend.Billing.Orders.{OrderSums, order_sums}
use crm_system_backend.Billing.Paid.{paid_cents}
use crm_system_backend.Billing.Solvency.{IsSound, limit_found}
use crm_system_backend.Billing.Settlement.{order_paid-paid_cents}
use crm_system_backend.Billing.Service.{Request, AllFresh, AllNearest, run}
use crm_system_backend.Billing.Audit.{IsAudited}
use crm_system_backend.Billing.Service.Solvency.{run-IsSound}
use crm_system_backend.Billing.Service.History.{run-IsAudited}
use crm_system_backend.Billing.Views.{
  OrderQuery, OrderListDto, OrderDto, matches_order, to_list_dto, number_of, find_all_orders,
  find_one_order, to_order_dto,
}

-- Whole hundredths, of which `c` are paid and `rest` are not.
abbrev pub IsBalanced : OrderSums → Type 0
IsBalanced s =
    (c rest : ℕ) × (s.paid ≡ pos (number c))
    × (s.remaining ≡ pos (number rest))
    × (s.total ≡ pos (number (c + rest)))

-- Every row is the one that its key finds.
found_self : (xs : List Order) → Unique order_key xs → All (λ o. find order_key o.id xs ≡ some o) xs
found_self [] u = tt
found_self (x ∷ xs) u = (ground arith, behind xs (found_self xs u.1))
  where
    behind :
        (ys : List Order)
        → All (λ o. find order_key o.id xs ≡ some o) ys
        → All (λ o. find order_key o.id (x ∷ xs) ≡ some o) ys
    behind [] h = tt
    behind (y ∷ ys) h = (other y h.0, behind ys h.1)
      where
        other :
            (y : Order) → find order_key y.id xs ≡ some y → find order_key y.id (x ∷ xs) ≡ some y
        other y e = ground (arith, u.0)

difference : (t c : ℕ) → c ≤ t → pos (number t) -ℤ pos (number c) ≡ pos (number (t - c))
unfolding ◌-ℤ◌
difference t c h = ground arith

order_sums-IsBalanced :
    (o : Order) (db : Db) → IsSound db → find_order o.id db ≡ some o → IsBalanced (order_sums o db)
unfolding order_sums
order_sums-IsBalanced o db sound found =
    let c = paid_cents o.id db.payments in
    let covered : c ≤ o.total =
      omega (arith, sound.solvent o.id, limit_found o.id db.orders o found) in
    (
      c,
      o.total - c,
      order_paid-paid_cents o.id db,
      ap (λ x. round2 (pos (number o.total) -ℤ x)) (order_paid-paid_cents o.id db)
          ∙ ap round2 (difference o.total c covered)
          ∙ round2-number (o.total - c),
      ap (λ n. pos (number n)) (omega (arith, covered)),
    )

abbrev pub AgreesWith : (ℤ → ℤ) → Db → OrderListDto → Type 0
AgreesWith round db r =
    IsBalanced r.sums
    × (d : OrderDto) × (find_one_order round r.id db ≡ ok d)
    × (d.sums ≡ r.sums)
    × (d.order.status ≡ r.status)

row_agrees :
    (round : ℤ → ℤ) (o : Order) (db : Db)
    → IsSound db
    → find_order o.id db ≡ some o
    → AgreesWith round db (to_list_dto db o)
unfolding find_one_order to_order_dto
row_agrees round o db sound found = (
  order_sums-IsBalanced o db sound found,
  to_order_dto round db o,
  rw (found, find_one_order) refl,
  refl,
  refl,
)

rows_agree :
    (round : ℤ → ℤ) (os : List Order) (db : Db)
    → IsSound db
    → All (λ o. find_order o.id db ≡ some o) os
    → All (AgreesWith round db) (map (to_list_dto db) os)
rows_agree round [] db sound h = tt
rows_agree round (o ∷ os) db sound h =
    (row_agrees round o db sound h.0, rows_agree round os db sound h.1)

-- Let every order be paid at most to its total and have its trail in the history, let the doubles
-- and the columns round to the nearest hundredth and the database give out new uuids, and let no
-- payment be booked at once with an amount halfway between two hundredths. After any sequence of
-- requests each row of the list of orders, whatever its filter, shows three amounts of whole
-- hundredths, none below 0, of which the paid and the remaining one make up the total, and the
-- single order of that uuid exists and shows the same amounts and status.
pub shown_orders_agree :
    (round : ℤ → ℤ) (calls : List (Env × Request)) (db : Db) (q : OrderQuery)
    → AllNearest calls
    → AllFresh calls db
    → IsSound db
    → IsAudited db
    → All (AgreesWith round (run calls db)) (find_all_orders q (run calls db))
unfolding find_all_orders
shown_orders_agree round calls db q near fresh sound audited =
    rows_agree round (newest_first number_of (keep_if (matches_order q) after.orders)) after
      (run-IsSound calls db near fresh sound)
      (newest_first-All number_of (λ o. find_order o.id after ≡ some o)
        (keep_if (matches_order q) after.orders)
        (keep_if-All number_of (λ o. find_order o.id after ≡ some o) (matches_order q) after.orders
          (found_self after.orders (run-IsAudited calls db fresh audited).unique_orders)))
  where
    after : Db
    after = run calls db
