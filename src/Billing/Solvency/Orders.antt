-- ===== src/Billing/Solvency/Orders.antt =====
-- The transactions of OrdersService keep every order solvent.
use crm_system_backend.Prelude.{
  ℕ, ◌≤◌, ◌≡◌, refl, false, not, ◌&&◌, Option, some, [], ◌∷◌, ◌++◌, arith, update, inl, inr,
  Option-cases, Bool-cases, is_some, or_else, find-key, keep_if-Unique, suc,
}
use crm_system_backend.Prelude.Results.{
  Ensures, >>=-Ensures, or_throw-Ensures, throw_if-Ensures, bad_request, not_found,
}
use crm_system_backend.Prelude.Int.{ℤ, pos, ◌-ℤ◌, ltb_ℤ}
use crm_system_backend.Shared.Workflow.{OrderStatus}
use crm_system_backend.Shared.Access.{AuthUser}
use crm_system_backend.Billing.Money.{Nearest, Rounds}
use crm_system_backend.Billing.Store.{
  Env, Order, Db, order_key, payment_key, find_order, payments_of, paid_sum, OrderStatusHistory,
  Remark, delete_order, log_order,
}
use crm_system_backend.Billing.Store.Rules.{change_order-Ensures, change_order-Ensures_last}
use crm_system_backend.Billing.Orders.Recalc.{recalc_order_cases}
use crm_system_backend.Billing.Paid.{paid_cents, paid_sum-payments_of, paid_cents-drop_order}
use crm_system_backend.Billing.Orders.{
  CreateOrderDto, UpdateOrderDto, ChangeOrderStatusDto, create, update_order, edit_order,
  next_total, is_editable, write_status, set_status, move_order, write_recalc, recalc_order,
  recalc_status, via_confirm, order_source, order_total, new_order, order_items,
}
use crm_system_backend.Billing.Solvency.{
  IsSound, limit_found, limit-update_same, limit-update, limit-append, limit-erase, covers_rounded,
}

log-IsSound : (h : OrderStatusHistory) (db : Db) → IsSound db → IsSound (log_order h db)
log-IsSound h db s = record { unique_payments = s.unique_payments; solvent = s.solvent }

-- A new order only adds to what can be paid.
insert-IsSound :
    (o : Order) (db : Db)
    → IsSound db
    → IsSound (record db { orders = db.orders ++ o ∷ []; next_number = suc db.next_number })
insert-IsSound o db s = record {
  unique_payments = s.unique_payments;
  solvent = λ n. omega (arith, s.solvent n, limit-append n db.orders o);
}

-- A change that leaves the totals alone.
change-IsSound :
    (id : ℕ) (f : Order → Order) (db : Db)
    → ((o : Order) → (f o).id ≡ o.id)
    → ((o : Order) → (f o).total ≡ o.total)
    → IsSound db
    → IsSound (record db { orders = update order_key id f db.orders })
change-IsSound id f db same_id same_total s = record {
  unique_payments = s.unique_payments;
  solvent = λ n. omega (arith, s.solvent n, limit-update_same n id f db.orders same_id same_total);
}

-- A change of the total to one that covers what is paid.
retotal-IsSound :
    (id : ℕ) (f : Order → Order) (o : Order) (db : Db)
    → ((x : Order) → (f x).id ≡ x.id)
    → find_order id db ≡ some o
    → paid_cents id db.payments ≤ (f o).total
    → IsSound db
    → IsSound (record db { orders = update order_key id f db.orders })
retotal-IsSound id f o db same found covers s = record {
  unique_payments = s.unique_payments;
  solvent = λ n. ground (arith, s.solvent n, limit-update n id f db.orders o same found, covers);
}

-- `create`.
pub create-Sound :
    (env : Env) (dto : CreateOrderDto) (actor : Option ℕ) (db : Db)
    → IsSound db
    → Ensures (λ r. IsSound r.1) (create env dto actor db)
unfolding create
create-Sound env dto actor db s =
    throw_if-Ensures P (is_some dto.deal_id && is_some dto.customer_id) bad_request _ λ _.
      throw_if-Ensures P (not (is_some dto.deal_id) && not (is_some dto.customer_id)) bad_request _
        λ _. >>=-Ensures P (order_source dto db) _ λ source _.
          >>=-Ensures P
            (order_total env.round dto.total (or_else dto.items [])
              (order_items (or_else dto.items []) source.deal_items) source.deal_price)
            _
            λ total _.
              throw_if-Ensures P (ltb_ℤ total (pos 0)) bad_request _
                λ _. log-IsSound _ _ (insert-IsSound (new_order env dto actor source total db) db s)
  where
    P : Order × Db → Type 0
    P r = IsSound r.1

-- What `update` writes covers what is paid.
edit_covers :
    (env : Env) (dto : UpdateOrderDto) (o : Order) (db : Db)
    → Nearest env.round
    → Rounds env.column
    → find_order o.id db ≡ some o
    → ltb_ℤ (next_total env dto o) (pos 0) ≡ false
    → ltb_ℤ (env.round (next_total env dto o -ℤ pos (paid_sum (payments_of o.id db)))) (pos 0)
      ≡ false
    → IsSound db
    → paid_cents o.id db.payments ≤ (edit_order env dto o).total
unfolding edit_order
edit_covers env dto o db near rounds found nonneg enough s = ground (
  arith,
  s.solvent o.id,
  limit_found o.id db.orders o found,
  covers_rounded env.round env.column (paid_cents o.id db.payments) (next_total env dto o) near
      rounds nonneg (rw paid_sum-payments_of at enough),
)

-- `update`.
pub update_order-Sound :
    (env : Env) (id : ℕ) (dto : UpdateOrderDto) (db : Db)
    → Nearest env.round
    → Rounds env.column
    → IsSound db
    → Ensures (λ r. IsSound r.1) (update_order env id dto db)
unfolding update_order edit_order
update_order-Sound env id dto db near rounds s =
    or_throw-Ensures P (find_order id db) not_found _ λ o found.
      let key = find-key order_key id db.orders o found in
      throw_if-Ensures P (not (is_editable o.status)) bad_request _ λ _.
        throw_if-Ensures P (ltb_ℤ (next_total env dto o) (pos 0)) bad_request _ λ nonneg.
          throw_if-Ensures P
            (ltb_ℤ (env.round (next_total env dto o -ℤ pos (paid_sum (payments_of id db)))) (pos 0))
            bad_request _
            λ enough. change_order-Ensures_last P id (edit_order env dto) db λ q again.
              retotal-IsSound id (edit_order env dto) o db (λ x. refl) found
                (simp key at (
                  edit_covers env dto o db near rounds (simp key found) nonneg (simp key enough) s))
                s
  where
    P : Order × Db → Type 0
    P r = IsSound r.1

-- The transaction of `changeStatus`, whatever was read before it.
pub write_status-Sound :
    (id : ℕ) (from : OrderStatus) (dto : ChangeOrderStatusDto) (actor : AuthUser) (db : Db)
    → IsSound db
    → Ensures (λ r. IsSound r.1) (write_status id from dto actor db)
unfolding write_status
write_status-Sound id from dto actor db s =
    change_order-Ensures P id (set_status dto.status) db _ λ o _.
      log-IsSound _ _ (change-IsSound id (set_status dto.status) db (λ x. refl) (λ x. refl) s)
  where
    P : Unit {0} × Db → Type 0
    P r = IsSound r.1

move_order-IsSound :
    (id : ℕ) (from to : OrderStatus) (actor : Option ℕ) (why : Remark) (db : Db)
    → IsSound db
    → IsSound (move_order id from to actor why db)
unfolding move_order
move_order-IsSound id from to actor why db s =
    log-IsSound _ _ (change-IsSound id (set_status to) db (λ o. refl) (λ o. refl) s)

write_recalc-IsSound :
    (o : Order) (next : OrderStatus) (total paid : ℤ) (actor : Option ℕ) (db : Db)
    → IsSound db
    → IsSound (write_recalc o next total paid actor db)
unfolding write_recalc
write_recalc-IsSound o next total paid actor db s = elim (Bool-cases (via_confirm o.status next)) [
  | inl e ↦ rw e (move_order-IsSound _ _ _ _ _ _ (move_order-IsSound _ _ _ _ _ _ s))
  | inr e ↦ rw e (move_order-IsSound _ _ _ _ _ _ s)
]

-- `recalcStatus`, whatever was read before it.
pub recalc_order-IsSound :
    (o : Order) (total paid : ℤ) (actor : Option ℕ) (db : Db)
    → IsSound db
    → IsSound (recalc_order o total paid actor db)
recalc_order-IsSound o total paid actor db s =
    recalc_order_cases IsSound o total paid actor db s
      λ next _ _ _. write_recalc-IsSound o next total paid actor db s

pub recalc_status-IsSound :
    (id : ℕ) (actor : Option ℕ) (db : Db) → IsSound db → IsSound (recalc_status id actor db)
unfolding recalc_status
recalc_status-IsSound id actor db s = elim (Option-cases (find_order id db)) [
  | inl e ↦ rw (e, recalc_status) s
  | inr (o, e) ↦ rw (e, recalc_status) (recalc_order-IsSound o _ _ actor db s)
]

-- The deletion of an order takes its payments along.
pub delete_order-IsSound : (id : ℕ) (db : Db) → IsSound db → IsSound (delete_order id db)
unfolding delete_order
delete_order-IsSound id db s = record {
  unique_payments = keep_if-Unique payment_key _ db.payments s.unique_payments;
  solvent = λ n.
      ground
        (arith, s.solvent n, paid_cents-drop_order n id db.payments, limit-erase n id db.orders);
}
