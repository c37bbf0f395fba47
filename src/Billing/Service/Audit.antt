-- ===== src/Billing/Service/Audit.antt =====
-- The methods of OrdersService keep each order's history a chain up to its status.
use mathlib.Core.Path.{subst}
use crm_system_backend.Prelude.{
  ℕ, ◌≡◌, refl, sym, Option, some, List, [], true, inl, inr, Bool-cases, Option-cases, not, any,
  ◌&&◌, find-key, arith, is_some, or_else,
}
use crm_system_backend.Prelude.Results.{
  Result, ok, err, Ensures, >>=-Ensures, or_throw-Ensures, throw_if-Ensures, not_found, bad_request,
}
use crm_system_backend.Prelude.Int.{ℤ, pos, ltb_ℤ, ◌-ℤ◌}
use crm_system_backend.Shared.Workflow.{OrderStatus, draft, confirmed, same_order, same_order→eq}
use crm_system_backend.Shared.Access.{AuthUser}
use crm_system_backend.Billing.Money.{number}
use crm_system_backend.Billing.Store.{
  Env, Order, Payment, Remark, Db, order_key, find_order, payments_of, paid_sum,
  PaymentStatusHistory,
}
use crm_system_backend.Billing.Store.Rules.{change_order-Ensures, change_order-Ensures_last}
use crm_system_backend.Billing.Orders
use crm_system_backend.Billing.Orders.{
  CreateOrderDto, UpdateOrderDto, ChangeOrderStatusDto, check_status, write_status, moved_money,
  recalc_status, set_status, move_order, via_confirm, write_recalc, recalc_order, edit_order,
  update_order, next_total, is_editable, order_source, order_total, order_items, new_order,
  order_paid, is_closed,
}
use crm_system_backend.Billing.Orders.Recalc.{recalc_order_cases}
use crm_system_backend.Billing.Settlement.{find-move_order}
use crm_system_backend.Billing.Audit.{
  IsAudited, insert-IsAudited, change-IsAudited, move-IsAudited, delete_order-IsAudited,
}
use crm_system_backend.Billing.Service.{after, IsFresh}

abbrev pub AuditedPair : {A : Type 0} → A × Db → Type 0
AuditedPair r = IsAudited r.1

abbrev pub Audited : {A : Type 0} → Result (A × Db) → Type 0
Audited = Ensures AuditedPair

pub after-IsAudited :
    {A : Type 0} (db : Db) (r : Result (A × Db)) → IsAudited db → Audited r → IsAudited (after db r)
after-IsAudited db (ok a) s h = h
after-IsAudited db (err e) s h = s

-- The payments and their history are no part of it.
pub payments-IsAudited :
    (ps : List Payment) (hs : List PaymentStatusHistory) (db : Db)
    → IsAudited db
    → IsAudited (record db { payments = ps; payment_history = hs })
payments-IsAudited ps hs db a = record {
  unique_orders = a.unique_orders;
  chained = a.chained;
  current = a.current;
}

move_order-IsAudited :
    (id : ℕ) (to : OrderStatus) (actor : Option ℕ) (why : Remark) (o : Order) (db : Db)
    → find_order id db ≡ some o
    → IsAudited db
    → IsAudited (move_order id o.status to actor why db)
unfolding move_order
move_order-IsAudited id to actor why o db found a =
    move-IsAudited id (set_status to) _ o db (λ x. refl) found refl refl refl a

-- The first payment of a DRAFT order is written as two moves, through CONFIRMED.
write_recalc-IsAudited :
    (o : Order) (next : OrderStatus) (total covered : ℤ) (actor : Option ℕ) (db : Db)
    → find_order o.id db ≡ some o
    → IsAudited db
    → IsAudited (write_recalc o next total covered actor db)
unfolding write_recalc
write_recalc-IsAudited o next total covered actor db found a =
    elim (Bool-cases (via_confirm o.status next)) [
      | inl e ↦ rw e (
          move_order-IsAudited o.id next actor _ (set_status confirmed o) _
            (find-move_order o.id draft confirmed actor _ o db found)
            (subst (λ s. IsAudited (move_order o.id s confirmed actor Remark.auto_confirmed db))
              (was_draft e) (move_order-IsAudited o.id confirmed actor _ o db found a)))
      | inr e ↦ rw e (move_order-IsAudited o.id next actor _ o db found a)
    ]
  where
    was_draft : via_confirm o.status next ≡ true → o.status ≡ draft
    was_draft e = same_order→eq o.status draft (ground arith)

pub recalc_status-IsAudited :
    (id : ℕ) (actor : Option ℕ) (db : Db) → IsAudited db → IsAudited (recalc_status id actor db)
unfolding recalc_status
recalc_status-IsAudited id actor db a = elim (Option-cases (find_order id db)) [
  | inl e ↦ rw (e, recalc_status) a
  | inr (o, e) ↦
      rw (e, recalc_status)
        (recalc_order_cases IsAudited o (pos (number o.total)) (order_paid id db) actor db a
          λ next _ _ _.
            write_recalc-IsAudited o next _ _ actor db
              (subst (λ k. find_order k db ≡ some o) (sym (find-key order_key id db.orders o e)) e)
              a)
]

pub create_order-Audited :
    (env : Env) (dto : CreateOrderDto) (actor : Option ℕ) (db : Db)
    → IsFresh env db
    → IsAudited db
    → Audited (Orders.create env dto actor db)
unfolding Orders.create new_order
create_order-Audited env dto actor db f a =
    throw_if-Ensures P (is_some dto.deal_id && is_some dto.customer_id) bad_request _ λ _.
      throw_if-Ensures P (not (is_some dto.deal_id) && not (is_some dto.customer_id)) bad_request _
        λ _. >>=-Ensures P (order_source dto db) _ λ source _.
          >>=-Ensures P
            (order_total env.round dto.total (or_else dto.items [])
              (order_items (or_else dto.items []) source.deal_items) source.deal_price)
            _
            λ total _. throw_if-Ensures P (ltb_ℤ total (pos 0)) bad_request _ λ _.
              insert-IsAudited (new_order env dto actor source total db) _ db f.new_order refl refl
                refl a
  where
    P : Order × Db → Type 0
    P r = IsAudited r.1

pub update_order-Audited :
    (env : Env) (id : ℕ) (dto : UpdateOrderDto) (db : Db)
    → IsAudited db
    → Audited (update_order env id dto db)
unfolding update_order edit_order
update_order-Audited env id dto db a = or_throw-Ensures P (find_order id db) not_found _ λ o found.
    throw_if-Ensures P (not (is_editable o.status)) bad_request _ λ _.
      throw_if-Ensures P (ltb_ℤ (next_total env dto o) (pos 0)) bad_request _ λ _.
        throw_if-Ensures P
          (ltb_ℤ (env.round (next_total env dto o -ℤ pos (paid_sum (payments_of id db)))) (pos 0))
          bad_request _
          λ _.
            change_order-Ensures_last P id (edit_order env dto) db
              λ q again. change-IsAudited id (edit_order env dto) db (λ x. refl) (λ x. refl) a
  where
    P : Order × Db → Type 0
    P r = IsAudited r.1

pub change_order_status-Audited :
    (id : ℕ) (dto : ChangeOrderStatusDto) (u : AuthUser) (db : Db)
    → IsAudited db
    → Audited (Orders.change_status id dto u db)
unfolding Orders.change_status write_status
change_order_status-Audited id dto u db a =
    or_throw-Ensures P (find_order id db) not_found _ λ o found.
      elim (Bool-cases (same_order o.status dto.status)) [
        | inl e ↦ rw e a
        | inr e ↦ rw e (
            >>=-Ensures P (check_status dto u o) _ λ _ _.
              change_order-Ensures P id (set_status dto.status) db _ λ q again.
                move-IsAudited id (set_status dto.status) _ o db (λ x. refl) found refl refl refl a)
      ]
  where
    P : Unit {0} × Db → Type 0
    P r = IsAudited r.1

pub remove_order-Audited : (id : ℕ) (db : Db) → IsAudited db → Audited (Orders.remove id db)
unfolding Orders.remove
remove_order-Audited id db a = or_throw-Ensures P (find_order id db) not_found _ λ o _.
    throw_if-Ensures P (any moved_money (payments_of id db)) bad_request _
      λ _. delete_order-IsAudited id db a
  where
    P : Unit {0} × Db → Type 0
    P r = IsAudited r.1
