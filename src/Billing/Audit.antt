-- ===== src/Billing/Audit.antt =====
-- order_status_history tells each order's status from its creation on: what the services write
-- to the two tables keeps them together.
use native.Mathlib.Decide.{ℕ_discrete}
use crm_system_backend.Prelude.{
  ℕ, suc, ◌≡◌, refl, sym, ◌∙◌, Option, none, some, List, [], ◌∷◌, ◌++◌, arith, find, update, erase,
  Unique, ◌==◌, if◌then◌else◌, append-Unique, update-Unique, erase-Unique, find-erase_ne,
}
use crm_system_backend.Prelude.Trail.{
  replay, IsChained, replay-append, append-IsChained, replay-drop, drop-IsChained,
  drop_all-IsChained,
}
use crm_system_backend.Shared.Workflow.{OrderStatus}
use crm_system_backend.Billing.Store.{
  Order, Db, OrderStatusHistory, order_key, find_order, log_order, delete_order,
}

abbrev pub history_key : OrderStatusHistory → ℕ
history_key h = h.order_id

abbrev pub left : OrderStatusHistory → Option OrderStatus
left h = h.from_status

abbrev pub entered : OrderStatusHistory → OrderStatus
entered h = h.to_status

abbrev pub status_of : ℕ → List Order → Option OrderStatus
status_of id orders = elim (find order_key id orders) [ none ↦ none | some o ↦ some o.status ]

-- The history of each order is a chain of moves from its creation to its present status; an
-- order that is not there has no history.
pub record IsAudited (db : Db) : Type 0 where
  pub unique_orders : Unique order_key db.orders
  pub chained : (id : ℕ) → IsChained history_key left entered id none db.order_history
  pub current :
      (id : ℕ) → replay history_key left entered id none db.order_history ≡ status_of id db.orders

pub status_of_found :
    (id : ℕ) (orders : List Order) (o : Order)
    → find order_key id orders ≡ some o
    → status_of id orders ≡ some o.status
status_of_found id orders o h = rw (h, status_of)

status_of_missing :
    (id : ℕ) (orders : List Order) → find order_key id orders ≡ none → status_of id orders ≡ none
status_of_missing id orders h = rw (h, status_of)

status_of-append :
    (n : ℕ) (rs : List Order) (o : Order)
    → find order_key o.id rs ≡ none
    → status_of n (rs ++ o ∷ []) ≡ (if o.id == n then some o.status else status_of n rs)
status_of-append n [] o h = ground arith
status_of-append n (x ∷ rs) o h = ground (arith, status_of-append n rs o)

status_of-update :
    (n id : ℕ) (f : Order → Order) (rs : List Order) (o : Order)
    → ((x : Order) → (f x).id ≡ x.id)
    → find order_key id rs ≡ some o
    → status_of n (update order_key id f rs)
      ≡ (if id == n then some (f o).status else status_of n rs)
status_of-update n id f [] o same h = cc
status_of-update n id f (x ∷ rs) o same h =
    ground (arith, same x, status_of-update n id f rs o same)

status_of-update_same :
    (n id : ℕ) (f : Order → Order) (rs : List Order)
    → ((x : Order) → (f x).id ≡ x.id)
    → ((x : Order) → (f x).status ≡ x.status)
    → status_of n (update order_key id f rs) ≡ status_of n rs
status_of-update_same n id f [] same same_status = refl
status_of-update_same n id f (x ∷ rs) same same_status =
    ground (arith, same x, same_status x, status_of-update_same n id f rs same same_status)

find-erase_self :
    (id : ℕ) (rs : List Order)
    → Unique order_key rs
    → find order_key id (erase order_key id rs) ≡ none
find-erase_self id [] u = refl
find-erase_self id (x ∷ rs) u = ground (arith, u.0, find-erase_self id rs u.1)

status_of-erase :
    (n id : ℕ) (rs : List Order)
    → Unique order_key rs
    → status_of n (erase order_key id rs) ≡ (if n == id then none else status_of n rs)
status_of-erase n id rs u = ground (arith, find-erase_self id rs u, find-erase_ne order_key n id rs)

-- An order enters under a fresh id, with the first row of its history.
pub insert-IsAudited :
    (o : Order) (h : OrderStatusHistory) (db : Db)
    → find_order o.id db ≡ none
    → h.order_id ≡ o.id
    → h.from_status ≡ none
    → h.to_status ≡ o.status
    → IsAudited db
    → IsAudited
        (log_order h (record db { orders = db.orders ++ o ∷ []; next_number = suc db.next_number }))
insert-IsAudited o h db fresh key from to a = record {
  unique_orders = append-Unique order_key db.orders o a.unique_orders fresh;
  chained = λ n.
      append-IsChained history_key left entered n none db.order_history h (a.chained n)
        λ e. ground (arith, a.current n, status_of_missing o.id db.orders fresh);
  current = λ n.
      replay-append history_key left entered n none db.order_history h
      ∙ ground (arith, a.current n, status_of-append n db.orders o fresh);
}

-- A change that leaves the statuses alone.
pub change-IsAudited :
    (id : ℕ) (f : Order → Order) (db : Db)
    → ((x : Order) → (f x).id ≡ x.id)
    → ((x : Order) → (f x).status ≡ x.status)
    → IsAudited db
    → IsAudited (record db { orders = update order_key id f db.orders })
change-IsAudited id f db same same_status a = record {
  unique_orders = update-Unique order_key id f db.orders same a.unique_orders;
  chained = a.chained;
  current = λ n. a.current n ∙ sym (status_of-update_same n id f db.orders same same_status);
}

-- A change of the status with its row.
pub move-IsAudited :
    (id : ℕ) (f : Order → Order) (h : OrderStatusHistory) (o : Order) (db : Db)
    → ((x : Order) → (f x).id ≡ x.id)
    → find_order id db ≡ some o
    → h.order_id ≡ id
    → h.from_status ≡ some o.status
    → h.to_status ≡ (f o).status
    → IsAudited db
    → IsAudited (log_order h (record db { orders = update order_key id f db.orders }))
move-IsAudited id f h o db same found key from to a = record {
  unique_orders = update-Unique order_key id f db.orders same a.unique_orders;
  chained = λ n.
      append-IsChained history_key left entered n none db.order_history h (a.chained n)
        λ e. ground (arith, a.current n, status_of_found id db.orders o found);
  current = λ n.
      replay-append history_key left entered n none db.order_history h
      ∙ ground (arith, a.current n, status_of-update n id f db.orders o same found);
}

-- A deleted order takes its history along.
pub delete_order-IsAudited : (id : ℕ) (db : Db) → IsAudited db → IsAudited (delete_order id db)
unfolding delete_order
delete_order-IsAudited id db a = record {
  unique_orders = erase-Unique order_key id db.orders a.unique_orders;
  chained = λ n. elim (ℕ_discrete n id) [
    | yes e ↦ rw e (drop_all-IsChained history_key left entered id none db.order_history)
    | no e ↦ drop-IsChained history_key left entered n id none db.order_history (a.chained n) e
  ];
  current = λ n.
      replay-drop history_key left entered n id none db.order_history
      ∙ ground (arith, a.current n, status_of-erase n id db.orders a.unique_orders);
}
