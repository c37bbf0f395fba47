-- ===== src/Billing/Store/Rules.antt =====
-- How a method goes on after a write: the rules for the calls of the store that may reject.
use crm_system_backend.Prelude.{◌≡◌, some, [], ◌∷◌, ◌++◌, ℕ, inl, inr, Option-cases, update}
use crm_system_backend.Prelude.Results.{Result, ◌>>=◌, Ensures}
use crm_system_backend.Billing.Store.{
  Order, Payment, Db, order_key, payment_key, find_order, find_payment, insert_payment,
  change_payment, change_order,
}

module _ {ι} {B : Type 0} (P : B → Type ι) where
  pub insert_payment-Ensures :
      (p : Payment) (db : Db) (f : Db → Result B)
      → ((o : Order)
          → find_order p.order_id db ≡ some o
          → Ensures P (f (record db { payments = db.payments ++ p ∷ [] })))
      → Ensures P (insert_payment p db >>= f)
  unfolding insert_payment
  insert_payment-Ensures p db f h = elim (Option-cases (find_order p.order_id db)) [
    | inl e ↦ rw e tt
    | inr (o, e) ↦ rw e (h o e)
  ]

  pub change_payment-Ensures :
      (id : ℕ) (g : Payment → Payment) (db : Db) (f : Payment × Db → Result B)
      → ((p : Payment)
          → find_payment id db ≡ some p
          → Ensures P (f (g p, record db { payments = update payment_key id g db.payments })))
      → Ensures P (change_payment id g db >>= f)
  unfolding change_payment
  change_payment-Ensures id g db f h = elim (Option-cases (find_payment id db)) [
    | inl e ↦ rw e tt
    | inr (p, e) ↦ rw e (h p e)
  ]

  pub change_order-Ensures :
      (id : ℕ) (g : Order → Order) (db : Db) (f : Order × Db → Result B)
      → ((o : Order)
          → find_order id db ≡ some o
          → Ensures P (f (g o, record db { orders = update order_key id g db.orders })))
      → Ensures P (change_order id g db >>= f)
  unfolding change_order
  change_order-Ensures id g db f h = elim (Option-cases (find_order id db)) [
    | inl e ↦ rw e tt
    | inr (o, e) ↦ rw e (h o e)
  ]

-- The same for a method that ends with the write.
pub change_order-Ensures_last {ι} :
    (Q : Order × Db → Type ι) (id : ℕ) (g : Order → Order) (db : Db)
    → ((o : Order)
        → find_order id db ≡ some o
        → Q (g o, record db { orders = update order_key id g db.orders }))
    → Ensures Q (change_order id g db)
unfolding change_order
change_order-Ensures_last Q id g db h = elim (Option-cases (find_order id db)) [
  | inl e ↦ rw e tt
  | inr (o, e) ↦ rw e (h o e)
]
