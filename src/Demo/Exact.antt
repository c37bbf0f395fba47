-- ===== src/Demo/Exact.antt =====
-- A reset deletes the sample data and nothing else (`clearDemoData` of
-- libs/database/src/demo-seed.ts).
use crm_system_backend.Prelude.{
  ℕ, ◌≡◌, refl, ap, ◌∙◌, Bool, false, not, ◌&&◌, ◌||◌, Option, none, some, List, [], ◌∷◌, arith,
  ◌==◌, keep_if, any, includes, find, Unique, All, ==_refl,
}
use crm_system_backend.Prelude.Results.{ok}
use crm_system_backend.Billing.Store.{Order, Payment}
use crm_system_backend.Deals.Data.{Deal}
use crm_system_backend.Customers.{Customer}
use crm_system_backend.Demo.{
  Db, Cleared, ids_of, includes?, find_demo, clear_demo_data, is_demo_customer, customer_key,
  deal_key, order_key, payment_key,
}
use crm_system_backend.Demo.Deletions.{
  kept, summary, clear_demo_data_lem, find_deals_lem, find_orders_lem, find_payments_lem,
}

module _ {ℓ} {A : Type ℓ} (key : A → ℕ) where
  -- A row with that id and property.
  abbrev pub has : (A → Bool) → List A → ℕ → Bool
  has q xs k = any (λ x. key x == k && q x) xs

  includes-ids_of : (q : A → Bool) (xs : List A) (k : ℕ) → includes (ids_of key q xs) k ≡ has q xs k
  includes-ids_of q [] k = refl
  includes-ids_of q (x ∷ xs) k = ground (arith, includes-ids_of q xs k)

  has_not : (q : A → Bool) (k : ℕ) (xs : List A) → find key k xs ≡ none → has q xs k ≡ false
  has_not q k [] h = refl
  has_not q k (x ∷ xs) h = ground (arith, has_not q k xs)

  others : (k : ℕ) (xs : List A) → find key k xs ≡ none → All (λ z. (k == key z) ≡ false) xs
  others k [] h = tt
  others k (x ∷ xs) h = (ground arith, others k xs (ground arith))

  beside :
      (q : A → Bool) (x : A) (ys zs : List A)
      → All (λ z. (key x == key z) ≡ false) zs
      → All (λ z. has q ys (key z) ≡ q z) zs
      → All (λ z. has q (x ∷ ys) (key z) ≡ q z) zs
  beside q x ys [] h e = tt
  beside q x ys (z ∷ zs) h e = (ground (arith, h.0, e.0), beside q x ys zs h.1 e.1)

  has_own : (q : A → Bool) (xs : List A) → Unique key xs → All (λ x. has q xs (key x) ≡ q x) xs
  has_own q [] u = tt
  has_own q (x ∷ xs) u = (
    ground (arith, ==_refl (key x), has_not q (key x) xs u.0),
    beside q x xs xs (others (key x) xs u.0) (has_own q xs u.1),
  )

  keep_if-ids_of :
      (q : A → Bool) (ys xs : List A)
      → All (λ x. has q ys (key x) ≡ q x) xs
      → keep_if (λ x. not (includes (ids_of key q ys) (key x))) xs ≡ keep_if (λ x. not (q x)) xs
  keep_if-ids_of q ys [] h = refl
  keep_if-ids_of q ys (x ∷ xs) h =
      ground (arith, h.0, includes-ids_of q ys (key x), keep_if-ids_of q ys xs h.1)

  -- A search followed by the deletion of what it found is the deletion of what it is for.
  delete_found :
      (q : A → Bool) (xs : List A)
      → Unique key xs
      → keep_if (λ x. not (includes (ids_of key q xs) (key x))) xs ≡ keep_if (λ x. not (q x)) xs
  delete_found q xs u = keep_if-ids_of q xs xs (has_own q xs u)

keep_if_ext {ℓ} :
    {A : Type ℓ} (p q : A → Bool) (xs : List A)
    → ((x : A) → p x ≡ q x)
    → keep_if (λ x. not (p x)) xs ≡ keep_if (λ x. not (q x)) xs
keep_if_ext p q [] h = refl
keep_if_ext p q (x ∷ xs) h = ground (arith, h x, keep_if_ext p q xs h)

-- The sample data: what belongs to a customer that is marked, an order of a deal of such a customer
-- included.
abbrev pub in_demo_deal : List Customer → Deal → Bool
in_demo_deal cs d = has customer_key is_demo_customer cs d.customer_id

abbrev pub in_demo_order : List Customer → List Deal → Order → Bool
in_demo_order cs ds o =
    has customer_key is_demo_customer cs o.customer_id
    || (elim o.deal_id [ none ↦ false | some k ↦ has deal_key (in_demo_deal cs) ds k ])

abbrev pub in_demo_payment : List Customer → List Deal → List Order → Payment → Bool
in_demo_payment cs ds os p = has order_key (in_demo_order cs ds) os p.order_id

module _ (s : Db) where
  customer_ids_lem :
      (k : ℕ)
      → includes (find_demo s).customer_ids k ≡ has customer_key is_demo_customer s.customers k
  unfolding find_demo
  customer_ids_lem k = includes-ids_of customer_key is_demo_customer s.customers k

  has_ext :
      {A : Type 0} (key : A → ℕ) (p q : A → Bool) (xs : List A) (k : ℕ)
      → ((x : A) → p x ≡ q x)
      → has key p xs k ≡ has key q xs k
  has_ext key p q [] k h = refl
  has_ext key p q (x ∷ xs) k h = ground (arith, h x, has_ext key p q xs k h)

  deal_ids_lem :
      (k : ℕ)
      → includes (find_demo s).deal_ids k ≡ has deal_key (in_demo_deal s.customers) s.deals k
  unfolding find_demo
  deal_ids_lem k =
      let cs = (find_demo s).customer_ids in
      ap (λ ids. includes ids k) (find_deals_lem cs s.deals)
      ∙ includes-ids_of deal_key (λ d. includes cs d.customer_id) s.deals k
      ∙ has_ext deal_key _ _ s.deals k (λ d. customer_ids_lem d.customer_id)

  in_order :
      (o : Order)
      → (includes (find_demo s).customer_ids o.customer_id
          || includes? (find_demo s).deal_ids o.deal_id)
        ≡ in_demo_order s.customers s.deals o
  in_order o =
      rw (customer_ids_lem o.customer_id) (
        ap (λ b. has customer_key is_demo_customer s.customers o.customer_id || b) (deal o.deal_id))
    where
      deal :
          (d : Option ℕ)
          → includes? (find_demo s).deal_ids d
            ≡ elim d [ none ↦ false | some k ↦ has deal_key (in_demo_deal s.customers) s.deals k ]
      deal none = refl
      deal (some k) = deal_ids_lem k

  order_ids_lem :
      (k : ℕ)
      → includes (find_demo s).order_ids k
        ≡ has order_key (in_demo_order s.customers s.deals) s.orders k
  unfolding find_demo
  order_ids_lem k =
      let cs = (find_demo s).customer_ids in
      let ds = (find_demo s).deal_ids in
      ap (λ ids. includes ids k) (find_orders_lem cs ds s.orders)
      ∙ includes-ids_of order_key (λ o. includes cs o.customer_id || includes? ds o.deal_id)
          s.orders k
      ∙ has_ext order_key _ _ s.orders k in_order

-- Let the ids of customers, deals, orders and payments each be different. Then `clearDemoData`
-- succeeds and deletes exactly: the customers with the mark of a demonstration, the deals of these
-- customers, the orders of these customers or deals, and the payments of these orders.
pub clear_demo_data-exact :
    (s : Db)
    → Unique customer_key s.customers
    → Unique deal_key s.deals
    → Unique order_key s.orders
    → Unique payment_key s.payments
    → (c : Cleared) × (after : Db) × (clear_demo_data s ≡ ok (c, after))
      × (after.customers ≡ keep_if (λ x. not (is_demo_customer x)) s.customers)
      × (after.deals ≡ keep_if (λ d. not (in_demo_deal s.customers d)) s.deals)
      × (after.orders ≡ keep_if (λ o. not (in_demo_order s.customers s.deals o)) s.orders)
      × (after.payments
          ≡ keep_if (λ p. not (in_demo_payment s.customers s.deals s.orders p)) s.payments)
unfolding find_demo
clear_demo_data-exact s cu du ou pu = (
  summary (find_demo s),
  kept (find_demo s) s,
  clear_demo_data_lem s,
  delete_found customer_key is_demo_customer s.customers cu,
  ap (λ ids. keep_if (λ d. not (includes ids d.id)) s.deals) (find_deals_lem cs s.deals)
      ∙ delete_found deal_key (λ d. includes cs d.customer_id) s.deals du
      ∙ keep_if_ext _ _ s.deals (λ d. customer_ids_lem s d.customer_id),
  ap (λ ids. keep_if (λ o. not (includes ids o.id)) s.orders) (find_orders_lem cs ds s.orders)
      ∙ delete_found order_key (λ o. includes cs o.customer_id || includes? ds o.deal_id) s.orders
          ou
      ∙ keep_if_ext _ _ s.orders (in_order s),
  ap (λ ids. keep_if (λ p. not (includes ids p.id)) s.payments) (find_payments_lem os s.payments)
      ∙ delete_found payment_key (λ p. includes os p.order_id) s.payments pu
      ∙ keep_if_ext _ _ s.payments (λ p. order_ids_lem s p.order_id),
)
  where
    cs : List ℕ
    cs = (find_demo s).customer_ids

    ds : List ℕ
    ds = (find_demo s).deal_ids

    os : List ℕ
    os = (find_demo s).order_ids
