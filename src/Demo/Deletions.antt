-- ===== src/Demo/Deletions.antt =====
-- What `clearDemoData` (libs/database/src/demo-seed.ts) finds and leaves, without the guards that
-- only save calls.
use crm_system_backend.Prelude.{
  ℕ, ◌≡◌, refl, sym, ap, ◌∙◌, Bool, true, false, not, ◌&&◌, ◌||◌, Option, none, some, List, [], ◌∷◌,
  arith, keep_if, length, any, includes,
}
use crm_system_backend.Prelude.Results.{ok}
use crm_system_backend.Deals.Data.{Deal}
use crm_system_backend.Billing.Store.{Order, Payment}
use crm_system_backend.Demo.{
  Db, Demo, Cleared, ids_of, is_none_found, delete_if_any, includes?, find_deals, find_orders,
  find_payments, find_demo, delete_content, delete_customers, is_referred, clear_demo_data,
  customer_key, deal_key, order_key, payment_key,
}
use crm_system_backend.Demo.Rows.{
  any-keep_if, delete_if_any_lem, delete_if_any_lem2, ids_of_nothing, found_deleted,
}

-- The deletions without their guards.
abbrev pub kept : Demo → Db → Db
kept d s = record {
  users = s.users;
  customers = keep_if (λ c. not (includes d.customer_ids c.id)) s.customers;
  deals = keep_if (λ x. not (includes d.deal_ids x.id)) s.deals;
  deal_items = keep_if (λ i. not (includes d.deal_ids i.deal_id)) s.deal_items;
  attachments = keep_if (λ a. not (includes d.deal_ids a.deal_id)) s.attachments;
  stage_history = keep_if (λ h. not (includes d.deal_ids h.deal_id)) s.stage_history;
  comments = keep_if (λ c. not (includes d.deal_ids c.deal_id)) s.comments;
  orders = keep_if (λ o. not (includes d.order_ids o.id)) s.orders;
  order_history = keep_if (λ h. not (includes d.order_ids h.order_id)) s.order_history;
  payments = keep_if (λ p. not (includes d.payment_ids p.id)) s.payments;
  payment_history = keep_if (λ h. not (includes d.payment_ids h.payment_id)) s.payment_history;
  tasks = keep_if (λ t. not (includes d.user_ids t.author_id)) s.tasks;
  notifications = keep_if (λ n. not (includes d.user_ids n.user_id)) s.notifications;
  messages =
      keep_if (λ m. not (includes d.user_ids m.sender_id || includes d.user_ids m.receiver_id))
        s.messages;
}

-- What the searches find, without their guards.
pub find_deals_lem :
    (cs : List ℕ) (deals : List Deal)
    → find_deals cs deals ≡ ids_of deal_key (λ d. includes cs d.customer_id) deals
find_deals_lem [] deals =
    sym (ids_of_nothing deal_key (λ d. includes [] d.customer_id) deals (λ d. refl))
find_deals_lem (k ∷ ks) deals = refl

nothing_in : (o : Option ℕ) → includes? [] o ≡ false
nothing_in none = refl
nothing_in (some k) = refl

pub find_orders_lem :
    (cs ds : List ℕ) (orders : List Order)
    → find_orders cs ds orders
      ≡ ids_of order_key (λ o. includes cs o.customer_id || includes? ds o.deal_id) orders
find_orders_lem [] [] orders = sym (ids_of_nothing order_key _ orders (λ o. nothing_in o.deal_id))
find_orders_lem [] (k ∷ ks) orders = refl
find_orders_lem (k ∷ ks) ds orders = refl

pub find_payments_lem :
    (os : List ℕ) (payments : List Payment)
    → find_payments os payments ≡ ids_of payment_key (λ p. includes os p.order_id) payments
find_payments_lem [] payments =
    sym (ids_of_nothing payment_key (λ p. includes [] p.order_id) payments (λ p. refl))
find_payments_lem (k ∷ ks) payments = refl

-- Every row that the rows found belong to is found.
pub deals_found :
    (s : Db)
    → any
        (λ d.
          includes (find_demo s).customer_ids d.customer_id
          && not (includes (find_demo s).deal_ids d.id))
        s.deals
      ≡ false
unfolding find_demo
deals_found s =
    let cs = (find_demo s).customer_ids in
    ap (λ ids. any (λ d. includes cs d.customer_id && not (includes ids d.id)) s.deals)
      (find_deals_lem cs s.deals)
    ∙ found_deleted deal_key (λ d. includes cs d.customer_id) (λ d. includes cs d.customer_id)
        s.deals (λ d e. e)

pub orders_found :
    (s : Db) (a : Order → Bool)
    → ((o : Order)
        → a o ≡ true
        → (includes (find_demo s).customer_ids o.customer_id
            || includes? (find_demo s).deal_ids o.deal_id)
          ≡ true)
    → any (λ o. a o && not (includes (find_demo s).order_ids o.id)) s.orders ≡ false
unfolding find_demo
orders_found s a h =
    let cs = (find_demo s).customer_ids in
    let ds = (find_demo s).deal_ids in
    ap (λ ids. any (λ o. a o && not (includes ids o.id)) s.orders) (find_orders_lem cs ds s.orders)
    ∙ found_deleted order_key a (λ o. includes cs o.customer_id || includes? ds o.deal_id) s.orders
        h

pub payments_found :
    (s : Db)
    → any
        (λ p.
          includes (find_demo s).order_ids p.order_id
          && not (includes (find_demo s).payment_ids p.id))
        s.payments
      ≡ false
unfolding find_demo
payments_found s =
    let os = (find_demo s).order_ids in
    ap (λ ids. any (λ p. includes os p.order_id && not (includes ids p.id)) s.payments)
      (find_payments_lem os s.payments)
    ∙ found_deleted payment_key (λ p. includes os p.order_id) (λ p. includes os p.order_id)
        s.payments (λ p e. e)

content_lem :
    (d : Demo) (s : Db)
    → record (delete_content d s) {
      customers = delete_if_any d.customer_ids (λ c. includes d.customer_ids c.id) s.customers;
    }
      ≡ kept d s
content_lem d s =
    rw
      (
        delete_if_any_lem d.customer_ids customer_key s.customers,
        delete_if_any_lem d.deal_ids deal_key s.deals,
        delete_if_any_lem d.deal_ids (λ i. i.deal_id) s.deal_items,
        delete_if_any_lem d.deal_ids (λ a. a.deal_id) s.attachments,
        delete_if_any_lem d.deal_ids (λ h. h.deal_id) s.stage_history,
        delete_if_any_lem d.deal_ids (λ c. c.deal_id) s.comments,
        delete_if_any_lem d.order_ids order_key s.orders,
        delete_if_any_lem d.order_ids (λ h. h.order_id) s.order_history,
        delete_if_any_lem d.payment_ids payment_key s.payments,
        delete_if_any_lem d.payment_ids (λ h. h.payment_id) s.payment_history,
        delete_if_any_lem d.user_ids (λ t. t.author_id) s.tasks,
        delete_if_any_lem d.user_ids (λ n. n.user_id) s.notifications,
        delete_if_any_lem2 d.user_ids (λ m. m.sender_id) (λ m. m.receiver_id) s.messages,
      )
      refl

customers_lem :
    (d : Demo) (s : Db)
    → is_referred d.customer_ids s ≡ false
    → delete_customers d s
      ≡ ok (record s {
        customers = delete_if_any d.customer_ids (λ c. includes d.customer_ids c.id) s.customers;
      })
customers_lem d s free = branch (is_none_found d.customer_ids) refl
  where
    branch :
        (b : Bool)
        → is_none_found d.customer_ids ≡ b
        → delete_customers d s
          ≡ ok (record s {
            customers =
                delete_if_any d.customer_ids (λ c. includes d.customer_ids c.id) s.customers;
          })
    branch true e = rw (e) refl
    branch false e = rw (e, free) refl

unreferred :
    (s : Db) → is_referred (find_demo s).customer_ids (delete_content (find_demo s) s) ≡ false
unreferred s =
    ap (λ b. b || any (λ o. includes d.customer_ids o.customer_id) rest.orders)
      (ap (any (λ x. includes d.customer_ids x.customer_id))
          (delete_if_any_lem d.deal_ids deal_key s.deals)
        ∙ any-keep_if (λ x. includes d.customer_ids x.customer_id) (λ x. includes d.deal_ids x.id)
            s.deals
        ∙ deals_found s)
    ∙ ap (any (λ o. includes d.customer_ids o.customer_id))
        (delete_if_any_lem d.order_ids order_key s.orders)
    ∙ any-keep_if (λ o. includes d.customer_ids o.customer_id) (λ o. includes d.order_ids o.id)
        s.orders
    ∙ orders_found s (λ o. includes d.customer_ids o.customer_id) (λ o e. ground (arith, e))
  where
    d : Demo
    d = find_demo s

    rest : Db
    rest = delete_content d s

abbrev pub summary : Demo → Cleared
summary d = record {
  customers = length d.customer_ids;
  deals = length d.deal_ids;
  orders = length d.order_ids;
  payments = length d.payment_ids;
}

pub clear_demo_data_lem :
    (s : Db) → clear_demo_data s ≡ ok (summary (find_demo s), kept (find_demo s) s)
unfolding clear_demo_data
clear_demo_data_lem s =
    rw (customers_lem d (delete_content d s) (unreferred s))
      (ap (λ x. ok (summary d, x)) (content_lem d s))
  where
    d : Demo
    d = find_demo s
