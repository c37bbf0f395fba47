-- ===== src/Demo/References.antt =====
-- A reset leaves no reference to a row that is gone (`clearDemoData` of
-- libs/database/src/demo-seed.ts).
use crm_system_backend.Prelude.{
  ℕ, ◌≡◌, refl, Bool, false, not, ◌&&◌, Option, none, some, List, [], ◌∷◌, map, arith, keep_if, any,
  includes,
}
use crm_system_backend.Prelude.Results.{ok}
use crm_system_backend.Demo.{
  Db, Demo, Cleared, includes?, find_demo, clear_demo_data, customer_key, deal_key, order_key,
  payment_key,
}
use crm_system_backend.Demo.Rows.{includes-deleted}
use crm_system_backend.Demo.Deletions.{
  kept, summary, clear_demo_data_lem, deals_found, orders_found, payments_found,
}

module _ {ℓ κ} {A : Type ℓ} {C : Type κ} (key : A → ℕ) (f : C → Option ℕ) where
  -- Every reference of the rows `cs` is to a row of `ps`.
  abbrev is_dangling : List A → C → Bool
  is_dangling ps c = elim (f c) [ none ↦ false | some k ↦ not (includes (map key ps) k) ]

  abbrev pub Refers : List A → List C → Type 0
  Refers ps cs = any (is_dangling ps) cs ≡ false

  still_there :
      (p : C → Bool) (del : List ℕ) (ps : List A) (c : C)
      → (includes? del (f c) && not (p c)) ≡ false
      → is_dangling ps c ≡ false
      → p c ≡ false
      → is_dangling (keep_if (λ x. not (includes del (key x))) ps) c ≡ false
  still_there p del ps c gone known stays = branch (f c) gone known
    where
      branch :
          (o : Option ℕ)
          → (includes? del o && not (p c)) ≡ false
          → elim o [ none ↦ false | some k ↦ not (includes (map key ps) k) ] ≡ false
          → elim o [
            | none ↦ false
            | some k ↦ not (includes (map key (keep_if (λ x. not (includes del (key x))) ps)) k)
          ]
            ≡ false
      branch none g h = refl
      branch (some k) g h = ground (arith, includes-deleted key del k ps, g, h, stays)

  -- If every row that refers to a deleted one is deleted, the rest refers to what is left.
  keep_if-Refers :
      (p : C → Bool) (del : List ℕ) (ps : List A) (cs : List C)
      → any (λ c. includes? del (f c) && not (p c)) cs ≡ false
      → Refers ps cs
      → Refers (keep_if (λ x. not (includes del (key x))) ps) (keep_if (λ c. not (p c)) cs)
  keep_if-Refers p del ps [] gone known = refl
  keep_if-Refers p del ps (c ∷ cs) gone known =
      ground (arith, gone, known, still_there p del ps c, keep_if-Refers p del ps cs)

  never :
      (g : C → ℕ) (del : List ℕ) (cs : List C)
      → any (λ c. includes del (g c) && not (includes del (g c))) cs ≡ false
  never g del [] = refl
  never g del (c ∷ cs) = ground (arith, never g del cs)

-- Rows that go exactly when the row goes that they refer to.
part-Refers {ℓ κ} :
    {A : Type ℓ} {C : Type κ} (key : A → ℕ) (g : C → ℕ) (del : List ℕ) (ps : List A) (cs : List C)
    → Refers key (λ c. some (g c)) ps cs
    → Refers key
        (λ c. some (g c))
        (keep_if (λ x. not (includes del (key x))) ps)
        (keep_if (λ c. not (includes del (g c))) cs)
part-Refers key g del ps cs known =
    keep_if-Refers key (λ c. some (g c)) (λ c. includes del (g c)) del ps cs
      (never key (λ c. some (g c)) g del cs) known

-- The foreign keys between the tables that a reset deletes from.
pub record Consistent (s : Db) : Type 0 where
  pub deal_customer : Refers customer_key (λ d. some d.customer_id) s.customers s.deals
  pub order_customer : Refers customer_key (λ o. some o.customer_id) s.customers s.orders
  pub order_deal : Refers deal_key (λ o. o.deal_id) s.deals s.orders
  pub payment_order : Refers order_key (λ p. some p.order_id) s.orders s.payments
  pub order_history_order : Refers order_key (λ h. some h.order_id) s.orders s.order_history
  pub payment_history_payment :
      Refers payment_key (λ h. some h.payment_id) s.payments s.payment_history
  pub stage_history_deal : Refers deal_key (λ h. some h.deal_id) s.deals s.stage_history
  pub comment_deal : Refers deal_key (λ c. some c.deal_id) s.deals s.comments
  pub item_deal : Refers deal_key (λ i. some i.deal_id) s.deals s.deal_items
  pub attachment_deal : Refers deal_key (λ a. some a.deal_id) s.deals s.attachments

kept-Consistent : (s : Db) → Consistent s → Consistent (kept (find_demo s) s)
kept-Consistent s c = record {
  deal_customer =
      keep_if-Refers customer_key (λ x. some x.customer_id) (λ x. includes d.deal_ids x.id)
        d.customer_ids s.customers s.deals (deals_found s) c.deal_customer;
  order_customer =
      keep_if-Refers customer_key (λ o. some o.customer_id) (λ o. includes d.order_ids o.id)
        d.customer_ids s.customers s.orders (orders_found s _ (λ o e. ground (arith, e)))
        c.order_customer;
  order_deal =
      keep_if-Refers deal_key (λ o. o.deal_id) (λ o. includes d.order_ids o.id) d.deal_ids s.deals
        s.orders (orders_found s _ (λ o e. ground (arith, e))) c.order_deal;
  payment_order =
      keep_if-Refers order_key (λ p. some p.order_id) (λ p. includes d.payment_ids p.id) d.order_ids
        s.orders s.payments (payments_found s) c.payment_order;
  order_history_order =
      part-Refers order_key (λ h. h.order_id) d.order_ids s.orders s.order_history
        c.order_history_order;
  payment_history_payment =
      part-Refers payment_key (λ h. h.payment_id) d.payment_ids s.payments s.payment_history
        c.payment_history_payment;
  stage_history_deal =
      part-Refers deal_key (λ h. h.deal_id) d.deal_ids s.deals s.stage_history c.stage_history_deal;
  comment_deal = part-Refers deal_key (λ x. x.deal_id) d.deal_ids s.deals s.comments c.comment_deal;
  item_deal = part-Refers deal_key (λ i. i.deal_id) d.deal_ids s.deals s.deal_items c.item_deal;
  attachment_deal =
      part-Refers deal_key (λ a. a.deal_id) d.deal_ids s.deals s.attachments c.attachment_deal;
}
  where
    d : Demo
    d = find_demo s

-- If every reference between the tables of customers, deals, orders and payments with their parts
-- and histories is to a row that exists, this is so after `clearDemoData`, which succeeds.
pub clear_demo_data-Consistent :
    (s : Db)
    → Consistent s
    → (c : Cleared) × (after : Db) × (clear_demo_data s ≡ ok (c, after)) × Consistent after
clear_demo_data-Consistent s known =
    (summary (find_demo s), kept (find_demo s) s, clear_demo_data_lem s, kept-Consistent s known)
