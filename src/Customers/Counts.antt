-- ===== src/Customers/Counts.antt =====
-- The numbers of deals in the list of customers (`findAll` of
-- apps/api-gateway/src/modules/customers/customers.service.ts).
use crm_system_backend.Prelude.{
  ℕ, ◌≡◌, refl, sym, ap, ◌∙◌, false, not, none, List, [], ◌∷◌, map, arith, any, find, length,
  includes, without, dedupe, count_of, sum, sum-count_of, Unique,
}
use crm_system_backend.Customers.{Customer, customer_key, Listed, find_all, deal_customer}

abbrev pub counted : Listed → ℕ
counted l = l.deals_count

without_absent :
    (k : ℕ) (cs : List Customer)
    → find customer_key k cs ≡ none
    → without k (map customer_key cs) ≡ map customer_key cs
without_absent k [] h = refl
without_absent k (c ∷ cs) h = ground (arith, without_absent k cs)

dedupe-Unique :
    (cs : List Customer)
    → Unique customer_key cs
    → dedupe (map customer_key cs) ≡ map customer_key cs
dedupe-Unique [] u = refl
dedupe-Unique (c ∷ cs) u =
    ap (λ ys. c.id ∷ without c.id ys) (dedupe-Unique cs u.1)
    ∙ ap (λ ys. c.id ∷ ys) (without_absent c.id cs u.0)

map-counted :
    (deals : List ℕ) (cs : List Customer)
    → map counted (find_all deals cs) ≡ map (count_of deal_customer deals) (map customer_key cs)
unfolding find_all
map-counted deals [] = refl
map-counted deals (c ∷ cs) =
    ap (λ ys. count_of deal_customer deals c.id ∷ ys) (map-counted deals cs)

-- Let the customers have different ids, and every deal belong to one of them. The numbers of deals
-- in the list of customers add up to the number of all deals.
pub sum-find_all :
    (deals : List ℕ) (cs : List Customer)
    → Unique customer_key cs
    → any (λ d. not (includes (map customer_key cs) d)) deals ≡ false
    → sum (map counted (find_all deals cs)) ≡ length deals
sum-find_all deals cs unique known =
    ap sum (
      map-counted deals cs
      ∙ ap (map (count_of deal_customer deals)) (sym (dedupe-Unique cs unique)))
    ∙ sum-count_of deal_customer deals (map customer_key cs) known
