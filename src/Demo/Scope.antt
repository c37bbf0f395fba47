-- ===== src/Demo/Scope.antt =====
-- What a reset removes (`clearDemoData` of libs/database/src/demo-seed.ts), against the counts of
-- DemoService (apps/api-gateway/src/modules/demo/demo.service.ts).
use crm_system_backend.Prelude.{
  ℕ, ◌≡◌, refl, ◌∙◌, false, not, ◌&&◌, List, [], ◌∷◌, arith, ◌==◌, keep_if, length, any, includes,
}
use crm_system_backend.Prelude.Results.{ok}
use crm_system_backend.Customers.{Customer}
use crm_system_backend.Tasks.{Task}
use crm_system_backend.Demo.{
  Db, Cleared, ids_of, find_demo, clear_demo_data, get_counts, of_demo, from_demo, is_demo_customer,
  is_demo_user, user_key, customer_key,
}
use crm_system_backend.Demo.Rows.{
  any_less, any-keep_if, length-keep_if-any, length-keep_if-false, found_deleted,
}
use crm_system_backend.Demo.Deletions.{kept, summary, clear_demo_data_lem}

no_customer_left : (s : Db) → any from_demo (kept (find_demo s) s).customers ≡ false
unfolding find_demo
no_customer_left s =
    any-keep_if from_demo (λ c. includes (find_demo s).customer_ids c.id) s.customers
    ∙ found_deleted customer_key from_demo is_demo_customer s.customers (λ c e. ground (arith, e))

none_of_demo : (cs : List Customer) (k : ℕ) → any from_demo cs ≡ false → of_demo cs k ≡ false
none_of_demo cs k e =
    any_less (λ c. c.id == k && from_demo c) from_demo cs (λ c h. ground (arith, h)) e

no_task_left :
    (us : List ℕ) (ts : List Task)
    → length
        (keep_if (λ t. includes us t.author_id) (keep_if (λ t. not (includes us t.author_id)) ts))
      ≡ 0
no_task_left us [] = refl
no_task_left us (t ∷ ts) = ground (arith, no_task_left us ts)

-- `clearDemoData` always succeeds: no foreign key stops it. It leaves all users, and the counts of
-- the demonstration's status are 0 after it.
pub get_counts-clear_demo_data :
    (s : Db)
    → (c : Cleared) × (after : Db) × (clear_demo_data s ≡ ok (c, after))
      × (after.users ≡ s.users)
      × (get_counts after ≡ record { customers = 0; deals = 0; tasks = 0; orders = 0 })
unfolding get_counts find_demo
get_counts-clear_demo_data s = (
  summary (find_demo s),
  kept (find_demo s) s,
  clear_demo_data_lem s,
  refl,
  rw
      (
        length-keep_if-any from_demo after.customers (no_customer_left s),
        length-keep_if-false (λ d. of_demo after.customers d.customer_id) after.deals
            (λ d. none_of_demo after.customers d.customer_id (no_customer_left s)),
        length-keep_if-false (λ o. of_demo after.customers o.customer_id) after.orders
            (λ o. none_of_demo after.customers o.customer_id (no_customer_left s)),
        tasks,
      )
      refl,
)
  where
    after : Db
    after = kept (find_demo s) s

    tasks :
        length
          (keep_if (λ t. includes (ids_of user_key is_demo_user s.users) t.author_id) after.tasks)
        ≡ 0
    tasks = no_task_left (ids_of user_key is_demo_user s.users) s.tasks
