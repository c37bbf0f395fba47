-- ===== src/Examples/Demo.antt =====
-- A database with one customer of the demonstration and one real one.
use crm_system_backend.Prelude.{
  List, Bool, length, ℕ, ◌+◌, ◌*◌, ◌/◌, ◌%◌, ◌<◌, ◌≤◌, ◌≡◌, refl, false, not, none, some, [], ◌∷◌,
  arith, keep_if,
}
use crm_system_backend.Prelude.Results.{ok}
use crm_system_backend.Shared.Workflow.{confirmed}
use crm_system_backend.Billing.Store.{Order}
use crm_system_backend.Deals.Data.{Deal, DealPriority}
use crm_system_backend.Customers.{Customer}
use crm_system_backend.Demo.{
  Db, Cleared, clear_demo_data, is_demo_customer, demo_customer_domain, demo_customer_source,
}
use crm_system_backend.Demo.References.{Consistent, clear_demo_data-Consistent}
use crm_system_backend.Demo.Exact.{
  in_demo_deal, in_demo_order, in_demo_payment, clear_demo_data-exact,
}
use crm_system_backend.Demo.Midnight.{
  IsFixed, Switches, day_ms, get_next_reset_at, get_next_reset_at-midnight,
}
use crm_system_backend.Demo.Schedule.{
  Event, goes_off, fresh, run, on_module_init, on_module_destroy, end_reset, IsOver,
  one_reset_at_a_time,
}

abbrev sample : Customer
sample = record {
  id = 1;
  name = b'S' ∷ [];
  email = b's' ∷ demo_customer_domain;
  phone = none;
  contact_person = none;
  avatar_url = [];
  from_source = some demo_customer_source;
}

abbrev real : Customer
real = record sample { id = 2; email = b'r' ∷ []; from_source = none }

abbrev deal_of : ℕ → ℕ → Deal
deal_of id customer = record {
  id = id;
  name = b'D' ∷ [];
  description = [];
  main_comment = none;
  price = 100;
  status = 0;
  customer_id = customer;
  responsible_user_id = none;
  responsible_user_ids = [];
  deadline = none;
  priority = DealPriority.low;
  is_imported = false;
  imported_by = none;
}

abbrev order_of : ℕ → ℕ → Order
order_of id customer = record {
  id = id;
  order_number = id;
  deal_id = some customer;
  customer_id = customer;
  created_by = none;
  total = 10000;
  status = confirmed;
  comment = none;
  items = [];
  created_at = 10;
}

abbrev db : Db
db = record {
  users = [];
  customers = sample ∷ real ∷ [];
  deals = deal_of 1 1 ∷ deal_of 2 2 ∷ [];
  deal_items = record { id = 1; deal_id = 1 } ∷ [];
  attachments = [];
  stage_history = [];
  comments = [];
  orders = order_of 1 1 ∷ order_of 2 2 ∷ [];
  order_history = [];
  payments = [];
  payment_history = [];
  tasks = [];
  notifications = [];
  messages = [];
}

db-Consistent : Consistent db
db-Consistent = record {
  deal_customer = refl;
  order_customer = refl;
  order_deal = refl;
  payment_order = refl;
  order_history_order = refl;
  payment_history_payment = refl;
  stage_history_deal = refl;
  comment_deal = refl;
  item_deal = refl;
  attachment_deal = refl;
}

clear_demo_data-Consistent_example :
    (c : Cleared) × (after : Db) × (clear_demo_data db ≡ ok (c, after)) × Consistent after
clear_demo_data-Consistent_example = clear_demo_data-Consistent db db-Consistent

clear_demo_data-exact_example :
    (c : Cleared) × (after : Db) × (clear_demo_data db ≡ ok (c, after))
    × (after.customers ≡ keep_if (λ x. not (is_demo_customer x)) db.customers)
    × (after.deals ≡ keep_if (λ d. not (in_demo_deal db.customers d)) db.deals)
    × (after.orders ≡ keep_if (λ o. not (in_demo_order db.customers db.deals o)) db.orders)
    × (after.payments
        ≡ keep_if (λ p. not (in_demo_payment db.customers db.deals db.orders p)) db.payments)
clear_demo_data-exact_example =
    clear_demo_data-exact db (refl, (refl, tt)) (refl, (refl, tt)) (refl, (refl, tt)) tt

-- Three hours ahead of UTC, as in Moscow.
abbrev moscow : ℕ → ℕ
moscow t = t / 1000 * 1000 + 10800000

moscow-IsFixed : IsFixed moscow 10800000 0
moscow-IsFixed t later = omega arith

abbrev unset : Switches
unset = record { enabled = none; enabled_env = none; auto_reset = none; auto_reset_env = none }

get_next_reset_at-midnight_example :
    (t : ℕ) × (get_next_reset_at moscow unset 1700000000500 ≡ some t)
    × (1700000000500 < t)
    × (t ≤ 1700000000500 + day_ms)
    × (moscow t % day_ms ≡ 0)
get_next_reset_at-midnight_example =
    get_next_reset_at-midnight moscow 10800000 0 moscow-IsFixed unset 1700000000500 (omega arith)
      refl refl refl

abbrev night : Event
night = goes_off 0

one_reset_at_a_time_example :
    let s = run moscow unset (night ∷ []) (on_module_init moscow unset 1700000000500 fresh) in
    (length s.timers + s.under_way ≡ 1)
    × (s.under_way ≡ 0 → (more : List Event) → IsOver (run moscow unset more (on_module_destroy s)))
    × (s.under_way ≡ 1
        → (later : ℕ) (succeeded : Bool)
        → length (end_reset moscow unset later succeeded (on_module_destroy s)).timers ≡ 1)
one_reset_at_a_time_example =
    one_reset_at_a_time moscow unset 1700000000500 (night ∷ []) refl (refl, tt)
