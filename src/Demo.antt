-- ===== src/Demo.antt =====
-- The sample data of a demonstration: `clearDemoData` (libs/database/src/demo-seed.ts), the marks of
-- that data (libs/shared/src/constants/demo.constants.ts), and what DemoService counts
-- (apps/api-gateway/src/modules/demo/demo.service.ts). The items of an order are in its row.
pub mod Rows
pub mod Deletions
pub mod Scope
pub mod References
pub mod Exact
pub mod Midnight
pub mod Schedule
use crm_system_backend.Prelude.{
  ℕ, ◌+◌, Bool, true, false, not, ◌&&◌, ◌||◌, Option, none, some, List, [], ◌∷◌, ◌++◌, map, ◌==◌,
  if◌then◌else◌, keep_if, length, any, includes,
}
use crm_system_backend.Prelude.Text.{Text, trim, same_text, to_lower_case}
use crm_system_backend.Prelude.Paging.{drop}
use crm_system_backend.Prelude.Results.{
  Result, ok, err, ◌>>=◌, ◌>>◌, failed_write, forbidden, throw_if,
}
use crm_system_backend.Users.{Profile}
use crm_system_backend.Customers.{Customer}
use crm_system_backend.Comments.{Comment}
use crm_system_backend.Chat.{DirectMessage}
use crm_system_backend.Tasks.{Task}
use crm_system_backend.Notifications.{Notification}
use crm_system_backend.Deals.Data.{Deal, DealStageHistory}
use crm_system_backend.Billing.Store.{Order, OrderStatusHistory, Payment, PaymentStatusHistory}

-- DEMO_USER_EMAILS, DEMO_CUSTOMER_EMAIL_DOMAIN with its '@', and DEMO_CUSTOMER_SOURCE.
abbrev demo_text : Text
demo_text = b'd' ∷ b'e' ∷ b'm' ∷ b'o' ∷ []

abbrev example_domain : Text
example_domain =
    b'@' ∷ b'e' ∷ b'x' ∷ b'a' ∷ b'm' ∷ b'p' ∷ b'l' ∷ b'e' ∷ b'.' ∷ b'c' ∷ b'o' ∷ b'm' ∷ []

abbrev pub demo_user_emails : List Text
demo_user_emails =
    (demo_text ++ b'1' ∷ example_domain)
    ∷ (demo_text ++ b'2' ∷ example_domain)
    ∷ (demo_text ++ b'3' ∷ example_domain)
    ∷ []

abbrev pub demo_customer_domain : Text
demo_customer_domain = b'@' ∷ demo_text ++ b'.' ∷ b'l' ∷ b'o' ∷ b'c' ∷ b'a' ∷ b'l' ∷ []

abbrev pub demo_customer_source : Text
demo_customer_source = demo_text

-- `endsWith`.
abbrev pub ends_with : Text → Text → Bool
ends_with [] suffix = same_text [] suffix
ends_with (c ∷ cs) suffix = same_text (c ∷ cs) suffix || ends_with cs suffix

-- `isDemoEmail`, and `assertCanDeleteUserByEmail`.
abbrev pub is_demo_email : Text → Bool
is_demo_email e = any (same_text (to_lower_case (trim e))) demo_user_emails

unfoldable pub assert_can_delete_user : Text → Result (Unit {0})
assert_can_delete_user e = throw_if (is_demo_email e) forbidden

-- A row that hangs on a deal (DealItem, DealAttachment).
pub record DealPart : Type 0 where
  pub id : ℕ
  pub deal_id : ℕ

pub record Db : Type 0 where
  pub users : List Profile
  pub customers : List Customer
  pub deals : List Deal
  pub deal_items : List DealPart
  pub attachments : List DealPart
  pub stage_history : List DealStageHistory
  pub comments : List Comment
  pub orders : List Order
  pub order_history : List OrderStatusHistory
  pub payments : List Payment
  pub payment_history : List PaymentStatusHistory
  pub tasks : List Task
  pub notifications : List Notification
  pub messages : List DirectMessage

-- The `where` of the searches.
abbrev pub is_demo_user : Profile → Bool
is_demo_user p = any (same_text p.email) demo_user_emails

abbrev pub from_demo : Customer → Bool
from_demo c = elim c.from_source [ none ↦ false | some t ↦ same_text t demo_customer_source ]

abbrev pub is_demo_customer : Customer → Bool
is_demo_customer c = ends_with c.email demo_customer_domain || from_demo c

abbrev pub includes? : List ℕ → Option ℕ → Bool
includes? ids none = false
includes? ids (some k) = includes ids k

-- The ids of the rows that a search finds.
abbrev pub ids_of {ℓ} : {A : Type ℓ} → (A → ℕ) → (A → Bool) → List A → List ℕ
ids_of key p xs = map key (keep_if p xs)

abbrev pub is_none_found : List ℕ → Bool
is_none_found [] = true
is_none_found (k ∷ ks) = false

-- `deleteMany` under `if (ids.length)`.
abbrev pub delete_if_any {ℓ} : {A : Type ℓ} → List ℕ → (A → Bool) → List A → List A
delete_if_any ids p xs = if is_none_found ids then xs else keep_if (λ x. not (p x)) xs

-- The demo rows: the ids that the first half of `clearDemoData` collects.
pub record Demo : Type 0 where
  pub user_ids : List ℕ
  pub customer_ids : List ℕ
  pub deal_ids : List ℕ
  pub order_ids : List ℕ
  pub payment_ids : List ℕ

abbrev pub user_key : Profile → ℕ
user_key p = p.id

abbrev pub customer_key : Customer → ℕ
customer_key c = c.id

abbrev pub deal_key : Deal → ℕ
deal_key d = d.id

abbrev pub order_key : Order → ℕ
order_key o = o.id

abbrev pub payment_key : Payment → ℕ
payment_key p = p.id

abbrev pub find_deals : List ℕ → List Deal → List ℕ
find_deals cs deals =
    if is_none_found cs then [] else ids_of deal_key (λ d. includes cs d.customer_id) deals

abbrev pub find_orders : List ℕ → List ℕ → List Order → List ℕ
find_orders cs ds orders =
    if is_none_found cs && is_none_found ds
    then []
    else ids_of order_key (λ o. includes cs o.customer_id || includes? ds o.deal_id) orders

abbrev pub find_payments : List ℕ → List Payment → List ℕ
find_payments os payments =
    if is_none_found os then [] else ids_of payment_key (λ p. includes os p.order_id) payments

unfoldable pub find_demo : Db → Demo
find_demo s =
    let cs = ids_of customer_key is_demo_customer s.customers in
    let ds = find_deals cs s.deals in
    let os = find_orders cs ds s.orders in
    record {
      user_ids = ids_of user_key is_demo_user s.users;
      customer_ids = cs;
      deal_ids = ds;
      order_ids = os;
      payment_ids = find_payments os s.payments;
    }

-- The deletions, in the order of the code.
abbrev pub delete_payments : Demo → Db → Db
delete_payments d s = record s {
  payment_history =
      delete_if_any d.payment_ids (λ h. includes d.payment_ids h.payment_id) s.payment_history;
  payments = delete_if_any d.payment_ids (λ p. includes d.payment_ids p.id) s.payments;
}

abbrev pub delete_orders : Demo → Db → Db
delete_orders d s = record s {
  order_history = delete_if_any d.order_ids (λ h. includes d.order_ids h.order_id) s.order_history;
  orders = delete_if_any d.order_ids (λ o. includes d.order_ids o.id) s.orders;
}

abbrev pub delete_deals : Demo → Db → Db
delete_deals d s = record s {
  comments = delete_if_any d.deal_ids (λ c. includes d.deal_ids c.deal_id) s.comments;
  attachments = delete_if_any d.deal_ids (λ a. includes d.deal_ids a.deal_id) s.attachments;
  stage_history = delete_if_any d.deal_ids (λ h. includes d.deal_ids h.deal_id) s.stage_history;
  deal_items = delete_if_any d.deal_ids (λ i. includes d.deal_ids i.deal_id) s.deal_items;
  deals = delete_if_any d.deal_ids (λ x. includes d.deal_ids x.id) s.deals;
}

abbrev pub delete_of_users : Demo → Db → Db
delete_of_users d s = record s {
  tasks = delete_if_any d.user_ids (λ t. includes d.user_ids t.author_id) s.tasks;
  notifications = delete_if_any d.user_ids (λ n. includes d.user_ids n.user_id) s.notifications;
  messages =
      delete_if_any d.user_ids
        (λ m. includes d.user_ids m.sender_id || includes d.user_ids m.receiver_id) s.messages;
}

-- PostgreSQL refuses to delete a customer that a deal or an order still refers to. The other
-- references are removed or cleared along with the row (`onDelete`).
abbrev pub is_referred : List ℕ → Db → Bool
is_referred cs s =
    any (λ d. includes cs d.customer_id) s.deals || any (λ o. includes cs o.customer_id) s.orders

abbrev pub delete_customers : Demo → Db → Result Db
delete_customers d s =
    if is_none_found d.customer_ids
    then ok s
    else if is_referred d.customer_ids s
    then err failed_write
    else ok (record s {
      customers = delete_if_any d.customer_ids (λ c. includes d.customer_ids c.id) s.customers;
    })

pub record Cleared : Type 0 where
  pub customers : ℕ
  pub deals : ℕ
  pub orders : ℕ
  pub payments : ℕ

abbrev pub delete_content : Demo → Db → Db
delete_content d s = delete_of_users d (delete_deals d (delete_orders d (delete_payments d s)))

unfoldable pub clear_demo_data : Db → Result (Cleared × Db)
unfolding find_demo
clear_demo_data s = do
  let d = find_demo s
  after ← delete_customers d (delete_content d s)
  ok (
    record {
      customers = length d.customer_ids;
      deals = length d.deal_ids;
      orders = length d.order_ids;
      payments = length d.payment_ids;
    },
    after,
  )

-- The counts of `getStatus`.
pub record Counts : Type 0 where
  pub customers : ℕ
  pub deals : ℕ
  pub tasks : ℕ
  pub orders : ℕ

abbrev pub of_demo : List Customer → ℕ → Bool
of_demo cs k = any (λ c. c.id == k && from_demo c) cs

unfoldable pub get_counts : Db → Counts
get_counts s = record {
  customers = length (keep_if from_demo s.customers);
  deals = length (keep_if (λ d. of_demo s.customers d.customer_id) s.deals);
  tasks =
      length (keep_if (λ t. includes (ids_of user_key is_demo_user s.users) t.author_id) s.tasks);
  orders = length (keep_if (λ o. of_demo s.customers o.customer_id) s.orders);
}
