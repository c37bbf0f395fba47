-- ===== src/Deals/Data.antt =====
-- The tables of DealsService and its private helpers
-- (apps/api-gateway/src/modules/deals/deals.service.ts). A method returns the tables
-- that it leaves and what it sends out, oldest first. Identifiers and stages are only compared, so
-- they are numbers, as is a customer's address, trimmed and in lower case. Text is the list of its
-- characters' codes. An absent field of a request is `none`.
use crm_system_backend.Prelude.{
  includes, ℕ, ◌+◌, ◌-◌, Bool, not, ◌||◌, Option, none, some, List, [], ◌∷◌, ◌++◌, leb,
  if◌then◌else◌, find, same_id?, is_some,
}
use crm_system_backend.Prelude.Text.{Text}
use crm_system_backend.Prelude.Results.{
  Result, ok, err, ◌>>=◌, ◌>>◌, bad_request, not_found, conflict, or_throw, throw_if,
}
use crm_system_backend.Shared.Access.{Role}
use crm_system_backend.Notifications.{DealRef, DealEvent, deal_assigned_to}
use crm_system_backend.Tasks.{Config, due_soon_threshold}

pub data DealPriority : Type 0 where
  low medium high : DealPriority

pub record Deal : Type 0 where
  pub id : ℕ
  pub name : Text
  pub description : Text
  pub main_comment : Option Text
  pub price : ℕ
  pub status : ℕ
  pub customer_id : ℕ
  pub responsible_user_id : Option ℕ
  pub responsible_user_ids : List ℕ
  pub deadline : Option ℕ
  pub priority : DealPriority
  pub is_imported : Bool
  pub imported_by : Option ℕ

pub record Customer : Type 0 where
  pub id : ℕ
  pub email : ℕ

-- The entries of `requiredFields`: the columns that can be empty, those that cannot, and a name
-- that is no column.
pub data DealField : Type 0 where
  name_field description_field main_comment_field responsible_field deadline_field importer_field
        other_column no_column :
      DealField

pub record StageTransitionRule : Type 0 where
  pub from_stage : ℕ
  pub to_stage : ℕ
  pub allowed_roles : List Role
  pub required_fields : List DealField

pub record DealStageHistory : Type 0 where
  pub deal_id : ℕ
  pub from_stage : Option ℕ
  pub to_stage : ℕ
  pub changed_by_user_id : Option ℕ
  pub comment : Option Text

pub record Tables : Type 0 where
  pub deals : List Deal
  pub customers : List Customer
  pub users : List ℕ
  pub rules : List StageTransitionRule
  pub stage_history : List DealStageHistory

pub data Effect : Type 0 where
  emit : DealEvent → Effect
  add_reminder : ℕ → ℕ → Effect
  remove_reminder : ℕ → Effect

-- DEFAULT_DEAL_STAGE, 'todo'.
abbrev pub default_deal_stage : ℕ
default_deal_stage = 0

abbrev pub deal_key : Deal → ℕ
deal_key d = d.id

abbrev pub save_deals : List Deal → Tables → Tables
save_deals ds s = record s { deals = ds }

-- `scheduleDeadlineReminder` and `removeDeadlineReminder`.
abbrev remind : ℕ → ℕ → ℕ → List Effect
remind now id due =
    if leb due (now + due_soon_threshold)
    then []
    else add_reminder id (due - (now + due_soon_threshold)) ∷ []

unfoldable pub schedule_deadline_reminder : Config → ℕ → Deal → List Effect
schedule_deadline_reminder c now d = elim d.deadline [
  | none ↦ []
  | some due ↦ if not c.valkey_url || not c.reminders_queue then [] else remind now d.id due
]

abbrev pub remove_deadline_reminder : Config → ℕ → List Effect
remove_deadline_reminder c id = if c.reminders_queue then remove_reminder id ∷ [] else []

-- `buildDealRef`, the parts that decide who is told.
abbrev pub build_deal_ref : Deal → DealRef
build_deal_ref d = record { id = d.id; responsible_user_id = d.responsible_user_id }

-- `emitDealAssigned`.
abbrev pub emit_deal_assigned : Deal → ℕ → Option ℕ → List Effect
emit_deal_assigned d u actor =
    if same_id? actor u then [] else emit (deal_assigned_to (build_deal_ref d) u actor) ∷ []

-- `ensureUserExists`.
unfoldable pub ensure_user_exists : ℕ → Tables → Result (Unit {0})
ensure_user_exists u s = throw_if (not (includes s.users u)) not_found

-- `resolveCustomer`: the customer's id and the customers that are left. `fresh` is the id of a new
-- customer.
unfoldable pub resolve_customer :
    ℕ → Option ℕ → Option ℕ → List Customer → Result (ℕ × List Customer)
resolve_customer fresh (some id) (some email) cs = err bad_request
resolve_customer fresh (some id) none cs = do
  c ← or_throw (find (λ (x : Customer). x.id) id cs) not_found
  ok (c.id, cs)
resolve_customer fresh none (some email) cs = do
  throw_if (is_some (find (λ (x : Customer). x.email) email cs)) conflict
  ok (fresh, cs ++ record { id = fresh; email = email } ∷ [])
resolve_customer fresh none none cs = err bad_request
