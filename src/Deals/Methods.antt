-- ===== src/Deals/Methods.antt =====
-- The methods of DealsService that create, edit and delete deals
-- (apps/api-gateway/src/modules/deals/deals.service.ts).
use crm_system_backend.Prelude.{
  dedupe, without, includes, ℕ, Bool, true, false, not, ◌&&◌, Option, none, some, List, [], ◌∷◌,
  ◌++◌, ◌==◌, if◌then◌else◌, find, update, erase, keep_if, any, or_else, or_else?, same_id?,
  is_some,
}
use crm_system_backend.Prelude.Results.{Result, ok, err, ◌>>=◌, ◌>>◌, not_found, or_throw, throw_if}
use crm_system_backend.Tasks.{Config}
use crm_system_backend.Deals.Data.{
  Deal, DealPriority, Effect, Tables, deal_key, default_deal_stage, emit_deal_assigned, medium,
  remove_deadline_reminder, resolve_customer, save_deals, schedule_deadline_reminder,
}
use crm_system_backend.Prelude.Text.{Text, trim, is_empty}

-- CreateDealDto and ImportDealDto; the last two fields are those of an import.
pub record NewDealDto : Type 0 where
  pub name : Text
  pub description : Text
  pub price : ℕ
  pub customer_id : Option ℕ
  pub new_customer : Option ℕ
  pub responsible_user_id : ℕ
  pub deadline : Option ℕ
  pub priority : Option DealPriority

pub record UpdateDealDto : Type 0 where
  pub description : Option Text
  pub responsible_user_id : Option ℕ
  pub deadline : Option ℕ
  pub priority : Option DealPriority

abbrev pub new_deal : ℕ → ℕ → ℕ → Option ℕ → NewDealDto → Deal
new_deal uuid stage customer importer dto = record {
  id = uuid;
  name = dto.name;
  description = dto.description;
  main_comment = none;
  price = dto.price;
  status = stage;
  customer_id = customer;
  responsible_user_id = some dto.responsible_user_id;
  responsible_user_ids = dto.responsible_user_id ∷ [];
  deadline = dto.deadline;
  priority = or_else dto.priority medium;
  is_imported = is_some importer;
  imported_by = importer;
}

abbrev insert_deal :
    Config → ℕ → Deal → ℕ → Option ℕ → Tables → Tables × Result (Deal × List Effect)
insert_deal c now d responsible actor s = (
  record s { deals = s.deals ++ d ∷ [] },
  ok (d, schedule_deadline_reminder c now d ++ emit_deal_assigned d responsible actor),
)

-- `create` and `import`, each with the tables that it leaves, which a failed call may have changed.
abbrev pub ensure_users : List ℕ → Tables → Result (Unit {0})
ensure_users us s = throw_if (any (λ u. not (includes s.users u)) us) not_found

-- A step of a method that keeps the tables `s` if it throws.
abbrev pub step_or {ℓ} :
    {A : Type ℓ}
    → Result A
    → Tables
    → (A → Tables × Result (Deal × List Effect))
    → Tables × Result (Deal × List Effect)
step_or (err e) s next = (s, err e)
step_or (ok a) s next = next a

abbrev pub add_deal :
    Config
    → ℕ
    → ℕ
    → NewDealDto
    → List ℕ
    → (ℕ → Deal)
    → Option ℕ
    → Tables
    → Tables × Result (Deal × List Effect)
add_deal c now fresh dto users make actor s =
    step_or (resolve_customer fresh dto.customer_id dto.new_customer s.customers) s (λ r.
      step_or (ensure_users users (record s { customers = r.1 })) (record s { customers = r.1 })
        (λ _.
          insert_deal c now (make r.0) dto.responsible_user_id actor
            (record s { customers = r.1 })))

unfoldable pub create :
    Config → ℕ → ℕ → ℕ → NewDealDto → Option ℕ → Tables → Tables × Result (Deal × List Effect)
create c now fresh uuid dto actor s =
    add_deal c now fresh dto (dto.responsible_user_id ∷ [])
      (λ customer. new_deal uuid default_deal_stage customer none dto) actor s

-- `stage` and `importer` are the other fields of ImportDealDto.
unfoldable pub import_deal :
    Config
    → ℕ
    → ℕ
    → ℕ
    → ℕ
    → ℕ
    → NewDealDto
    → Option ℕ
    → Tables
    → Tables × Result (Deal × List Effect)
import_deal c now fresh uuid stage importer dto actor s =
    add_deal c now fresh dto (dto.responsible_user_id ∷ importer ∷ [])
      (λ customer. new_deal uuid stage customer (some importer) dto) actor s

abbrev pub edit_deal : UpdateDealDto → Deal → Deal
edit_deal dto d = record d {
  description = or_else dto.description d.description;
  responsible_user_id = or_else? dto.responsible_user_id d.responsible_user_id;
  responsible_user_ids = elim dto.responsible_user_id [
    | none ↦ d.responsible_user_ids
    | some u ↦ u ∷ without u d.responsible_user_ids
  ];
  deadline = or_else? dto.deadline d.deadline;
  priority = or_else dto.priority d.priority;
}

abbrev same_date : Option ℕ → Option ℕ → Bool
same_date none none = true
same_date (some a) (some b) = a == b
same_date _ _ = false

-- What `update` sends.
abbrev deadline_effects : Config → ℕ → UpdateDealDto → Deal → Deal → List Effect
deadline_effects c now dto old new =
    if is_some dto.deadline && not (same_date new.deadline old.deadline)
    then remove_deadline_reminder c old.id ++ schedule_deadline_reminder c now new
    else []

abbrev responsible_effects : UpdateDealDto → Deal → Deal → Option ℕ → List Effect
responsible_effects dto old new actor = elim dto.responsible_user_id [
  | none ↦ []
  | some u ↦ if same_id? old.responsible_user_id u then [] else emit_deal_assigned new u actor
]

abbrev pub list_of : Option ℕ → List ℕ
list_of none = []
list_of (some u) = u ∷ []

-- `update`.
unfoldable pub update_deal :
    Config → ℕ → ℕ → UpdateDealDto → Option ℕ → Tables → Result (Tables × Deal × List Effect)
update_deal c now id dto actor s = do
  old ← or_throw (find deal_key id s.deals) not_found
  ensure_users (list_of dto.responsible_user_id) s
  let new = edit_deal dto old
  ok (
    save_deals (update deal_key id (edit_deal dto) s.deals) s,
    new,
    deadline_effects c now dto old new ++ responsible_effects dto old new actor,
  )

abbrev pub first : List ℕ → Option ℕ
first [] = none
first (u ∷ us) = some u

abbrev pub set_responsibles : List ℕ → Deal → Deal
set_responsibles ids d = record d { responsible_user_ids = ids; responsible_user_id = first ids }

unfoldable pub assign_events : Deal → List ℕ → Option ℕ → List ℕ → List Effect
assign_events d previous actor [] = []
assign_events d previous actor (u ∷ us) =
    (if includes previous u then [] else emit_deal_assigned d u actor)
    ++ assign_events d previous actor us

-- `updateResponsibles`.
unfoldable pub update_responsibles :
    ℕ → List ℕ → Option ℕ → Tables → Result (Tables × Deal × List Effect)
unfolding assign_events
update_responsibles id wanted actor s = do
  old ← or_throw (find deal_key id s.deals) not_found
  let ids = dedupe wanted
  ensure_users ids s
  let new = set_responsibles ids old
  ok (
    save_deals (update deal_key id (set_responsibles ids) s.deals) s,
    new,
    assign_events new old.responsible_user_ids actor ids,
  )

-- `updateMainComment`.
abbrev pub set_main_comment : Text → Deal → Deal
set_main_comment comment d = record d {
  main_comment = if is_empty (trim comment) then none else some (trim comment);
}

unfoldable pub update_main_comment : ℕ → Text → Tables → Result (Tables × Deal)
update_main_comment id comment s = do
  old ← or_throw (find deal_key id s.deals) not_found
  ok (
    save_deals (update deal_key id (set_main_comment comment) s.deals) s,
    set_main_comment comment old,
  )

-- `remove`, with the rows that go with the deal.
unfoldable pub remove : Config → ℕ → Tables → Result (Tables × List Effect)
remove c id s = do
  d ← or_throw (find deal_key id s.deals) not_found
  ok (
    record s {
      deals = erase deal_key id s.deals;
      stage_history = keep_if (λ h. not (h.deal_id == id)) s.stage_history;
    },
    remove_deadline_reminder c id,
  )
