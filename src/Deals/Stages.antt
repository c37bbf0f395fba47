-- ===== src/Deals/Stages.antt =====
-- `changeStage` and `getAllowedTransitions` of DealsService
-- (apps/api-gateway/src/modules/deals/deals.service.ts).
use crm_system_backend.Prelude.{
  ℕ, Bool, true, false, not, ◌&&◌, Option, none, some, List, [], ◌∷◌, ◌++◌, map, ◌==◌,
  if◌then◌else◌, find, update, keep_if, any, is_some,
}
use crm_system_backend.Prelude.Text.{Text, trim, is_empty}
use crm_system_backend.Prelude.Results.{
  Result, ok, ◌>>=◌, ◌>>◌, bad_request, not_found, or_throw, throw_if,
}
use crm_system_backend.Shared.Access.{AuthUser, includes_role}
use crm_system_backend.Notifications.{stage_changed}
use crm_system_backend.Deals.Data.{
  Deal, DealField, DealStageHistory, Effect, StageTransitionRule, Tables, build_deal_ref,
  deadline_field, deal_key, description_field, emit, ensure_user_exists, importer_field,
  main_comment_field, name_field, no_column, other_column, responsible_field,
}

-- `findRule`.
abbrev fits : ℕ → ℕ → StageTransitionRule → Bool
fits from to r = r.from_stage == from && r.to_stage == to

abbrev pub find_rule : ℕ → ℕ → List StageTransitionRule → Option StageTransitionRule
find_rule from to [] = none
find_rule from to (r ∷ rs) = if fits from to r then some r else find_rule from to rs

-- `isFilled` of a column of the deal.
abbrev pub is_filled_text : Text → Bool
is_filled_text t = not (is_empty (trim t))

unfoldable pub is_filled : DealField → Deal → Bool
is_filled name_field d = is_filled_text d.name
is_filled description_field d = is_filled_text d.description
is_filled main_comment_field d = elim d.main_comment [ none ↦ false | some t ↦ is_filled_text t ]
is_filled responsible_field d = is_some d.responsible_user_id
is_filled deadline_field d = is_some d.deadline
is_filled importer_field d = is_some d.imported_by
is_filled other_column d = true
is_filled no_column d = false

abbrev pub lacks_field : StageTransitionRule → Deal → Bool
lacks_field r d = any (λ f. not (is_filled f d)) r.required_fields

abbrev pub set_stage : ℕ → Deal → Deal
set_stage stage d = record d { status = stage }

-- The transaction of `changeStage`.
abbrev pub stage_row : ℕ → ℕ → ℕ → ℕ → Option Text → DealStageHistory
stage_row id from to actor comment = record {
  deal_id = id;
  from_stage = some from;
  to_stage = to;
  changed_by_user_id = some actor;
  comment = comment;
}

abbrev pub write_stage : ℕ → ℕ → ℕ → ℕ → Option Text → Tables → Tables
write_stage id from to actor comment s = record s {
  deals = update deal_key id (set_stage to) s.deals;
  stage_history = s.stage_history ++ stage_row id from to actor comment ∷ [];
}

abbrev pub stage_events : Deal → ℕ → List Effect
stage_events d actor = elim d.responsible_user_id [
  | none ↦ []
  | some u ↦ if u == actor then [] else emit (stage_changed (build_deal_ref d) actor) ∷ []
]

-- The guards of `changeStage` between two different stages.
unfoldable pub check_stage : Deal → ℕ → AuthUser → Tables → Result (Unit {0})
unfolding ensure_user_exists
check_stage d to actor s = do
  rule ← or_throw (find_rule d.status to s.rules) bad_request
  throw_if (not (includes_role rule.allowed_roles actor.role)) bad_request
  throw_if (lacks_field rule d) bad_request
  ensure_user_exists actor.id s

-- `changeStage`.
unfoldable pub change_stage :
    ℕ → ℕ → Option Text → AuthUser → Tables → Result (Tables × Deal × List Effect)
unfolding check_stage
change_stage id to comment actor s = do
  d ← or_throw (find deal_key id s.deals) not_found
  if d.status == to
      then ok (s, d, [])
      else (check_stage d to actor s
          >> ok (
            write_stage id d.status to actor.id comment s,
            set_stage to d,
            stage_events (set_stage to d) actor.id,
          ))

-- `getAllowedTransitions`.
unfoldable pub get_allowed_transitions : AuthUser → Tables → List (ℕ × ℕ)
get_allowed_transitions actor s =
    map (λ (r : StageTransitionRule). (r.from_stage, r.to_stage))
      (keep_if (λ r. includes_role r.allowed_roles actor.role) s.rules)
