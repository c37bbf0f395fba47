-- ===== src/Examples/Deals.antt =====
-- One deal and the rule for its next stage.
use crm_system_backend.Prelude.{◌≡◌, refl, subst, true, false, none, some, List, [], ◌∷◌, arith}
use crm_system_backend.Prelude.Results.{ok}
use crm_system_backend.Shared.Access.{AuthUser, manager}
use crm_system_backend.Tasks.{Config}
use crm_system_backend.Deals.Data.{
  Deal, DealPriority, Tables, Effect, StageTransitionRule, deadline_field,
}
use crm_system_backend.Deals.Stages.{
  change_stage, set_stage, lacks_field, is_filled, get_allowed_transitions,
}
use crm_system_backend.Deals.Transitions.{offered_transition_succeeds}
use crm_system_backend.Deals.Responsibles.{
  responsibles_request, HeadsAreMain, run, run-HeadsAreMain,
}

abbrev deal : Deal
deal = record {
  id = 1;
  name = 80 ∷ [];
  description = 81 ∷ [];
  main_comment = none;
  price = 100;
  status = 0;
  customer_id = 3;
  responsible_user_id = some 7;
  responsible_user_ids = 7 ∷ [];
  deadline = some 1000;
  priority = DealPriority.low;
  is_imported = false;
  imported_by = none;
}

abbrev rule : StageTransitionRule
rule = record {
  from_stage = 0;
  to_stage = 1;
  allowed_roles = manager ∷ [];
  required_fields = deadline_field ∷ [];
}

abbrev tables : Tables
tables = record {
  deals = deal ∷ [];
  customers = [];
  users = 7 ∷ 8 ∷ [];
  rules = rule ∷ [];
  stage_history = [];
}

abbrev clerk : AuthUser
clerk = record { id = 8; email = "clerk@example.com"; role = manager }

rule_fields : (r : StageTransitionRule) → some rule ≡ some r → lacks_field r deal ≡ false
unfolding is_filled
rule_fields r e = subst (λ q. lacks_field q deal ≡ false) same_rule refl
  where
    same_rule : rule ≡ r
    same_rule = cc

offered_transition_succeeds_example :
    (after : Tables) × (sent : List Effect) × (change_stage 1 1 none clerk tables
      ≡ ok (after, set_stage 1 deal, sent))
unfolding get_allowed_transitions
offered_transition_succeeds_example =
    offered_transition_succeeds 1 1 none clerk tables deal (refl, tt) refl (λ e. omega arith) refl
      rule_fields refl

abbrev config : Config
config = record { valkey_url = true; reminders_queue = true }

run-HeadsAreMain_example :
    HeadsAreMain (run config (responsibles_request 1 (8 ∷ 7 ∷ 8 ∷ []) none ∷ []) tables)
run-HeadsAreMain_example =
    run-HeadsAreMain config (responsibles_request 1 (8 ∷ 7 ∷ 8 ∷ []) none ∷ []) tables (refl, tt)
