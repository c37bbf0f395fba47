-- ===== src/Deals/Transitions.antt =====
-- When a deal changes its stage, and what the client is told that it may do: `changeStage` and
-- `getAllowedTransitions` of apps/api-gateway/src/modules/deals/deals.service.ts.
use crm_system_backend.Prelude.{
  includes, ℕ, ◌≡◌, ◌≢◌, inl, inr, sym, subst, true, false, ◌&&◌, Option, none, some, List, [], ◌∷◌,
  ◌++◌, map, arith, ◌==◌, if◌then◌else◌, find, keep_if, any, Bool-cases,
}
use crm_system_backend.Prelude.Text.{Text}
use crm_system_backend.Prelude.Results.{ok}
use crm_system_backend.Shared.Access.{AuthUser, includes_role}
use crm_system_backend.Deals.Data.{
  Deal, Tables, Effect, StageTransitionRule, deal_key, ensure_user_exists,
}
use crm_system_backend.Deals.Stages.{
  find_rule, lacks_field, set_stage, stage_row, write_stage, stage_events, check_stage,
  change_stage, get_allowed_transitions,
}

-- `getAllowedTransitions` offers the transition to the user.
abbrev pub Offers : AuthUser → Tables → ℕ → ℕ → Type 0
Offers actor s from to =
    any (λ (p : ℕ × ℕ). p.0 == from && p.1 == to) (get_allowed_transitions actor s) ≡ true

-- A rule for each pair of stages, `@@unique([fromStage, toStage])`.
abbrev pub RulesUnique : List StageTransitionRule → Type 0
RulesUnique [] = Unit
RulesUnique (r ∷ rs) = (find_rule r.from_stage r.to_stage rs ≡ none) × RulesUnique rs

-- What `check_stage` has found when it lets a deal pass.
abbrev pub Passed : Deal → ℕ → AuthUser → Tables → Type 0
Passed d to actor s =
    (includes s.users actor.id ≡ true)
    × (rule : StageTransitionRule) × (find_rule d.status to s.rules ≡ some rule)
    × (includes_role rule.allowed_roles actor.role ≡ true)
    × (lacks_field rule d ≡ false)

-- What `changeStage` leaves.
pub record Moved (id to : ℕ) (comment : Option Text) (actor : AuthUser) (s : Tables) (d : Deal)
    (r : Tables × Deal × List Effect) : Type 0 where
  passed : Passed d to actor s
  offers : Offers actor s d.status to
  stored : find deal_key id r.0.deals ≡ some (set_stage to d)
  others : (j : ℕ) → j ≢ id → find deal_key j r.0.deals ≡ find deal_key j s.deals
  history : r.0.stage_history ≡ s.stage_history ++ stage_row id d.status to actor.id comment ∷ []
  sent : r.2 ≡ stage_events d actor.id

offers_rule :
    (from to : ℕ) (actor : AuthUser) (rules : List StageTransitionRule)
    → RulesUnique rules
    → any
        (λ (p : ℕ × ℕ). p.0 == from && p.1 == to)
        (map
          (λ (r : StageTransitionRule). (r.from_stage, r.to_stage))
          (keep_if (λ r. includes_role r.allowed_roles actor.role) rules))
      ≡ true
    → (r : StageTransitionRule) × (find_rule from to rules ≡ some r)
      × (includes_role r.allowed_roles actor.role ≡ true)
offers_rule from to actor [] unique h = cc
offers_rule from to actor (q ∷ rules) unique h =
    elim (Bool-cases (q.from_stage == from && q.to_stage == to)) [
      | inl fits ↦ (q, at_head fits, role_of fits (offers_rule from to actor rules unique.1))
      | inr other ↦ in_tail other (offers_rule from to actor rules unique.1 (tail_offers other))
    ]
  where
    at_head :
        (q.from_stage == from && q.to_stage == to) ≡ true → find_rule from to (q ∷ rules) ≡ some q
    at_head f = ground arith

    role_of :
        (q.from_stage == from && q.to_stage == to) ≡ true
        → (any
                (λ (p : ℕ × ℕ). p.0 == from && p.1 == to)
                (map
                  (λ (r : StageTransitionRule). (r.from_stage, r.to_stage))
                  (keep_if (λ r. includes_role r.allowed_roles actor.role) rules))
              ≡ true
            → (r : StageTransitionRule) × (find_rule from to rules ≡ some r)
              × (includes_role r.allowed_roles actor.role ≡ true))
        → includes_role q.allowed_roles actor.role ≡ true
    role_of f in_rest = ground (arith, unique.0, in_rest)

    tail_offers :
        (q.from_stage == from && q.to_stage == to) ≡ false
        → any
            (λ (p : ℕ × ℕ). p.0 == from && p.1 == to)
            (map
              (λ (r : StageTransitionRule). (r.from_stage, r.to_stage))
              (keep_if (λ r. includes_role r.allowed_roles actor.role) rules))
          ≡ true
    tail_offers o = ground arith

    in_tail :
        (q.from_stage == from && q.to_stage == to) ≡ false
        → ((r : StageTransitionRule) × (find_rule from to rules ≡ some r)
            × (includes_role r.allowed_roles actor.role ≡ true))
        → (r : StageTransitionRule) × (find_rule from to (q ∷ rules) ≡ some r)
          × (includes_role r.allowed_roles actor.role ≡ true)
    in_tail o (r, e, role) =
        (r, subst (λ b. (if b then some q else find_rule from to rules) ≡ some r) (sym o) e, role)

passes :
    (d : Deal) (to : ℕ) (actor : AuthUser) (s : Tables) (rule : StageTransitionRule)
    → find_rule d.status to s.rules ≡ some rule
    → includes_role rule.allowed_roles actor.role ≡ true
    → lacks_field rule d ≡ false
    → includes s.users actor.id ≡ true
    → check_stage d to actor s ≡ ok tt
unfolding check_stage ensure_user_exists
passes d to actor s rule e role fields there = ground arith

-- Let there be at most one rule for two stages. A user to whom `getAllowedTransitions` offers the
-- move of a deal to another stage can make it, if the deal has the fields that the rule for the
-- move requires: `changeStage` succeeds and returns the deal in that stage.
pub offered_transition_succeeds :
    (id to : ℕ) (comment : Option Text) (actor : AuthUser) (s : Tables) (d : Deal)
    → RulesUnique s.rules
    → find deal_key id s.deals ≡ some d
    → d.status ≢ to
    → Offers actor s d.status to
    → ((rule : StageTransitionRule)
        → find_rule d.status to s.rules ≡ some rule
        → lacks_field rule d ≡ false)
    → includes s.users actor.id ≡ true
    → (after : Tables) × (sent : List Effect) × (change_stage id to comment actor s
        ≡ ok (after, set_stage to d, sent))
unfolding change_stage get_allowed_transitions
offered_transition_succeeds id to comment actor s d unique e differs offers filled there =
    (_, _, by_guard (passes d to actor s rule.0 rule.1 rule.2 (filled rule.0 rule.1) there))
  where
    rule :
        (r : StageTransitionRule) × (find_rule d.status to s.rules ≡ some r)
        × (includes_role r.allowed_roles actor.role ≡ true)
    rule = offers_rule d.status to actor s.rules unique offers

    by_guard :
        check_stage d to actor s ≡ ok tt
        → change_stage id to comment actor s
          ≡ ok (
            write_stage id d.status to actor.id comment s,
            set_stage to d,
            stage_events (set_stage to d) actor.id,
          )
    by_guard g = ground arith
