-- ===== src/Deals/Assigned.antt =====
-- Who is told about a new set of responsible users: `updateResponsibles` of
-- apps/api-gateway/src/modules/deals/deals.service.ts.
use crm_system_backend.Prelude.{
  once, times, times-dedupe, includes, dedupe, ℕ, ◌≡◌, ◌∙◌, Bool, false, not, ◌&&◌, ◌||◌, Option,
  some, List, [], ◌∷◌, arith, ◌==◌, if◌then◌else◌, find, keep_if, length, same_id?,
}
use crm_system_backend.Prelude.Results.{is_ok, not_found, Ensures, or_throw-Ensures, >>=-Ensures}
use crm_system_backend.Notifications.{deal_assigned_to}
use crm_system_backend.Deals.Data.{Deal, Tables, Effect, emit, deal_key}
use crm_system_backend.Deals.Methods.{
  assign_events, update_responsibles, ensure_users, set_responsibles,
}

-- An effect that tells the user of the assignment, and the number of them.
abbrev pub is_told : ℕ → Effect → Bool
is_told u (emit (deal_assigned_to d v actor)) = v == u
is_told u _ = false

abbrev pub tells : ℕ → List Effect → List Effect
tells u = keep_if (is_told u)

tells-assign_events :
    (u : ℕ) (d : Deal) (previous : List ℕ) (actor : Option ℕ) (us : List ℕ)
    → length (tells u (assign_events d previous actor us))
      ≡ (if includes previous u || same_id? actor u then 0 else times u us)
unfolding assign_events
tells-assign_events u d previous actor [] = ground arith
tells-assign_events u d previous actor (v ∷ us) =
    ground (arith, tells-assign_events u d previous actor us)

tells-Ensures :
    (id : ℕ) (wanted : List ℕ) (actor : Option ℕ) (s : Tables) (old : Deal)
    → find deal_key id s.deals ≡ some old
    → Ensures
        (λ r.
          (u : ℕ)
          → length (tells u r.2)
            ≡ once (
                includes wanted u
                && not (includes old.responsible_user_ids u)
                && not (same_id? actor u)))
        (update_responsibles id wanted actor s)
unfolding update_responsibles
tells-Ensures id wanted actor s old found =
    or_throw-Ensures P (find deal_key id s.deals) not_found _ (λ d e.
      >>=-Ensures P (ensure_users (dedupe wanted) s) _ (λ _ k. λ u.
        tells-assign_events u (set_responsibles (dedupe wanted) d) d.responsible_user_ids actor
          (dedupe wanted)
        ∙ by_cases u d (old_row d e)))
  where
    P : Tables × Deal × List Effect → Type 0
    P r =
        (u : ℕ)
        → length (tells u r.2)
          ≡ once (
              includes wanted u
              && not (includes old.responsible_user_ids u)
              && not (same_id? actor u))

    old_row :
        (d : Deal)
        → find deal_key id s.deals ≡ some d
        → d.responsible_user_ids ≡ old.responsible_user_ids
    old_row d e = cc

    bools : (a b w : Bool) → (if a || b then 0 else once w) ≡ once (w && not a && not b)
    bools a b w = ground arith

    by_cases :
        (u : ℕ) (d : Deal)
        → d.responsible_user_ids ≡ old.responsible_user_ids
        → (if includes d.responsible_user_ids u || same_id? actor u
            then 0
            else times u (dedupe wanted))
          ≡ once (
              includes wanted u
              && not (includes old.responsible_user_ids u)
              && not (same_id? actor u))
    by_cases u d same = rw same (
        rw (times-dedupe u wanted)
          (bools (includes old.responsible_user_ids u) (same_id? actor u) (includes wanted u)))

responsibles-is_ok :
    (id : ℕ) (wanted : List ℕ) (actor : Option ℕ) (s : Tables) (old : Deal)
    → find deal_key id s.deals ≡ some old
    → is_ok (update_responsibles id wanted actor s) ≡ is_ok (ensure_users (dedupe wanted) s)
unfolding update_responsibles
responsibles-is_ok id wanted actor s old found = ground arith

-- On an existing deal, `updateResponsibles` succeeds exactly if every user it names exists. Then
-- each user is sent exactly one event of the assignment if the user is in the new set, was not
-- responsible before and is not the caller, and otherwise none, however often the request names
-- the user.
pub update_responsibles-tells :
    (id : ℕ) (wanted : List ℕ) (actor : Option ℕ) (s : Tables) (old : Deal)
    → find deal_key id s.deals ≡ some old
    → (is_ok (update_responsibles id wanted actor s) ≡ is_ok (ensure_users (dedupe wanted) s))
      × Ensures
          (λ r.
            (u : ℕ)
            → length (tells u r.2)
              ≡ once (
                  includes wanted u
                  && not (includes old.responsible_user_ids u)
                  && not (same_id? actor u)))
          (update_responsibles id wanted actor s)
update_responsibles-tells id wanted actor s old found =
    (responsibles-is_ok id wanted actor s old found, tells-Ensures id wanted actor s old found)
