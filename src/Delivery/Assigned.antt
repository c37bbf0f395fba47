-- ===== src/Delivery/Assigned.antt =====
-- A new set of responsible users, from the call to the users' screens: `updateResponsibles` of
-- apps/api-gateway/src/modules/deals/deals.service.ts, `handleDealAssigned` of
-- apps/notifications-service/src/notifications/notifications.service.ts.
use crm_system_backend.Prelude.{
  ℕ, ◌+◌, ◌≡◌, refl, ap, Bool, true, false, not, ◌&&◌, Option, some, List, [], ◌∷◌, arith, ◌==◌,
  find, length, includes, once, same_id?, dedupe,
}
use crm_system_backend.Prelude.Results.{
  ok, not_found, Ensures, Ensures-ok, or_throw-Ensures, >>=-Ensures,
}
use crm_system_backend.Prelude.Queues.{count_if-append}
use crm_system_backend.Tasks.{Config}
use crm_system_backend.Notifications.{Notice, deal_assigned, handle_deal}
use crm_system_backend.Deals.Data.{Deal, Tables, Effect, deal_key}
use crm_system_backend.Deals.Methods.{
  assign_events, update_responsibles, ensure_users, set_responsibles,
}
use crm_system_backend.Deals.Assigned.{tells, update_responsibles-tells}
use crm_system_backend.Deals.Responsibles.{responsibles_request}
use crm_system_backend.Delivery.{
  World, Action, deal_call, task_call, deal_job, task_job, handle_event, push_row, read_one,
  read_all, clear_read, handle, act, run, sent, sent_by, deal_events, deal_effects,
}
use crm_system_backend.Delivery.Told.{asks, asked, rows, run-announced}
use crm_system_backend.Delivery.Drained.{Delivers, delivers}

-- A notice to the user that a deal was assigned to them.
abbrev pub assigned_to : ℕ → Notice → Bool
assigned_to u n = n.user_id == u && elim n.kind [ deal_assigned ↦ true | _ ↦ false ]

asked-assign_events :
    (u : ℕ) (d : Deal) (previous : List ℕ) (actor : Option ℕ) (us : List ℕ)
    → asked (assigned_to u) (deal_events (assign_events d previous actor us))
      ≡ length (tells u (assign_events d previous actor us))
unfolding assign_events handle handle_deal
asked-assign_events u d previous actor [] = refl
asked-assign_events u d previous actor (v ∷ us) =
    ground (arith, asked-assign_events u d previous actor us)

abbrev HeardAsTold : ℕ → Tables × Deal × List Effect → Type 0
HeardAsTold u r = asked (assigned_to u) (deal_events r.2) ≡ length (tells u r.2)

update_responsibles-HeardAsTold :
    (u id : ℕ) (wanted : List ℕ) (actor : Option ℕ) (s : Tables)
    → Ensures (HeardAsTold u) (update_responsibles id wanted actor s)
unfolding update_responsibles
update_responsibles-HeardAsTold u id wanted actor s =
    or_throw-Ensures (HeardAsTold u) (find deal_key id s.deals) not_found _ (λ d e.
      >>=-Ensures (HeardAsTold u) (ensure_users (dedupe wanted) s) _ (λ _ k.
        asked-assign_events u (set_responsibles (dedupe wanted) d) d.responsible_user_ids actor
          (dedupe wanted)))

delivery-sent : (c : Config) (a : Action) (w : World) → delivers a w ≡ true → sent c a w ≡ []
unfolding sent
delivery-sent c (handle_event place uuid) w h = refl
delivery-sent c (push_row place) w h = refl
delivery-sent c (deal_call r) w h = cc
delivery-sent c (task_call r) w h = cc
delivery-sent c (deal_job id) w h = cc
delivery-sent c (task_job id) w h = cc
delivery-sent c (read_one id user) w h = cc
delivery-sent c (read_all user) w h = cc
delivery-sent c (clear_read user) w h = cc

deliveries-sent_by :
    (c : Config) (as_done : List Action) (w : World)
    → Delivers c as_done w
    → sent_by c as_done w ≡ []
unfolding sent_by
deliveries-sent_by c [] w h = refl
deliveries-sent_by c (a ∷ as_done) w h =
    rw (delivery-sent c a w h.0, deliveries-sent_by c as_done (act c a w) h.1) refl

abbrev pub reassign : ℕ → List ℕ → Option ℕ → Action
reassign id wanted actor = deal_call (responsibles_request id wanted actor)

-- A call of `updateResponsibles` that succeeds while both queues are empty, and then the handling
-- of the waiting messages, in any order, until both are empty again. Of the notices that a deal was
-- assigned to them, each user is pushed exactly one more if the user is in the new set, was not
-- responsible before and is not the caller, and otherwise none.
pub new_responsibles_hear_once :
    (c : Config) (id : ℕ) (wanted : List ℕ) (actor : Option ℕ) (as_done : List Action) (w : World)
    (old : Deal) (r : Tables × Deal × List Effect) (u : ℕ)
    → w.queue ≡ []
    → w.gateway_queue ≡ []
    → find deal_key id w.deals.deals ≡ some old
    → update_responsibles id wanted actor w.deals ≡ ok r
    → Delivers c as_done (act c (reassign id wanted actor) w)
    → (run c (reassign id wanted actor ∷ as_done) w).queue ≡ []
    → (run c (reassign id wanted actor ∷ as_done) w).gateway_queue ≡ []
    → rows (assigned_to u) (run c (reassign id wanted actor ∷ as_done) w).pushed
      ≡ rows (assigned_to u) w.pushed
        + once (
            includes wanted u
            && not (includes old.responsible_user_ids u)
            && not (same_id? actor u))
unfolding run sent_by sent deal_effects
new_responsibles_hear_once c id wanted actor as_done w old r u q g found succeeds handled q2 g2 =
    omega (
      arith,
      run-announced p c (call ∷ as_done) w,
      ap (asked p) q,
      ap (rows p) g,
      ap (asked p) q2,
      ap (rows p) g2,
      sent_for_call,
    )
  where
    p : Notice → Bool
    p = assigned_to u

    call : Action
    call = reassign id wanted actor

    effects : deal_effects c (responsibles_request id wanted actor) w.deals ≡ r.2
    effects = rw (succeeds, deal_effects) refl

    told :
        length (tells u r.2)
        ≡ once (
            includes wanted u
            && not (includes old.responsible_user_ids u)
            && not (same_id? actor u))
    told =
        Ensures-ok _ (update_responsibles id wanted actor w.deals) r
          (update_responsibles-tells id wanted actor w.deals old found).1 succeeds u

    heard : HeardAsTold u r
    heard =
        Ensures-ok (HeardAsTold u) (update_responsibles id wanted actor w.deals) r
          (update_responsibles-HeardAsTold u id wanted actor w.deals) succeeds

    sent_for_call :
        asked p (sent_by c (call ∷ as_done) w)
        ≡ once (
            includes wanted u
            && not (includes old.responsible_user_ids u)
            && not (same_id? actor u))
    sent_for_call = omega (
      arith,
      heard,
      told,
      ap (λ es. asked p (deal_events es)) effects,
      count_if-append (asks p) (sent c call w) (sent_by c as_done (act c call w)),
      ap (asked p) (deliveries-sent_by c as_done (act c call w) handled),
    )
