-- ===== src/Delivery/Drained.antt =====
-- The waiting messages come to an end, whatever the order in which they are handled
-- (apps/notifications-service/src/notifications/notifications.controller.ts and
-- apps/api-gateway/src/modules/notifications/gateway-events.controller.ts).
use crm_system_backend.Prelude.{
  ℕ, ◌+◌, ◌*◌, ◌<◌, ◌≤◌, ◌≡◌, ◌⊎◌, inl, inr, refl, Bool, true, false, Option, none, some, List, [],
  ◌∷◌, arith, ltb, length,
}
use crm_system_backend.Prelude.Queues.{take_at-length, length-append}
use crm_system_backend.Tasks.{Config}
use crm_system_backend.Notifications.{Notification, Notice, notify}
use crm_system_backend.Delivery.{
  Event, World, Action, deal_call, task_call, deal_job, task_job, handle_event, push_row, read_one,
  read_all, clear_read, handle, store, handle_at, push_at, change, act, run, sent,
}

-- The action is the handling of a message that waits.
abbrev pub delivers : Action → World → Bool
delivers (handle_event place uuid) w = ltb place (length w.queue)
delivers (push_row place) w = ltb place (length w.gateway_queue)
delivers _ w = false

abbrev pub Delivers : Config → List Action → World → Type 0
Delivers c [] w = Unit
Delivers c (a ∷ as_done) w = (delivers a w ≡ true) × Delivers c as_done (act c a w)

-- The handlings that are left at most: an event's two, a row's one.
abbrev pub weight : World → ℕ
weight w = 2 * length w.queue + length w.gateway_queue

store-weight : (uuid : ℕ) (o : Option Notice) (w : World) → weight (store uuid o w) ≤ weight w + 1
unfolding store notify
store-weight uuid none w = omega arith
store-weight uuid (some n) w =
    omega (arith, length-append w.gateway_queue ((notify uuid n w.inbox).1 ∷ []))

handle_at-weight :
    (place uuid : ℕ) (w : World)
    → place < length w.queue
    → weight (handle_at place uuid w) + 1 ≤ weight w
unfolding handle_at
handle_at-weight place uuid w h =
    let ((e, rest), found, shorter) = take_at-length place w.queue h in
    rw (found, handle_at)
      (omega (arith, shorter, store-weight uuid (handle e) (record w { queue = rest })))

push_at-weight :
    (place : ℕ) (w : World)
    → place < length w.gateway_queue
    → weight (push_at place w) + 1 ≤ weight w
unfolding push_at
push_at-weight place w h =
    let ((n, rest), found, shorter) = take_at-length place w.gateway_queue h in
    rw (found, push_at) (omega (arith, shorter))

place_lt : (place n : ℕ) → ltb place n ≡ true → place < n
place_lt place n h = ground arith

act-weight :
    (c : Config) (a : Action) (w : World) → delivers a w ≡ true → weight (act c a w) + 1 ≤ weight w
unfolding act change sent
act-weight c (handle_event place uuid) w h = omega (
  arith,
  handle_at-weight place uuid w (place_lt place (length w.queue) h),
  length-append (handle_at place uuid w).queue [],
)
act-weight c (push_row place) w h = omega (
  arith,
  push_at-weight place w (place_lt place (length w.gateway_queue) h),
  length-append (push_at place w).queue [],
)
act-weight c (deal_call r) w h = cc
act-weight c (task_call r) w h = cc
act-weight c (deal_job id) w h = cc
act-weight c (task_job id) w h = cc
act-weight c (read_one id user) w h = cc
act-weight c (read_all user) w h = cc
act-weight c (clear_read user) w h = cc

run-weight :
    (c : Config) (as_done : List Action) (w : World)
    → Delivers c as_done w
    → length as_done + weight (run c as_done w) ≤ weight w
unfolding run
run-weight c [] w h = omega arith
run-weight c (a ∷ as_done) w h =
    omega (arith, act-weight c a w h.0, run-weight c as_done (act c a w) h.1)

-- Either both queues are empty or one of their messages can be handled.
next_delivery :
    (w : World) → ((w.queue ≡ []) × (w.gateway_queue ≡ [])) ⊎ ((a : Action) × (delivers a w ≡ true))
next_delivery w = by_queues w.queue w.gateway_queue refl refl
  where
    by_queues :
        (es : List Event) (ns : List Notification)
        → w.queue ≡ es
        → w.gateway_queue ≡ ns
        → ((w.queue ≡ []) × (w.gateway_queue ≡ [])) ⊎ ((a : Action) × (delivers a w ≡ true))
    by_queues [] [] q g = inl (q, g)
    by_queues (e ∷ es) ns q g = inr (handle_event 0 0, rw q (ground arith))
    by_queues [] (n ∷ ns) q g = inr (push_row 0, rw g (ground arith))

-- However the waiting messages are handled, one after another: there are at most two handlings
-- for each event and one for each row that waits, and until both queues are empty another message
-- can be handled.
pub deliveries_end :
    (c : Config) (as_done : List Action) (w : World)
    → Delivers c as_done w
    → (length as_done ≤ 2 * length w.queue + length w.gateway_queue)
      × ((((run c as_done w).queue ≡ []) × ((run c as_done w).gateway_queue ≡ []))
          ⊎ ((a : Action) × (delivers a (run c as_done w) ≡ true)))
deliveries_end c as_done w h =
    (omega (arith, run-weight c as_done w h), next_delivery (run c as_done w))
