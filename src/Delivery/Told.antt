-- ===== src/Delivery/Told.antt =====
-- Nothing is lost and nothing is sent twice on the way from an event to the user's screen and inbox
-- (apps/notifications-service/src/notifications/notifications.service.ts).
use crm_system_backend.Prelude.{
  ℕ, ◌+◌, ◌≡◌, refl, ap, Bool, false, Option, none, some, List, [], ◌∷◌, arith, if◌then◌else◌,
  update, keep_if, Option-cases, inl, inr,
}
use crm_system_backend.Prelude.Queues.{take_at, count_if, count_if-append, count_if-take_at}
use crm_system_backend.Tasks.{Config}
use crm_system_backend.Notifications.{
  Notification, Notice, notification_key, mark, mark_all, notify, mark_read, mark_all_read,
  delete_read, is_read_of,
}
use crm_system_backend.Delivery.{
  Event, World, Action, deal_call, task_call, deal_job, task_job, handle_event, push_row, read_one,
  read_all, clear_read, handle, store, handle_at, push_at, change, act, run, sent, sent_by, deleted,
  deleted_by, value_or,
}

-- The notice that a row was made from.
abbrev pub notice_of : Notification → Notice
notice_of n = record { user_id = n.user_id; kind = n.kind; subject = n.subject }

module _ (p : Notice → Bool) where
  -- The events that ask for such a notice, and the rows of such a notice.
  abbrev pub asks : Event → Bool
  asks e = elim (handle e) [ none ↦ false | some n ↦ p n ]

  abbrev pub asked : List Event → ℕ
  asked es = count_if asks es

  abbrev pub rows : List Notification → ℕ
  rows ns = count_if (λ n. p (notice_of n)) ns

  -- What is on its way, and what has arrived.
  abbrev pub announced : World → ℕ
  announced w = asked w.queue + (rows w.gateway_queue + rows w.pushed)

  store-announced :
      (uuid : ℕ) (o : Option Notice) (w : World)
      → announced (store uuid o w)
        ≡ announced w + elim o [ none ↦ 0 | some n ↦ if p n then 1 else 0 ]
  unfolding store notify
  store-announced uuid none w = omega arith
  store-announced uuid (some n) w = ground (
    arith,
    count_if-append (λ (x : Notification). p (notice_of x)) w.gateway_queue
        ((notify uuid n w.inbox).1 ∷ []),
  )

  handle_at-announced :
      (place uuid : ℕ) (w : World) → announced (handle_at place uuid w) ≡ announced w
  unfolding handle_at
  handle_at-announced place uuid w = elim (Option-cases (take_at place w.queue)) [
    | inl empty ↦ rw (empty, handle_at) refl
    | inr ((e, rest), found) ↦
        rw (found, handle_at)
          (omega (
            arith,
            store-announced uuid (handle e) (record w { queue = rest }),
            count_if-take_at asks place w.queue e rest found,
            asks_as_number e,
          ))
  ]
    where
      asks_as_number :
          (e : Event)
          → (if asks e then 1 else 0)
            ≡ elim (handle e) as (λ _. ℕ) [ none ↦ 0 | some n ↦ if p n then 1 else 0 ]
      asks_as_number e = ground arith

  push_at-announced : (place : ℕ) (w : World) → announced (push_at place w) ≡ announced w
  unfolding push_at
  push_at-announced place w = elim (Option-cases (take_at place w.gateway_queue)) [
    | inl empty ↦ rw (empty, push_at) refl
    | inr ((n, rest), found) ↦
        rw (found, push_at)
          (ground (
            arith,
            count_if-append (λ (x : Notification). p (notice_of x)) w.pushed (n ∷ []),
            count_if-take_at (λ (x : Notification). p (notice_of x)) place w.gateway_queue n rest
                found,
          ))
  ]

  change-announced : (c : Config) (a : Action) (w : World) → announced (change c a w) ≡ announced w
  unfolding change
  change-announced c (deal_call r) w = refl
  change-announced c (task_call r) w = refl
  change-announced c (deal_job id) w = refl
  change-announced c (task_job id) w = refl
  change-announced c (handle_event place uuid) w = handle_at-announced place uuid w
  change-announced c (push_row place) w = push_at-announced place w
  change-announced c (read_one id user) w = refl
  change-announced c (read_all user) w = refl
  change-announced c (clear_read user) w = refl

  pub run-announced :
      (c : Config) (as_done : List Action) (w : World)
      → announced (run c as_done w) ≡ announced w + asked (sent_by c as_done w)
  unfolding run sent_by act
  run-announced c [] w = omega arith
  run-announced c (a ∷ as_done) w = omega (
    arith,
    run-announced c as_done (act c a w),
    act-announced,
    count_if-append asks (sent c a w) (sent_by c as_done (act c a w)),
  )
    where
      act-announced : announced (act c a w) ≡ announced w + asked (sent c a w)
      act-announced =
          omega
            (arith, change-announced c a w, count_if-append asks (change c a w).queue (sent c a w))

  -- What the gateway is sent or was sent.
  abbrev pub handed : World → ℕ
  handed w = rows w.gateway_queue + rows w.pushed

  -- Against what is handed on, the rows of the inbox and the deleted ones.
  abbrev Filed : List Notification → World → World → Type 0
  Filed gone w after = rows after.inbox + (rows gone + handed w) ≡ rows w.inbox + handed after

  store-Filed : (uuid : ℕ) (o : Option Notice) (w : World) → Filed [] w (store uuid o w)
  unfolding store notify
  store-Filed uuid none w = omega arith
  store-Filed uuid (some n) w = ground (
    arith,
    count_if-append (λ (x : Notification). p (notice_of x)) w.gateway_queue
        ((notify uuid n w.inbox).1 ∷ []),
    count_if-append (λ (x : Notification). p (notice_of x)) w.inbox
        ((notify uuid n w.inbox).1 ∷ []),
  )

  handle_at-Filed : (place uuid : ℕ) (w : World) → Filed [] w (handle_at place uuid w)
  unfolding handle_at
  handle_at-Filed place uuid w = elim (Option-cases (take_at place w.queue)) [
    | inl empty ↦ rw (empty, handle_at) (omega arith)
    | inr ((e, rest), found) ↦
        rw (found, handle_at) (store-Filed uuid (handle e) (record w { queue = rest }))
  ]

  push_at-Filed : (place : ℕ) (w : World) → Filed [] w (push_at place w)
  unfolding push_at
  push_at-Filed place w = elim (Option-cases (take_at place w.gateway_queue)) [
    | inl empty ↦ rw (empty, push_at) (omega arith)
    | inr ((n, rest), found) ↦
        rw (found, push_at)
          (ground (
            arith,
            count_if-append (λ (x : Notification). p (notice_of x)) w.pushed (n ∷ []),
            count_if-take_at (λ (x : Notification). p (notice_of x)) place w.gateway_queue n rest
                found,
          ))
  ]

  rows-update :
      (id : ℕ) (ns : List Notification) → rows (update notification_key id mark ns) ≡ rows ns
  rows-update id [] = refl
  rows-update id (n ∷ ns) = ground (arith, rows-update id ns)

  rows-mark_read :
      (id user : ℕ) (ns : List Notification)
      → rows (value_or ns (λ r. r.1) (mark_read id user ns)) ≡ rows ns
  unfolding mark_read
  rows-mark_read id user ns = ground (arith, rows-update id ns)

  rows-mark_all : (user : ℕ) (ns : List Notification) → rows (mark_all user ns) ≡ rows ns
  unfolding mark_all
  rows-mark_all user [] = refl
  rows-mark_all user (n ∷ ns) = ground (arith, rows-mark_all user ns)

  rows-delete_read :
      (user : ℕ) (ns : List Notification)
      → rows (delete_read user ns).1 + rows (keep_if (is_read_of user) ns) ≡ rows ns
  unfolding delete_read
  rows-delete_read user [] = refl
  rows-delete_read user (n ∷ ns) = ground (arith, rows-delete_read user ns)

  change-Filed : (c : Config) (a : Action) (w : World) → Filed (deleted a w) w (change c a w)
  unfolding change mark_all_read
  change-Filed c (deal_call r) w = omega arith
  change-Filed c (task_call r) w = omega arith
  change-Filed c (deal_job id) w = omega arith
  change-Filed c (task_job id) w = omega arith
  change-Filed c (handle_event place uuid) w = handle_at-Filed place uuid w
  change-Filed c (push_row place) w = push_at-Filed place w
  change-Filed c (read_one id user) w = omega (arith, rows-mark_read id user w.inbox)
  change-Filed c (read_all user) w = omega (arith, rows-mark_all user w.inbox)
  change-Filed c (clear_read user) w = omega (arith, rows-delete_read user w.inbox)

  pub run-Filed :
      (c : Config) (as_done : List Action) (w : World)
      → Filed (deleted_by c as_done w) w (run c as_done w)
  unfolding run deleted_by act
  run-Filed c [] w = omega arith
  run-Filed c (a ∷ as_done) w = omega (
    arith,
    run-Filed c as_done (act c a w),
    change-Filed c a w,
    count_if-append (λ (x : Notification). p (notice_of x)) (deleted a w)
        (deleted_by c as_done (act c a w)),
  )

  -- From a moment at which both queues are empty and nothing has been pushed to a later one at which
  -- they are empty again, whatever calls, reminders and deliveries happen between and in whatever
  -- order messages are handled: the pushes are as many as the events sent that ask for one, of any
  -- user, kind and subject, and the inbox has gained as many rows, but for those that `deleteRead`
  -- has deleted.
  pub every_notice_arrives :
      (c : Config) (as_done : List Action) (w : World)
      → w.queue ≡ []
      → w.gateway_queue ≡ []
      → w.pushed ≡ []
      → (run c as_done w).queue ≡ []
      → (run c as_done w).gateway_queue ≡ []
      → (rows (run c as_done w).pushed ≡ asked (sent_by c as_done w))
        × (rows (run c as_done w).inbox + rows (deleted_by c as_done w)
            ≡ rows w.inbox + asked (sent_by c as_done w))
  every_notice_arrives c as_done w q g sent_none q2 g2 = (arrived, filed)
    where
      arrived : rows (run c as_done w).pushed ≡ asked (sent_by c as_done w)
      arrived = omega (
        arith,
        run-announced c as_done w,
        ap asked q,
        ap rows g,
        ap rows sent_none,
        ap asked q2,
        ap rows g2,
      )

      filed :
          rows (run c as_done w).inbox + rows (deleted_by c as_done w)
          ≡ rows w.inbox + asked (sent_by c as_done w)
      filed =
          omega (arith, arrived, run-Filed c as_done w, ap rows g, ap rows sent_none, ap rows g2)
