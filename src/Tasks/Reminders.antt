-- ===== src/Tasks/Reminders.antt =====
-- The reminders of due dates: `scheduleDueDateReminder` of
-- apps/tasks-service/src/tasks/tasks.service.ts and the processor of its jobs,
-- task-reminders.processor.ts.
use crm_system_backend.Prelude.{
  ◌∙◌, ℕ, ◌+◌, ◌<◌, ◌≡◌, ◌↔◌, refl, ap, true, false, some, List, [], ◌∷◌, ◌++◌, arith, find,
  find-update_self, update,
}
use crm_system_backend.Prelude.Results.{is_ok, not_found, Ensures, or_throw-Ensures}
use crm_system_backend.Shared.Access.{AuthUser}
use crm_system_backend.Tasks.{
  can_modify, Task, Effect, emit, completed, add_reminder, due_soon, done, Config, UpdateTaskData,
  task_key, schedule_due_date_reminder, due_soon_threshold, update_task, find_one, written, is_done,
  process_reminder, assigned_events, reminder_effects,
}
use crm_system_backend.Tasks.Changes.{
  granted, update_task-is_ok, guard-can_modify, completed_events-first,
}

-- A reminder is queued for a task if and only if Valkey and the queue are set up and the due date
-- lies more than the threshold of 24 hours ahead; its delay is positive and ends exactly 24 hours
-- before the due date.
pub schedule_due_date_reminder_lem :
    (c : Config) (now delay : ℕ) (t : Task)
    → (schedule_due_date_reminder c now t ≡ add_reminder t.id delay ∷ []) ↔ (
        (c.valkey_url ≡ true)
        × (c.reminders_queue ≡ true)
        × (0 < delay)
        × (t.due_date ≡ some (now + delay + due_soon_threshold)))
unfolding schedule_due_date_reminder
schedule_due_date_reminder_lem c now delay t = ground arith

reminded :
    (id a : ℕ) (ts : List Task) (t : Task)
    → find task_key id ts ≡ some t
    → is_done t.status ≡ false
    → t.assignee_id ≡ some a
    → process_reminder id ts ≡ emit (due_soon t) ∷ []
unfolding process_reminder
reminded id a ts t e p h = ground arith

-- What is left of the wish to complete the task `previous`.
abbrev StillOpen : ℕ → AuthUser → Task → Task × List Task × List Effect → Type 0
StillOpen id u previous r =
    ((before : List Effect) × (after : List Effect) × (r.2
        ≡ before ++ (emit (completed r.0 u.id) ∷ after)))
    × (find task_key id r.1 ≡ some r.0)
    × (is_done r.0.status ≡ false)
    × ((a : ℕ) → previous.assignee_id ≡ some a → process_reminder id r.1 ≡ emit (due_soon r.0) ∷ [])

reminded-Ensures :
    (c : Config) (now id : ℕ) (d : UpdateTaskData) (u : AuthUser) (tasks : List Task)
    (previous : Task)
    → find task_key id tasks ≡ some previous
    → d.status ≡ some done
    → is_done previous.status ≡ false
    → Ensures (StillOpen id u previous) (update_task c now id d u tasks)
unfolding update_task find_one
reminded-Ensures c now id d u tasks previous found wish pending =
    or_throw-Ensures P (find task_key id tasks) not_found _ (λ t e. guard-can_modify P t u _ (λ _. (
      (
        assigned_events d t (written d t) u,
        _,
        ap
            (λ xs.
              assigned_events d t (written d t) u
              ++ (xs ++ reminder_effects c now d t (written d t)))
            (completed_events-first d t (written d t) u wish (still_open t e)),
      ),
      stored t e,
      still_open t e,
      λ a has.
          reminded id a _ (written d t) (stored t e) (still_open t e) (still_assigned a has t e),
    )))
  where
    P : Task × List Task × List Effect → Type 0
    P = StillOpen id u previous

    stored :
        (t : Task)
        → find task_key id tasks ≡ some t
        → find task_key id (update task_key id (written d) tasks) ≡ some (written d t)
    stored t e = find-update_self task_key id (written d) tasks t (λ y. refl) e

    still_open : (t : Task) → find task_key id tasks ≡ some t → is_done t.status ≡ false
    still_open t e = cc

    still_assigned :
        (a : ℕ)
        → previous.assignee_id ≡ some a
        → (t : Task) → find task_key id tasks ≡ some t
        → t.assignee_id ≡ some a
    still_assigned a has t e = cc

-- A request of an admin, the author or the assignee to complete a task that is not completed is
-- granted, and emits the "completed" event; but the task that it returns and stores is not
-- completed, and if the task had an assignee, the reminder job still tells that its due date nears.
pub completed_task_still_reminded :
    (c : Config) (now id : ℕ) (d : UpdateTaskData) (u : AuthUser) (tasks : List Task)
    (previous : Task)
    → find task_key id tasks ≡ some previous
    → can_modify previous u ≡ true
    → d.status ≡ some done
    → is_done previous.status ≡ false
    → (is_ok (update_task c now id d u tasks) ≡ true)
      × Ensures
          (λ r.
            ((before : List Effect) × (after : List Effect) × (r.2
                ≡ before ++ (emit (completed r.0 u.id) ∷ after)))
            × (find task_key id r.1 ≡ some r.0)
            × (is_done r.0.status ≡ false)
            × ((a : ℕ)
                → previous.assignee_id ≡ some a
                → process_reminder id r.1 ≡ emit (due_soon r.0) ∷ []))
          (update_task c now id d u tasks)
completed_task_still_reminded c now id d u tasks previous found may wish pending = (
  update_task-is_ok c now id d u tasks ∙ granted id u tasks previous found may,
  reminded-Ensures c now id d u tasks previous found wish pending,
)
