-- ===== src/Examples/Tasks.antt =====
-- One task and its changes.
use crm_system_backend.Prelude.{
  ℕ, ◌≤◌, arith, ◌≡◌, ◌≢◌, refl, true, none, some, List, [], ◌∷◌, ◌++◌, length,
}
use crm_system_backend.Prelude.Sent.{undefined}
use crm_system_backend.Prelude.Results.{is_ok, Ensures}
use crm_system_backend.Shared.Access.{AuthUser, user}
use crm_system_backend.Prelude.{find, false}
use crm_system_backend.Tasks.{task_key, is_done}
use crm_system_backend.Tasks.{
  Task, Config, UpdateTaskData, Effect, emit, assigned, completed, due_soon, low, in_progress, done,
  update_task, process_reminder,
}
use crm_system_backend.Tasks.Changes.{reassigned_user_untold}
use crm_system_backend.Tasks.Reminders.{completed_task_still_reminded}
use crm_system_backend.Prelude.Paging.{collect}
use crm_system_backend.Prelude.Sort.{newest_first}
use crm_system_backend.Prelude.Reorder.{newest_first-IsOrderBy}
use crm_system_backend.Tasks.Listing.{
  Row, row_time, Query, find_all, items_of, matching, find_all-pages,
}
use crm_system_backend.Notifications.{Notice, handle_task}

abbrev task : Task
task = record {
  id = 1;
  title = "Call";
  description = none;
  status = in_progress;
  priority = low;
  due_date = some 200000000;
  author_id = 7;
  assignee_id = some 8;
}

abbrev author : AuthUser
author = record { id = 7; email = "author@example.com"; role = user }

abbrev config : Config
config = record { valkey_url = true; reminders_queue = true }

-- Done, and given to user 9.
abbrev change : UpdateTaskData
change = record {
  title = none;
  description = undefined;
  priority = none;
  due_date = none;
  assignee_id = some 9;
  status = some done;
}

reassigned_user_untold_example :
    (is_ok (update_task config 0 1 change author (task ∷ [])) ≡ true)
    × Ensures
        (λ r.
          ((rest : List Effect) × (r.2 ≡ emit (assigned r.0 7) ∷ rest))
          × ((n : Notice) → handle_task (assigned r.0 7) ≡ some n → n.user_id ≢ 9))
        (update_task config 0 1 change author (task ∷ []))
reassigned_user_untold_example =
    reassigned_user_untold config 0 1 change author (task ∷ []) task 9 refl refl refl refl

completed_task_still_reminded_example :
    (is_ok (update_task config 0 1 change author (task ∷ [])) ≡ true)
    × Ensures
        (λ r.
          ((before : List Effect) × (after : List Effect) × (r.2
              ≡ before ++ (emit (completed r.0 7) ∷ after)))
          × (find task_key 1 r.1 ≡ some r.0)
          × (is_done r.0.status ≡ false)
          × ((a : ℕ) → some 8 ≡ some a → process_reminder 1 r.1 ≡ emit (due_soon r.0) ∷ []))
        (update_task config 0 1 change author (task ∷ []))
completed_task_still_reminded_example =
    completed_task_still_reminded config 0 1 change author (task ∷ []) task refl refl refl refl

abbrev row : ℕ → Row
row t = record { task = task; created_at = t }

abbrev by_status : Query
by_status = record {
  status = some in_progress;
  priority = none;
  assignee_id = none;
  page = 1;
  limit = 2;
}

find_all-pages_example :
    let rows = row 1 ∷ row 3 ∷ row 2 ∷ [] in
    (collect
        (find_all (newest_first row_time) none by_status rows).0.page_count
        0
        (items_of (λ p. newest_first row_time) by_status rows)
      ≡ matching by_status rows)
    × (length (find_all (newest_first row_time) none by_status rows).0.items ≤ 2)
find_all-pages_example =
    find_all-pages (λ p. newest_first row_time) by_status (row 1 ∷ row 3 ∷ row 2 ∷ [])
      (λ p. newest_first-IsOrderBy row_time) (omega arith)
      (
        (λ e. omega (arith, e), (λ e. omega (arith, e), tt)),
        ((λ e. omega (arith, e), tt), (tt, tt)),
      )
