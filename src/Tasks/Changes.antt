-- ===== src/Tasks/Changes.antt =====
-- What `update` and `remove` of TasksService do to the tasks
-- (apps/tasks-service/src/tasks/tasks.service.ts).
use crm_system_backend.Prelude.{
  Bool, ◌∙◌, ℕ, ◌≡◌, ◌≢◌, refl, ap, true, false, not, ◌&&◌, none, some, List, [], ◌∷◌, ◌++◌, arith,
  find, update, same_id?, find-update_self, find-update_ne, find-erase_ne, find-erase_self, Unique,
}
use crm_system_backend.Prelude.Results.{
  is_ok, Result, ◌>>◌, not_found, forbidden, Ensures, or_throw-Ensures, throw_if-Ensures,
}
use crm_system_backend.Shared.Access.{AuthUser, admin, same_role}
use crm_system_backend.Notifications.{Notice, handle_task}
use crm_system_backend.Tasks.{
  Task, Effect, emit, assigned, completed, done, Config, UpdateTaskData, task_key, update_task,
  find_one, assert_can_modify, is_owner, can_modify, written, remove, assigned_events,
  completed_events, is_done, reminder_effects,
}

-- What a successful `update` leaves: the new row is stored, its owner, assignee and status are the
-- old ones, and no other row is touched.
pub record Kept (id : ℕ) (u : AuthUser) (before after : List Task) (t : Task) : Type 0 where
  previous : Task
  found : find task_key id before ≡ some previous
  allowed : can_modify previous u ≡ true
  stored : find task_key id after ≡ some t
  same_status : t.status ≡ previous.status
  same_assignee : t.assignee_id ≡ previous.assignee_id
  same_author : t.author_id ≡ previous.author_id
  others : (j : ℕ) → j ≢ id → find task_key j after ≡ find task_key j before

-- What `remove` ensures of the table it leaves.
abbrev pub Removed : ℕ → AuthUser → List Task → List Task → Type 0
Removed id u before after =
    ((t : Task) × (find task_key id before ≡ some t) × (can_modify t u ≡ true))
    × (find task_key id after ≡ none)
    × ((j : ℕ) → j ≢ id → find task_key j after ≡ find task_key j before)

pub guard-can_modify {ℓ} :
    {A : Type 0} (P : A → Type ℓ) (t : Task) (u : AuthUser) (r : Result A)
    → (can_modify t u ≡ true → Ensures P r)
    → Ensures P (assert_can_modify t u >> r)
unfolding assert_can_modify
guard-can_modify P t u r h = throw_if-Ensures P _ forbidden r (λ e. h (open_guard e))
  where
    open_guard :
        (not (same_role u.role admin) && not (is_owner t u)) ≡ false → can_modify t u ≡ true
    open_guard e = ground arith

written-Kept :
    (id : ℕ) (d : UpdateTaskData) (u : AuthUser) (tasks : List Task) (previous : Task)
    → find task_key id tasks ≡ some previous
    → can_modify previous u ≡ true
    → Kept id u tasks (update task_key id (written d) tasks) (written d previous)
written-Kept id d u tasks previous e c = record {
  previous = previous;
  found = e;
  allowed = c;
  stored = find-update_self task_key id (written d) tasks previous (λ y. refl) e;
  same_status = refl;
  same_assignee = refl;
  same_author = refl;
  others = λ j n. find-update_ne task_key j id (written d) tasks (λ y. refl) n;
}

update_task-Ensures :
    (c : Config) (now id : ℕ) (d : UpdateTaskData) (u : AuthUser) (tasks : List Task)
    → Ensures (λ r. Kept id u tasks r.1 r.0) (update_task c now id d u tasks)
unfolding update_task find_one
update_task-Ensures c now id d u tasks =
    or_throw-Ensures P (find task_key id tasks) not_found _
      (λ previous e. guard-can_modify P previous u _ (λ a. written-Kept id d u tasks previous e a))
  where
    P : Task × List Task × List Effect → Type 0
    P r = Kept id u tasks r.1 r.0

remove-Ensures :
    (id : ℕ) (u : AuthUser) (tasks : List Task)
    → Unique task_key tasks
    → Ensures (Removed id u tasks) (remove id u tasks)
unfolding remove find_one
remove-Ensures id u tasks unique =
    or_throw-Ensures (Removed id u tasks) (find task_key id tasks) not_found _ (λ t e.
      guard-can_modify (Removed id u tasks) t u _ (λ a. (
        (t, e, a),
        find-erase_self task_key id tasks unique,
        λ j n. find-erase_ne task_key j id tasks n,
      )))

-- The requester may change the task, if there is one.
abbrev pub may_change : ℕ → AuthUser → List Task → Bool
may_change id u tasks = elim (find task_key id tasks) [ none ↦ false | some t ↦ can_modify t u ]

pub granted :
    (id : ℕ) (u : AuthUser) (tasks : List Task) (t : Task)
    → find task_key id tasks ≡ some t
    → can_modify t u ≡ true
    → may_change id u tasks ≡ true
granted id u tasks t e may = ground arith

pub update_task-is_ok :
    (c : Config) (now id : ℕ) (d : UpdateTaskData) (u : AuthUser) (tasks : List Task)
    → is_ok (update_task c now id d u tasks) ≡ may_change id u tasks
unfolding update_task find_one assert_can_modify
update_task-is_ok c now id d u tasks = ground arith

remove-is_ok :
    (id : ℕ) (u : AuthUser) (tasks : List Task) → is_ok (remove id u tasks) ≡ may_change id u tasks
unfolding remove find_one assert_can_modify
remove-is_ok id u tasks = ground arith

-- `update` succeeds exactly if the task exists and the requester is an admin, its author or its
-- assignee. Then the returned task is the one stored under the id; its status, its assignee and
-- its author are those it had before, whatever the request asked for, and no other task is
-- changed.
pub update_task-Kept :
    (c : Config) (now id : ℕ) (d : UpdateTaskData) (u : AuthUser) (tasks : List Task)
    → (is_ok (update_task c now id d u tasks) ≡ may_change id u tasks)
      × Ensures (λ r. Kept id u tasks r.1 r.0) (update_task c now id d u tasks)
update_task-Kept c now id d u tasks =
    (update_task-is_ok c now id d u tasks, update_task-Ensures c now id d u tasks)

-- Identifiers being unique, `remove` succeeds exactly if the task exists and the requester is an
-- admin, its author or its assignee; then the task is gone and every other task is still there.
pub remove-Removed :
    (id : ℕ) (u : AuthUser) (tasks : List Task)
    → Unique task_key tasks
    → (is_ok (remove id u tasks) ≡ may_change id u tasks)
      × Ensures (Removed id u tasks) (remove id u tasks)
remove-Removed id u tasks unique = (remove-is_ok id u tasks, remove-Ensures id u tasks unique)

assigned_events-first :
    (d : UpdateTaskData) (previous t : Task) (u : AuthUser) (a : ℕ)
    → d.assignee_id ≡ some a
    → same_id? previous.assignee_id a ≡ false
    → assigned_events d previous t u ≡ emit (assigned t u.id) ∷ []
unfolding assigned_events
assigned_events-first d previous t u a wish differs = ground arith

pub completed_events-first :
    (d : UpdateTaskData) (previous t : Task) (u : AuthUser)
    → d.status ≡ some done
    → is_done previous.status ≡ false
    → completed_events d previous t u ≡ emit (completed t u.id) ∷ []
unfolding completed_events
completed_events-first d previous t u wish pending = ground arith

untold :
    (t : Task) (actor a : ℕ)
    → same_id? t.assignee_id a ≡ false
    → (n : Notice) → handle_task (assigned t actor) ≡ some n
    → n.user_id ≢ a
unfolding handle_task
untold t actor a differs n e = ground arith

untold-Ensures :
    (c : Config) (now id : ℕ) (d : UpdateTaskData) (u : AuthUser) (tasks : List Task)
    (previous : Task) (a : ℕ)
    → find task_key id tasks ≡ some previous
    → d.assignee_id ≡ some a
    → same_id? previous.assignee_id a ≡ false
    → Ensures
        (λ r.
          ((rest : List Effect) × (r.2 ≡ emit (assigned r.0 u.id) ∷ rest))
          × ((n : Notice) → handle_task (assigned r.0 u.id) ≡ some n → n.user_id ≢ a))
        (update_task c now id d u tasks)
unfolding update_task find_one
untold-Ensures c now id d u tasks previous a found wish differs =
    or_throw-Ensures P (find task_key id tasks) not_found _ (λ t e. guard-can_modify P t u _ (λ _. (
      (
        _,
        ap
            (λ xs.
              xs
              ++ (completed_events d t (written d t) u ++ reminder_effects c now d t (written d t)))
            (assigned_events-first d t (written d t) u a wish (same_previous t e)),
      ),
      untold (written d t) u.id a (same_previous t e),
    )))
  where
    P : Task × List Task × List Effect → Type 0
    P r =
        ((rest : List Effect) × (r.2 ≡ emit (assigned r.0 u.id) ∷ rest))
        × ((n : Notice) → handle_task (assigned r.0 u.id) ≡ some n → n.user_id ≢ a)

    same_previous : (t : Task) → find task_key id tasks ≡ some t → same_id? t.assignee_id a ≡ false
    same_previous t e = cc

-- A request of an admin, the author or the assignee that names a new assignee is granted, and
-- emits, first of all, an "assigned" event; but the notification that this event leads to is never
-- for that new assignee.
pub reassigned_user_untold :
    (c : Config) (now id : ℕ) (d : UpdateTaskData) (u : AuthUser) (tasks : List Task)
    (previous : Task) (a : ℕ)
    → find task_key id tasks ≡ some previous
    → can_modify previous u ≡ true
    → d.assignee_id ≡ some a
    → same_id? previous.assignee_id a ≡ false
    → (is_ok (update_task c now id d u tasks) ≡ true)
      × Ensures
          (λ r.
            ((rest : List Effect) × (r.2 ≡ emit (assigned r.0 u.id) ∷ rest))
            × ((n : Notice) → handle_task (assigned r.0 u.id) ≡ some n → n.user_id ≢ a))
          (update_task c now id d u tasks)
reassigned_user_untold c now id d u tasks previous a found may wish differs = (
  update_task-is_ok c now id d u tasks ∙ granted id u tasks previous found may,
  untold-Ensures c now id d u tasks previous a found wish differs,
)
