-- ===== src/Tasks.antt =====
-- TasksService (apps/tasks-service/src/tasks/tasks.service.ts) and the processor of its
-- reminders (task-reminders.processor.ts). What a method sends out (events to the notifications
-- service, jobs of the reminder queue) is a list of effects, oldest first; the service ignores a
-- failure of the queue. Times are milliseconds, identifiers are numbers.
pub mod Changes
pub mod Reminders
pub mod Listing
use crm_system_backend.Prelude.{
  ℕ, ◌+◌, ◌-◌, ◌*◌, ◌≡◌, Bool, true, false, not, ◌&&◌, ◌||◌, Option, none, some, List, [], ◌∷◌,
  ◌++◌, String, ◌==◌, leb, if◌then◌else◌, find, update, erase, or_else, or_else?, same_id?,
}
use crm_system_backend.Prelude.Sent.{Sent, write_column}
use crm_system_backend.Prelude.Results.{
  Result, ok, err, ◌>>=◌, ◌>>◌, not_found, forbidden, or_throw, throw_if,
}
use crm_system_backend.Shared.Access.{AuthUser, admin, same_role}

pub data TaskStatus : Type 0 where
  todo in_progress done : TaskStatus

pub data TaskPriority : Type 0 where
  low medium high : TaskPriority

abbrev pub status_eq : TaskStatus → TaskStatus → Bool
status_eq todo todo = true
status_eq in_progress in_progress = true
status_eq done done = true
status_eq _ _ = false

abbrev pub priority_eq : TaskPriority → TaskPriority → Bool
priority_eq low low = true
priority_eq medium medium = true
priority_eq high high = true
priority_eq _ _ = false

abbrev pub is_done : TaskStatus → Bool
is_done done = true
is_done _ = false

pub record Task : Type 0 where
  pub id : ℕ
  pub title : String
  pub description : Option String
  pub status : TaskStatus
  pub priority : TaskPriority
  pub due_date : Option ℕ
  pub author_id : ℕ
  pub assignee_id : Option ℕ

-- CreateTaskMessage, and the `data` of UpdateTaskMessage.
pub record CreateTaskMessage : Type 0 where
  pub title : String
  pub description : Option String
  pub priority : Option TaskPriority
  pub due_date : Option ℕ
  pub assignee_id : Option ℕ
  pub author_id : ℕ

pub record UpdateTaskData : Type 0 where
  pub title : Option String
  pub description : Sent String
  pub priority : Option TaskPriority
  pub due_date : Option ℕ
  pub assignee_id : Option ℕ
  pub status : Option TaskStatus

-- TASK_EVENTS with their payloads.
pub data TaskEvent : Type 0 where
  assigned completed : Task → ℕ → TaskEvent
  due_soon : Task → TaskEvent

pub data Effect : Type 0 where
  emit : TaskEvent → Effect
  add_reminder : ℕ → ℕ → Effect
  remove_reminder : ℕ → Effect

-- What is set up: VALKEY_URL, and the injected queue.
pub record Config : Type 0 where
  pub valkey_url : Bool
  pub reminders_queue : Bool

-- DUE_SOON_THRESHOLD_MS.
abbrev pub due_soon_threshold : ℕ
due_soon_threshold = 24 * 60 * 60 * 1000

abbrev pub task_key : Task → ℕ
task_key t = t.id

abbrev remind : ℕ → ℕ → ℕ → List Effect
remind now id due =
    if leb due (now + due_soon_threshold)
    then []
    else add_reminder id (due - (now + due_soon_threshold)) ∷ []

-- `scheduleDueDateReminder`: the delay is `due - now - threshold`, and nothing is queued if it is
-- not positive.
unfoldable pub schedule_due_date_reminder : Config → ℕ → Task → List Effect
schedule_due_date_reminder c now t = elim t.due_date [
  | none ↦ []
  | some due ↦
      if not c.valkey_url then [] else if not c.reminders_queue then [] else remind now t.id due
]

-- `create`. The new task's id is `uuid`.
unfoldable pub create :
    Config → ℕ → ℕ → CreateTaskMessage → List Task → Task × List Task × List Effect
create c now uuid m tasks =
    let t : Task = record {
      id = uuid;
      title = m.title;
      description = m.description;
      status = todo;
      priority = or_else m.priority medium;
      due_date = m.due_date;
      author_id = m.author_id;
      assignee_id = m.assignee_id;
    } in
    (
      t,
      tasks ++ t ∷ [],
      elim m.assignee_id [ none ↦ [] | some a ↦ emit (assigned t m.author_id) ∷ [] ]
          ++ schedule_due_date_reminder c now t,
    )

-- `findOne`.
unfoldable pub find_one : ℕ → List Task → Result Task
find_one id tasks = or_throw (find task_key id tasks) not_found

-- `isOwner`, and the test of `assertCanModify`.
abbrev pub is_owner : Task → AuthUser → Bool
is_owner t u = t.author_id == u.id || same_id? t.assignee_id u.id

abbrev pub can_modify : Task → AuthUser → Bool
can_modify t u = same_role u.role admin || is_owner t u

unfoldable pub assert_can_modify : Task → AuthUser → Result (Unit {0})
assert_can_modify t u = throw_if (not (same_role u.role admin) && not (is_owner t u)) forbidden

-- The columns that `update` writes: `dueDate`, `assigneeId` and `status` are taken out of the
-- rest, and only `dueDate` is put back. A null description clears the column.
abbrev pub written : UpdateTaskData → Task → Task
written d t = record t {
  title = or_else d.title t.title;
  description = write_column d.description t.description;
  priority = or_else d.priority t.priority;
  due_date = or_else? d.due_date t.due_date;
}

abbrev same_ids? : Option ℕ → Option ℕ → Bool
same_ids? none none = true
same_ids? (some a) (some b) = a == b
same_ids? _ _ = false

-- The events of `update`.
unfoldable pub assigned_events : UpdateTaskData → Task → Task → AuthUser → List Effect
assigned_events d previous updated u = elim d.assignee_id [
  | none ↦ []
  | some a ↦ if same_id? previous.assignee_id a then [] else emit (assigned updated u.id) ∷ []
]

unfoldable pub completed_events : UpdateTaskData → Task → Task → AuthUser → List Effect
completed_events d previous updated u = elim d.status [
  | none ↦ []
  | some s ↦
      if is_done s && not (is_done previous.status) then emit (completed updated u.id) ∷ [] else []
]

unfoldable pub reminder_effects : Config → ℕ → UpdateTaskData → Task → Task → List Effect
reminder_effects c now d previous updated = elim d.due_date [
  | none ↦ []
  | some due ↦
      if same_ids? updated.due_date previous.due_date
      then []
      else ((if c.reminders_queue then remove_reminder updated.id ∷ [] else [])
          ++ schedule_due_date_reminder c now updated)
]

-- `update`.
unfoldable pub update_task :
    Config → ℕ → ℕ → UpdateTaskData → AuthUser → List Task → Result (Task × List Task × List Effect)
unfolding find_one
update_task c now id d u tasks = do
  previous ← find_one id tasks
  assert_can_modify previous u
  let updated = written d previous
  ok (
    updated,
    update task_key id (written d) tasks,
    assigned_events d previous updated u
        ++ (completed_events d previous updated u ++ reminder_effects c now d previous updated),
  )

-- `remove`.
unfoldable pub remove : ℕ → AuthUser → List Task → Result (List Task)
unfolding find_one
remove id u tasks = do t ← find_one id tasks; assert_can_modify t u; ok (erase task_key id tasks)

-- TaskRemindersProcessor.process.
unfoldable pub process_reminder : ℕ → List Task → List Effect
process_reminder id tasks = elim (find task_key id tasks) [
  | none ↦ []
  | some t ↦
      if is_done t.status
      then []
      else elim t.assignee_id [ none ↦ [] | some a ↦ emit (due_soon t) ∷ [] ]
]
