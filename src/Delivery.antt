-- ===== src/Delivery.antt =====
-- From an event to the user's screen: the services' events wait in the queue of
-- notifications-service (apps/notifications-service/src/notifications/notifications.controller.ts),
-- the rows that it stores wait in the queue of the gateway
-- (apps/api-gateway/src/modules/notifications/gateway-events.controller.ts), which pushes them to
-- the user's sockets. A queue gives its messages in any order, since handlers overlap. Calls of the
-- database and of the broker succeed.
pub mod Told
pub mod Drained
pub mod Assigned
use crm_system_backend.Prelude.{
  ℕ, zero, suc, Bool, Option, none, some, List, [], ◌∷◌, ◌++◌, keep_if,
}
use crm_system_backend.Prelude.Results.{Result, ok, err}
use crm_system_backend.Prelude.Queues.{take_at}
use crm_system_backend.Shared.Access.{AuthUser}
use crm_system_backend.Tasks
use crm_system_backend.Tasks.{Task, TaskEvent, Config, CreateTaskMessage, UpdateTaskData}
use crm_system_backend.Deals.Data
use crm_system_backend.Deals.Data.{Tables}
use crm_system_backend.Deals.Methods
use crm_system_backend.Deals.Stages.{change_stage}
use crm_system_backend.Deals.Reminders
use crm_system_backend.Deals.Responsibles.{
  Request, create_request, import_request, update_request, responsibles_request, comment_request,
  stage_request, remove_request, serve,
}
use crm_system_backend.Notifications.{
  Notification, Notice, DealEvent, handle_task, handle_deal, notify, mark_read, mark_all_read,
  delete_read, is_read_of,
}

pub data Event : Type 0 where
  of_task : TaskEvent → Event
  of_deal : DealEvent → Event

-- The controller: each pattern's handler.
unfoldable pub handle : Event → Option Notice
handle (of_task e) = handle_task e
handle (of_deal e) = handle_deal e

-- The tables, the two queues, and what the gateway has pushed, oldest first.
pub record World : Type 0 where
  pub deals : Tables
  pub tasks : List Task
  pub queue : List Event
  pub inbox : List Notification
  pub gateway_queue : List Notification
  pub pushed : List Notification

-- The calls of the tasks controller that change tasks, with the time and the new id.
pub data TaskRequest : Type 0 where
  task_create : ℕ → ℕ → CreateTaskMessage → TaskRequest
  task_update : ℕ → ℕ → UpdateTaskData → AuthUser → TaskRequest
  task_remove : ℕ → AuthUser → TaskRequest

-- What can happen: a call, a reminder's job, the handling of a waiting message (by its place in
-- the queue; a new row's id is given), and a call of the inbox.
pub data Action : Type 0 where
  deal_call : Request → Action
  task_call : TaskRequest → Action
  deal_job task_job : ℕ → Action
  handle_event : ℕ → ℕ → Action
  push_row : ℕ → Action
  read_one : ℕ → ℕ → Action
  read_all clear_read : ℕ → Action

abbrev value_or {ℓ κ} : {A : Type ℓ} {B : Type κ} → B → (A → B) → Result A → B
value_or b f (ok a) = f a
value_or b f (err e) = b

abbrev pub task_events : List Tasks.Effect → List Event
task_events [] = []
task_events (Tasks.emit e ∷ es) = of_task e ∷ task_events es
task_events (Tasks.add_reminder id delay ∷ es) = task_events es
task_events (Tasks.remove_reminder id ∷ es) = task_events es

abbrev pub deal_events : List Data.Effect → List Event
deal_events [] = []
deal_events (Data.emit e ∷ es) = of_deal e ∷ deal_events es
deal_events (Data.add_reminder id delay ∷ es) = deal_events es
deal_events (Data.remove_reminder id ∷ es) = deal_events es

-- What a call of the deals controller sends out.
unfoldable pub deal_effects : Config → Request → Tables → List Data.Effect
deal_effects c (create_request now fresh uuid dto actor) s =
    value_or [] (λ r. r.1) (Methods.create c now fresh uuid dto actor s).1
deal_effects c (import_request now fresh uuid stage importer dto actor) s =
    value_or [] (λ r. r.1) (Methods.import_deal c now fresh uuid stage importer dto actor s).1
deal_effects c (update_request now id dto actor) s =
    value_or [] (λ r. r.2) (Methods.update_deal c now id dto actor s)
deal_effects c (responsibles_request id ids actor) s =
    value_or [] (λ r. r.2) (Methods.update_responsibles id ids actor s)
deal_effects c (comment_request id text) s = []
deal_effects c (stage_request id to comment actor) s =
    value_or [] (λ r. r.2) (change_stage id to comment actor s)
deal_effects c (remove_request id) s = value_or [] (λ r. r.1) (Methods.remove c id s)

unfoldable pub task_effects : Config → TaskRequest → List Task → List Tasks.Effect
task_effects c (task_create now uuid m) ts = (Tasks.create c now uuid m ts).2
task_effects c (task_update now id d u) ts =
    value_or [] (λ r. r.2) (Tasks.update_task c now id d u ts)
task_effects c (task_remove id u) ts = []

unfoldable pub serve_task : Config → TaskRequest → List Task → List Task
serve_task c (task_create now uuid m) ts = (Tasks.create c now uuid m ts).1
serve_task c (task_update now id d u) ts =
    value_or ts (λ r. r.1) (Tasks.update_task c now id d u ts)
serve_task c (task_remove id u) ts = value_or ts (λ r. r) (Tasks.remove id u ts)

-- The events that an action sends.
unfoldable pub sent : Config → Action → World → List Event
sent c (deal_call r) w = deal_events (deal_effects c r w.deals)
sent c (task_call r) w = task_events (task_effects c r w.tasks)
sent c (deal_job id) w = deal_events (Reminders.process_reminder id w.deals)
sent c (task_job id) w = task_events (Tasks.process_reminder id w.tasks)
sent c (handle_event place uuid) w = []
sent c (push_row place) w = []
sent c (read_one id user) w = []
sent c (read_all user) w = []
sent c (clear_read user) w = []

-- A handler of notifications-service, on an event that has left the queue.
unfoldable pub store : ℕ → Option Notice → World → World
store uuid none w = w
store uuid (some n) w =
    let r = notify uuid n w.inbox in
    record w { inbox = r.0; gateway_queue = w.gateway_queue ++ r.1 ∷ [] }

unfoldable pub handle_at : ℕ → ℕ → World → World
handle_at place uuid w = elim (take_at place w.queue) [
  | none ↦ w
  | some (e, rest) ↦ store uuid (handle e) (record w { queue = rest })
]

-- `handleNotificationCreated`: `sendToUser`.
unfoldable pub push_at : ℕ → World → World
push_at place w = elim (take_at place w.gateway_queue) [
  | none ↦ w
  | some (n, rest) ↦ record w { gateway_queue = rest; pushed = w.pushed ++ n ∷ [] }
]

-- The tables, queues and pushes after an action, but for the events that it sends.
unfoldable pub change : Config → Action → World → World
change c (deal_call r) w = record w { deals = serve c r w.deals }
change c (task_call r) w = record w { tasks = serve_task c r w.tasks }
change c (deal_job id) w = w
change c (task_job id) w = w
change c (handle_event place uuid) w = handle_at place uuid w
change c (push_row place) w = push_at place w
change c (read_one id user) w = record w {
  inbox = value_or w.inbox (λ r. r.1) (mark_read id user w.inbox);
}
change c (read_all user) w = record w { inbox = (mark_all_read user w.inbox).1 }
change c (clear_read user) w = record w { inbox = (delete_read user w.inbox).1 }

unfoldable pub act : Config → Action → World → World
act c a w = let next = change c a w in record next { queue = next.queue ++ sent c a w }

unfoldable pub run : Config → List Action → World → World
run c [] w = w
run c (a ∷ as_done) w = run c as_done (act c a w)

-- All that is sent on the way, and all the rows that `deleteRead` deletes.
unfoldable pub sent_by : Config → List Action → World → List Event
sent_by c [] w = []
sent_by c (a ∷ as_done) w = sent c a w ++ sent_by c as_done (act c a w)

abbrev pub deleted : Action → World → List Notification
deleted (clear_read user) w = keep_if (is_read_of user) w.inbox
deleted _ w = []

unfoldable pub deleted_by : Config → List Action → World → List Notification
deleted_by c [] w = []
deleted_by c (a ∷ as_done) w = deleted a w ++ deleted_by c as_done (act c a w)
