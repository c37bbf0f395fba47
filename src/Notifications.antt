-- ===== src/Notifications.antt =====
-- NotificationsService (apps/notifications-service/src/notifications/notifications.service.ts).
-- An event's handler asks for at most one notification; `notify` stores it and sends it on to the
-- gateway. The payload is the event's subject.
pub mod Inbox
pub mod Mine
use crm_system_backend.Prelude.{
  ℕ, ◌+◌, Bool, true, false, not, ◌&&◌, Option, none, some, List, [], ◌∷◌, ◌++◌, ◌==◌,
  if◌then◌else◌, find, update, keep_if, length, same_id?,
}
use crm_system_backend.Prelude.Results.{Result, ok, ◌>>=◌, ◌>>◌, not_found, or_throw, throw_if}
use crm_system_backend.Tasks.{Task, TaskEvent, assigned, completed, due_soon}

pub data NotificationType : Type 0 where
  task_assigned task_completed task_due_soon deal_stage_changed deal_deadline_soon deal_assigned :
      NotificationType

pub record Notification : Type 0 where
  pub id : ℕ
  pub user_id : ℕ
  pub kind : NotificationType
  pub subject : ℕ
  pub read : Bool

-- Whom a handler notifies, of what kind.
pub record Notice : Type 0 where
  pub user_id : ℕ
  pub kind : NotificationType
  pub subject : ℕ

-- The user that an event is for, unless there is none or it is the actor.
abbrev other_user : Option ℕ → ℕ → Option ℕ
other_user none actor = none
other_user (some u) actor = if u == actor then none else some u

abbrev notice : NotificationType → ℕ → Option ℕ → Option Notice
notice k s none = none
notice k s (some u) = some (record { user_id = u; kind = k; subject = s })

-- `handleTaskAssigned`, `handleTaskCompleted`, `handleTaskDueSoon`.
unfoldable pub handle_task : TaskEvent → Option Notice
handle_task (assigned t actor) = notice task_assigned t.id (other_user t.assignee_id actor)
handle_task (completed t actor) = notice task_completed t.id (other_user (some t.author_id) actor)
handle_task (due_soon t) = notice task_due_soon t.id t.assignee_id

-- The part of a deal's events that decides the recipient.
pub record DealRef : Type 0 where
  pub id : ℕ
  pub responsible_user_id : Option ℕ

pub data DealEvent : Type 0 where
  stage_changed : DealRef → ℕ → DealEvent
  deadline_soon : DealRef → DealEvent
  deal_assigned_to : DealRef → ℕ → Option ℕ → DealEvent

-- `handleDealStageChanged`, `handleDealDeadlineSoon`, `handleDealAssigned`.
unfoldable pub handle_deal : DealEvent → Option Notice
handle_deal (stage_changed d actor) =
    notice deal_stage_changed d.id (other_user d.responsible_user_id actor)
handle_deal (deadline_soon d) = notice deal_deadline_soon d.id d.responsible_user_id
handle_deal (deal_assigned_to d u actor) =
    notice deal_assigned d.id (if same_id? actor u then none else some u)

abbrev pub notification_key : Notification → ℕ
notification_key n = n.id

-- `notify`: the row, and the row that is sent to the gateway.
unfoldable pub notify : ℕ → Notice → List Notification → List Notification × Notification
notify uuid n table =
    let row : Notification = record {
      id = uuid;
      user_id = n.user_id;
      kind = n.kind;
      subject = n.subject;
      read = false;
    } in
    (table ++ row ∷ [], row)

abbrev pub mark : Notification → Notification
mark n = record n { read = true }

-- `markRead`.
unfoldable pub mark_read : ℕ → ℕ → List Notification → Result (Notification × List Notification)
mark_read id user table = do
  n ← or_throw (find notification_key id table) not_found
  throw_if (not (n.user_id == user)) not_found
  if n.read then ok (n, table) else ok (mark n, update notification_key id mark table)

abbrev pub is_unread_of : ℕ → Notification → Bool
is_unread_of user n = n.user_id == user && not n.read

abbrev pub is_read_of : ℕ → Notification → Bool
is_read_of user n = n.user_id == user && n.read

-- `updateMany` with `data: { read: true }`.
unfoldable pub mark_all : ℕ → List Notification → List Notification
mark_all user [] = []
mark_all user (n ∷ ns) = (if is_unread_of user n then mark n else n) ∷ mark_all user ns

-- `markAllRead` and `deleteRead`, each with the count that it returns.
unfoldable pub mark_all_read : ℕ → List Notification → ℕ × List Notification
unfolding mark_all
mark_all_read user table = (length (keep_if (is_unread_of user) table), mark_all user table)

unfoldable pub delete_read : ℕ → List Notification → ℕ × List Notification
delete_read user table =
    (length (keep_if (is_read_of user) table), keep_if (λ n. not (is_read_of user n)) table)
