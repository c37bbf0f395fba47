-- ===== src/Notifications/Inbox.antt =====
-- A user's notifications: reading and deleting them
-- (apps/notifications-service/src/notifications/notifications.service.ts).
use crm_system_backend.Prelude.{
  ℕ, ◌≡◌, ◌≢◌, refl, sym, subst, inl, inr, Bool, true, false, not, Option, none, some, List, [],
  ◌∷◌, arith, ◌==◌, if◌then◌else◌, find, update, keep_if, length, find-update_self, find-update_ne,
  Bool-cases,
}
use crm_system_backend.Prelude.Results.{
  is_ok, ok, not_found, Ensures, or_throw-Ensures, throw_if-Ensures,
}
use crm_system_backend.Tasks.{TaskEvent, assigned, completed, due_soon}
use crm_system_backend.Notifications.{
  Notification, Notice, notification_key, mark, mark_read, mark_all, mark_all_read, delete_read,
  is_unread_of, is_read_of, DealEvent, stage_changed, deadline_soon, deal_assigned_to, handle_deal,
  handle_task,
}

-- Who causes a deal's event.
abbrev pub actor_of : DealEvent → Option ℕ
actor_of (stage_changed d actor) = some actor
actor_of (deadline_soon d) = none
actor_of (deal_assigned_to d u actor) = actor

abbrev pub actor_of_task : TaskEvent → Option ℕ
actor_of_task (assigned t actor) = some actor
actor_of_task (completed t actor) = some actor
actor_of_task (due_soon t) = none

-- No handler of a task's or a deal's event notifies the user who caused the event.
pub actor_untold :
    (n : Notice)
    → ((e : TaskEvent) → handle_task e ≡ some n → actor_of_task e ≢ some n.user_id)
      × ((e : DealEvent) → handle_deal e ≡ some n → actor_of e ≢ some n.user_id)
unfolding handle_task handle_deal
actor_untold n = (task, deal)
  where
    task : (e : TaskEvent) → handle_task e ≡ some n → actor_of_task e ≢ some n.user_id
    task (assigned t a) h q = ground arith
    task (completed t a) h q = ground arith
    task (due_soon t) h q = cc

    deal : (e : DealEvent) → handle_deal e ≡ some n → actor_of e ≢ some n.user_id
    deal (stage_changed d a) h q = ground arith
    deal (deadline_soon d) h q = cc
    deal (deal_assigned_to d u a) h q = ground arith

abbrev pub Read : ℕ → ℕ → List Notification → Notification × List Notification → Type 0
Read id user before r =
    (r.0.user_id ≡ user)
    × (r.0.read ≡ true)
    × (find notification_key id r.1 ≡ some r.0)
    × ((j : ℕ) → j ≢ id → find notification_key j r.1 ≡ find notification_key j before)

mark_read_again :
    (id user : ℕ) (table : List Notification) (n : Notification)
    → find notification_key id table ≡ some n
    → n.user_id ≡ user
    → n.read ≡ true
    → mark_read id user table ≡ ok (n, table)
unfolding mark_read
mark_read_again id user table n e mine seen = ground arith

mark_read-Ensures :
    (id user : ℕ) (table : List Notification)
    → Ensures (λ r. Read id user table r × (mark_read id user r.1 ≡ ok r)) (mark_read id user table)
unfolding mark_read
mark_read-Ensures id user table =
    or_throw-Ensures P (find notification_key id table) not_found _
      (λ n e. throw_if-Ensures P _ not_found _ (λ mine. by_state n e mine))
  where
    P : Notification × List Notification → Type 0
    P r = Read id user table r × (mark_read id user r.1 ≡ ok r)

    owned : (n : Notification) → not (n.user_id == user) ≡ false → n.user_id ≡ user
    owned n mine = ground arith

    stored :
        (n : Notification)
        → find notification_key id table ≡ some n
        → find notification_key id (update notification_key id mark table) ≡ some (mark n)
    stored n e = find-update_self notification_key id mark table n (λ y. refl) e

    by_state :
        (n : Notification)
        → find notification_key id table ≡ some n
        → not (n.user_id == user) ≡ false
        → Ensures P
            (if n.read then ok (n, table) else ok (mark n, update notification_key id mark table))
    by_state n e mine = elim (Bool-cases n.read) [
      | inl seen ↦
          subst
            (λ b.
              Ensures P
                (if b then ok (n, table) else ok (mark n, update notification_key id mark table)))
            (sym seen)
            (
              (owned n mine, seen, e, λ j d. refl),
              mark_read_again id user table n e (owned n mine) seen,
            )
      | inr new ↦
          subst
            (λ b.
              Ensures P
                (if b then ok (n, table) else ok (mark n, update notification_key id mark table)))
            (sym new)
            (
              (
                owned n mine,
                refl,
                stored n e,
                λ j d. find-update_ne notification_key j id mark table (λ y. refl) d,
              ),
              mark_read_again id user _ (mark n) (stored n e) (owned n mine) refl,
            )
    ]

abbrev pub owns : ℕ → ℕ → List Notification → Bool
owns id user table = elim (find notification_key id table) [
  | none ↦ false
  | some n ↦ n.user_id == user
]

mark_read-is_ok :
    (id user : ℕ) (table : List Notification) → is_ok (mark_read id user table) ≡ owns id user table
unfolding mark_read
mark_read-is_ok id user table = ground arith

-- `markRead` succeeds exactly if the notification exists and belongs to the caller. Afterwards it
-- is stored as read, no other notification is changed, and a second call gives the same row and
-- the same table.
pub mark_read-Read :
    (id user : ℕ) (table : List Notification)
    → (is_ok (mark_read id user table) ≡ owns id user table)
      × Ensures
          (λ r. Read id user table r × (mark_read id user r.1 ≡ ok r))
          (mark_read id user table)
mark_read-Read id user table = (mark_read-is_ok id user table, mark_read-Ensures id user table)

module _ (user : ℕ) where
  abbrev is_of : Notification → Bool
  is_of n = n.user_id == user

  pub keep_if-mark_all :
      (table : List Notification) → keep_if (is_unread_of user) (mark_all user table) ≡ []
  unfolding mark_all
  keep_if-mark_all [] = refl
  keep_if-mark_all (n ∷ ns) = ground (arith, keep_if-mark_all ns)

  length-keep_read :
      (table : List Notification)
      → length (keep_if (is_read_of user) (mark_all user table)) ≡ length (keep_if is_of table)
  unfolding mark_all
  length-keep_read [] = refl
  length-keep_read (n ∷ ns) = ground (arith, length-keep_read ns)

  keep_rest :
      (table : List Notification)
      → keep_if (λ n. not (is_read_of user n)) (mark_all user table)
        ≡ keep_if (λ n. not (is_of n)) table
  unfolding mark_all
  keep_rest [] = refl
  keep_rest (n ∷ ns) = ground (arith, keep_rest ns)

-- `markAllRead` followed by `deleteRead` empties the user's inbox: the second call returns the
-- number of all the notifications that the user had, and what is left is exactly the others'
-- notifications, unchanged and in their order.
pub delete_read-mark_all_read :
    (user : ℕ) (table : List Notification)
    → delete_read user (mark_all_read user table).1 ≡ (
      length (keep_if (λ n. n.user_id == user) table),
      keep_if (λ n. not (n.user_id == user)) table,
    )
unfolding delete_read mark_all_read
delete_read-mark_all_read user table = cc (length-keep_read user table, keep_rest user table)
