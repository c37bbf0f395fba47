-- ===== src/Notifications/Mine.antt =====
-- The list of a user's notifications (`findMine` of
-- apps/notifications-service/src/notifications/notifications.service.ts).
use crm_system_backend.Prelude.{
  ℕ, zero, suc, ◌≤◌, ◌≡◌, subst, sym, Bool, true, List, [], ◌∷◌, ◌++◌, arith, ◌==◌, keep_if, length,
  All,
}
use crm_system_backend.Prelude.Sort.{newest_first, newest_first-All, newest_first-Newest, Newest}
use crm_system_backend.Prelude.Paging.{take, drop, take-drop, length-take-le}
use crm_system_backend.Notifications.{Notification}

-- A row with its column `createdAt`.
pub record NotificationRow : Type 0 where
  pub notification : Notification
  pub created_at : ℕ

abbrev pub notification_time : NotificationRow → ℕ
notification_time r = r.created_at

abbrev pub is_mine : ℕ → NotificationRow → Bool
is_mine user r = r.notification.user_id == user

unfoldable pub find_mine : ℕ → List NotificationRow → List NotificationRow
find_mine user rows = take 50 (newest_first notification_time (keep_if (is_mine user) rows))

all_mine :
    (user : ℕ) (rows : List NotificationRow)
    → All (λ r. is_mine user r ≡ true) (keep_if (is_mine user) rows)
all_mine user [] = tt
all_mine user (r ∷ rows) = ground (arith, all_mine user rows)

take-All :
    (user n : ℕ) (rows : List NotificationRow)
    → All (λ r. is_mine user r ≡ true) rows
    → All (λ r. is_mine user r ≡ true) (take n rows)
take-All user zero rows h = tt
take-All user (suc n) [] h = tt
take-All user (suc n) (r ∷ rows) h = (h.0, take-All user n rows h.1)

-- `findMine` gives only the caller's notifications, at most fifty of them, and together with those
-- that it leaves out they are all of the caller's, with no later one behind an earlier one.
pub find_mine_lem :
    (user : ℕ) (rows : List NotificationRow)
    → All (λ r. is_mine user r ≡ true) (find_mine user rows)
      × (length (find_mine user rows) ≤ 50)
      × (older : List NotificationRow) × (find_mine user rows ++ older
          ≡ newest_first notification_time (keep_if (is_mine user) rows))
      × Newest notification_time (find_mine user rows ++ older)
unfolding find_mine
find_mine_lem user rows = (
  take-All user 50 mine (
      newest_first-All notification_time (λ r. is_mine user r ≡ true) (keep_if (is_mine user) rows)
        (all_mine user rows)),
  length-take-le 50 mine,
  drop 50 mine,
  take-drop 50 mine,
  subst (Newest notification_time) (sym (take-drop 50 mine))
      (newest_first-Newest notification_time (keep_if (is_mine user) rows)),
)
  where
    mine : List NotificationRow
    mine = newest_first notification_time (keep_if (is_mine user) rows)
