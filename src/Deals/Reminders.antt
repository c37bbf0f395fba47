-- ===== src/Deals/Reminders.antt =====
-- DealRemindersProcessor (apps/api-gateway/src/modules/deals/deal-reminders.processor.ts): the
-- jobs of the queue of deadline reminders.
use crm_system_backend.Prelude.{
  ℕ, not, ◌||◌, none, some, List, [], ◌∷◌, ◌==◌, if◌then◌else◌, find, is_some,
}
use crm_system_backend.Notifications.{deadline_soon}
use crm_system_backend.Deals.Data.{Tables, Effect, emit, deal_key, build_deal_ref}

-- The stage 'done'.
abbrev pub done_stage : ℕ
done_stage = 4

-- `process`.
unfoldable pub process_reminder : ℕ → Tables → List Effect
process_reminder id s = elim (find deal_key id s.deals) [
  | none ↦ []
  | some d ↦
      if not (is_some d.deadline) || (not (is_some d.responsible_user_id) || d.status == done_stage)
      then []
      else emit (deadline_soon (build_deal_ref d)) ∷ []
]
