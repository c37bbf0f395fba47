-- ===== src/Examples/Wake.antt =====
-- A notifications service that wakes up while the gateway waits.
use crm_system_backend.Prelude.{ℕ, ◌<◌, ◌≡◌, refl, true, some, ltb}
use crm_system_backend.Wake.{
  Fetch, silence, value, Answer, Timed, wait_for_healthy, send_notifications_rpc,
}
use crm_system_backend.Wake.Budget.{send_notifications_rpc_answers}

-- The first two attempts fail.
abbrev waking : ℕ → Fetch
waking n = record { took = 500; is_ok = ltb 1 n }

woken :
    wait_for_healthy 60000 true waking
    ≡ some (record { healthy = true; elapsed = 7500; attempts = 3 })
unfolding wait_for_healthy
woken = refl

send_notifications_rpc_answers_example :
    (t : Timed (Answer ℕ)) × (send_notifications_rpc true waking silence (value 40 7) ≡ some t)
    × (t.took < 98000)
send_notifications_rpc_answers_example =
    send_notifications_rpc_answers true waking silence (value 40 7)
