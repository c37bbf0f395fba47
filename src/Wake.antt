-- ===== src/Wake.antt =====
-- How the gateway asks the notifications service, which may be asleep: `sendRpc`
-- (libs/shared/src/utils/rpc.util.ts) and NotificationsController
-- (apps/api-gateway/src/modules/notifications/notifications.controller.ts). Times are milliseconds.
-- What the broker and the health check answer, and when, are inputs; the pings that only wake the
-- service and the log are left out.
pub mod Budget
use crm_system_backend.Prelude.{
  ℕ, zero, suc, ◌+◌, Bool, true, false, not, Option, none, some, ltb, leb, ◌==◌, if◌then◌else◌,
  or_else, or_else?,
}

-- RPC_TIMEOUT_MS, HEALTH_POLL_INTERVAL_MS, HEALTH_WAIT_BUDGET_MS and HEALTH_FETCH_TIMEOUT_MS.
abbrev pub rpc_timeout : ℕ
rpc_timeout = 15000

abbrev pub health_poll_interval : ℕ
health_poll_interval = 3000

abbrev pub health_wait_budget : ℕ
health_wait_budget = 60000

abbrev pub health_fetch_timeout : ℕ
health_fetch_timeout = 8000

-- HttpStatus.
abbrev pub gateway_timeout : ℕ
gateway_timeout = 504

abbrev pub service_unavailable : ℕ
service_unavailable = 503

-- What the client of the broker gives, if it gives anything: a value or an error, with the time.
pub data Reply (A : Type 0) : Type 0 where
  silence : Reply A
  value : ℕ → A → Reply A
  failure : ℕ → Option ℕ → Option ℕ → Reply A

-- An answer to the caller: a value, or an HttpException with its status.
pub data Answer (A : Type 0) : Type 0 where
  returned : A → Answer A
  thrown : ℕ → Answer A

pub record Timed (A : Type 0) : Type 0 where
  pub took : ℕ
  pub answer : A

-- `sendRpc`, with `timeout(RPC_TIMEOUT_MS)`.
abbrev timed_out : {A : Type 0} → Timed (Answer A)
timed_out = record { took = rpc_timeout; answer = thrown gateway_timeout }

unfoldable pub send_rpc : {A : Type 0} → Reply A → Timed (Answer A)
send_rpc silence = timed_out
send_rpc (value t a) =
    if ltb t rpc_timeout then record { took = t; answer = returned a } else timed_out
send_rpc (failure t status_code status) =
    if ltb t rpc_timeout
    then record { took = t; answer = thrown (or_else (or_else? status_code status) 500) }
    else timed_out

-- One GET of the health check: `pingHealth` gives up after its timeout.
pub record Fetch : Type 0 where
  pub took : ℕ
  pub is_ok : Bool

unfoldable pub ping_health : Fetch → Timed Bool
ping_health f =
    if ltb f.took health_fetch_timeout
    then record { took = f.took; answer = f.is_ok }
    else record { took = health_fetch_timeout; answer = false }

pub record Waited : Type 0 where
  pub healthy : Bool
  pub elapsed : ℕ
  pub attempts : ℕ

-- The loop of `waitForHealthy`: `none` if the fuel runs out. `fetches n` is the fetch of attempt n.
unfoldable pub wait_loop : ℕ → ℕ → (ℕ → Fetch) → ℕ → ℕ → Option Waited
unfolding ping_health
wait_loop zero budget fetches attempts elapsed = none
wait_loop (suc fuel) budget fetches attempts elapsed =
    let ping = ping_health (fetches attempts) in
    let rest =
      wait_loop fuel budget fetches (attempts + 1) (elapsed + ping.took + health_poll_interval) in
    if ltb elapsed budget
    then (if ping.answer
        then some
            (record { healthy = true; elapsed = elapsed + ping.took; attempts = attempts + 1 })
        else rest)
    else some (record { healthy = false; elapsed = elapsed; attempts = attempts })

-- `waitForHealthy`. A round takes at least the poll interval, so the fuel is more than enough.
unfoldable pub wait_for_healthy : ℕ → Bool → (ℕ → Fetch) → Option Waited
unfolding wait_loop
wait_for_healthy budget has_url fetches =
    if has_url
    then wait_loop (suc budget) budget fetches 0 0
    else some (record { healthy = false; elapsed = 0; attempts = 0 })

-- `sendNotificationsRpc`: the first call, the wait after a timeout, and the second call.
abbrev pub retry : {A : Type 0} → ℕ → Option Waited → Reply A → Option (Timed (Answer A))
retry so_far none second = none
retry so_far (some w) second =
    let again = send_rpc second in
    if w.healthy
    then some (record {
      took = so_far + w.elapsed + again.took;
      answer = elim again.answer [
        | returned a ↦ returned a
        | thrown s ↦ thrown service_unavailable
      ];
    })
    else some (record { took = so_far + w.elapsed; answer = thrown service_unavailable })

unfoldable pub send_notifications_rpc :
    {A : Type 0} → Bool → (ℕ → Fetch) → Reply A → Reply A → Option (Timed (Answer A))
unfolding send_rpc
send_notifications_rpc has_url fetches first second =
    let asked = send_rpc first in
    elim asked.answer [
      | returned a ↦ some asked
      | thrown status ↦
          if status == gateway_timeout
          then retry asked.took (wait_for_healthy health_wait_budget has_url fetches) second
          else some asked
    ]
