-- ===== src/Wake/Budget.antt =====
-- How long the gateway waits for the notifications service
-- (apps/api-gateway/src/modules/notifications/notifications.controller.ts).
use crm_system_backend.Prelude.{
  ℕ, zero, suc, ◌+◌, ◌*◌, ◌≤◌, ◌<◌, ◌≡◌, refl, ap, ◌∙◌, Bool, true, false, Option, some, arith, ltb,
  ◌==◌, if◌then◌else◌, Bool-cases, inl, inr,
}
use crm_system_backend.Wake.{
  rpc_timeout, health_poll_interval, health_wait_budget, health_fetch_timeout, Reply, Answer, Timed,
  Fetch, Waited, send_rpc, ping_health, gateway_timeout, service_unavailable, wait_loop,
  wait_for_healthy, send_notifications_rpc, retry, returned, thrown, silence, value, failure,
}

send_rpc-le : {A : Type 0} (r : Reply A) → (send_rpc r).took ≤ rpc_timeout
unfolding send_rpc
send_rpc-le silence = omega arith
send_rpc-le (value t a) = ground arith
send_rpc-le (failure t c s) = ground arith

ping_health-le : (f : Fetch) → (ping_health f).took ≤ health_fetch_timeout
unfolding ping_health
ping_health-le f = ground arith

-- What a wait of the given budget ends with. After a success there is no pause any more.
abbrev pub pause : Waited → ℕ
pause w = if w.healthy then health_poll_interval else 0

abbrev pub Within : ℕ → Waited → Type 0
Within budget w =
    (w.elapsed + pause w < budget + health_fetch_timeout + health_poll_interval)
    × (w.attempts * health_poll_interval < budget + health_poll_interval)

wait_loop-Within :
    (fuel budget attempts elapsed : ℕ) (fetches : ℕ → Fetch)
    → 0 < fuel
    → budget < elapsed + fuel
    → attempts * health_poll_interval ≤ elapsed
    → elapsed < budget + health_fetch_timeout + health_poll_interval
    → attempts * health_poll_interval < budget + health_poll_interval
    → (w : Waited) × (wait_loop fuel budget fetches attempts elapsed ≡ some w) × Within budget w
unfolding wait_loop
wait_loop-Within zero budget attempts elapsed fetches some_left fuel slow fits few =
    absurd (omega arith)
wait_loop-Within (suc n) budget attempts elapsed fetches some_left fuel slow fits few =
    elim (Bool-cases (ltb elapsed budget)) [
      | inr over ↦ (
        record { healthy = false; elapsed = elapsed; attempts = attempts },
        rw over refl,
        (fits_over, few),
      )
      | inl going ↦ elim (Bool-cases (ping_health (fetches attempts)).answer) [
        | inl up ↦ (
          record {
            healthy = true;
            elapsed = elapsed + (ping_health (fetches attempts)).took;
            attempts = attempts + 1;
          },
          rw going (rw up refl),
          (ground (arith, ping_health-le (fetches attempts)), ground arith),
        )
        | inr down ↦ next going down (
            wait_loop-Within n budget (attempts + 1)
              (elapsed + (ping_health (fetches attempts)).took + health_poll_interval) fetches
              (ground arith) (ground arith) (ground arith)
              (ground (arith, ping_health-le (fetches attempts))) (ground arith))
      ]
    ]
  where
    fits_over : elapsed + 0 < budget + health_fetch_timeout + health_poll_interval
    fits_over = omega arith

    next :
        ltb elapsed budget ≡ true
        → (ping_health (fetches attempts)).answer ≡ false
        → ((w : Waited) × (wait_loop n budget fetches
                (attempts + 1)
                (elapsed + (ping_health (fetches attempts)).took + health_poll_interval)
              ≡ some w)
            × Within budget w)
        → (w : Waited) × (wait_loop (suc n) budget fetches attempts elapsed ≡ some w)
          × Within budget w
    next going down (w, e, b) = (w, rw going (rw down e), b)

-- `waitForHealthy` ends, whatever the health check answers and however long it takes: before the
-- budget and one more fetch with its pause are over, and after at most as many fetches as there are
-- poll intervals in the budget, rounded up. If the service is healthy, it ends before the budget
-- and one more fetch are over.
pub wait_for_healthy_ends :
    (budget : ℕ) (has_url : Bool) (fetches : ℕ → Fetch)
    → (w : Waited) × (wait_for_healthy budget has_url fetches ≡ some w) × Within budget w
unfolding wait_for_healthy
wait_for_healthy_ends budget false fetches =
    (record { healthy = false; elapsed = 0; attempts = 0 }, refl, (omega arith, omega arith))
wait_for_healthy_ends budget true fetches =
    wait_loop-Within (suc budget) budget 0 0 fetches (omega arith) (omega arith) (omega arith)
      (omega arith) (omega arith)

retry-lt :
    {A : Type 0} (so_far : ℕ) (w : Waited) (second : Reply A)
    → so_far ≤ rpc_timeout
    → Within health_wait_budget w
    → (t : Timed (Answer A)) × (retry so_far (some w) second ≡ some t) × (t.took < 98000)
retry-lt so_far w second le within = elim (Bool-cases w.healthy) [
  | inl up ↦ (
    record {
      took = so_far + w.elapsed + (send_rpc second).took;
      answer = elim (send_rpc second).answer [
        | returned a ↦ returned a
        | thrown s ↦ thrown service_unavailable
      ];
    },
    rw up refl,
    ground (arith, send_rpc-le second, within.0),
  )
  | inr down ↦ (
    record { took = so_far + w.elapsed; answer = thrown service_unavailable },
    rw down refl,
    ground (arith, within.0),
  )
]

by_answer :
    {A : Type 0} (asked : Timed (Answer A)) (answer : Answer A) (o : Option Waited) (w : Waited)
    (second : Reply A)
    → o ≡ some w
    → asked.took ≤ rpc_timeout
    → Within health_wait_budget w
    → (t : Timed (Answer A)) × (elim answer [
      | returned a ↦ some asked
      | thrown status ↦ if status == gateway_timeout then retry asked.took o second else some asked
    ]
        ≡ some t)
      × (t.took < 98000)
by_answer asked (returned a) o w second e le b = (asked, refl, omega arith)
by_answer {A = A} asked (thrown status) o w second ow le b =
    elim (Bool-cases (status == gateway_timeout)) [
      | inl late ↦ waited late (retry-lt asked.took w second le b)
      | inr early ↦ (asked, rw early refl, omega arith)
    ]
  where
    waited :
        (status == gateway_timeout) ≡ true
        → ((t : Timed (Answer A)) × (retry asked.took (some w) second ≡ some t) × (t.took < 98000))
        → (t : Timed (Answer A)) × ((if status == gateway_timeout
              then retry asked.took o second
              else some asked)
            ≡ some t)
          × (t.took < 98000)
    waited late (t, e, lt) = (t, rw late (ap (λ x. retry asked.took x second) ow ∙ e), lt)

-- A request for notifications is always answered, in less than 98 seconds, whatever the broker and
-- the health check do.
pub send_notifications_rpc_answers :
    {A : Type 0} (has_url : Bool) (fetches : ℕ → Fetch) (first second : Reply A)
    → (t : Timed (Answer A)) × (send_notifications_rpc has_url fetches first second ≡ some t)
      × (t.took < 98000)
unfolding send_notifications_rpc
send_notifications_rpc_answers has_url fetches first second =
    let (w, e, b) = wait_for_healthy_ends health_wait_budget has_url fetches in
    by_answer (send_rpc first) (send_rpc first).answer _ w second e (send_rpc-le first) b
