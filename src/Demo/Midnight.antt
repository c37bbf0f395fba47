-- ===== src/Demo/Midnight.antt =====
-- The nightly reset: `msUntilNextMidnight` and the switches of DemoService
-- (apps/api-gateway/src/modules/demo/demo.service.ts). `Intl.DateTimeFormat` is outside: `as_utc t`
-- is what the zone's clock shows at `t`, to the second, read as a time in UTC. Times are after
-- 1970, and no zone is a day away from UTC.
use crm_system_backend.Prelude.{
  ℕ, ◌+◌, ◌-◌, ◌*◌, ◌/◌, ◌%◌, ◌≤◌, ◌<◌, ◌≡◌, ap, ◌∙◌, Bool, true, not, ◌&&◌, Option, none, some, [],
  ◌∷◌, arith, ltb, if◌then◌else◌, or_else?,
}
use crm_system_backend.Prelude.Int.{ℤ, pos_part, neg_part, sub_ℕ}
use crm_system_backend.Prelude.Text.{Text, same_text}

abbrev pub day_ms : ℕ
day_ms = 24 * 60 * 60 * 1000

-- A time and a difference of times.
abbrev add_diff : ℕ → ℤ → ℕ
add_diff t d = t + pos_part d - neg_part d

abbrev take_diff : ℕ → ℤ → ℕ
take_diff t d = t + neg_part d - pos_part d

-- `tzOffsetMs`.
abbrev pub tz_offset : (ℕ → ℕ) → ℕ → ℤ
tz_offset as_utc t = sub_ℕ (as_utc t) t

-- `Date.UTC(year, month, date + 1)`.
abbrev pub next_midnight_wall : ℕ → ℕ
next_midnight_wall wall = (wall / day_ms + 1) * day_ms

unfoldable pub ms_until_next_midnight : (ℕ → ℕ) → ℕ → ℕ
ms_until_next_midnight as_utc now =
    let wall_now = add_diff now (tz_offset as_utc now) in
    let wall_next = next_midnight_wall wall_now in
    let target =
      take_diff wall_next (tz_offset as_utc (take_diff wall_next (tz_offset as_utc now))) in
    add_diff (if ltb now target then 0 else day_ms) (sub_ℕ target now)

-- DEMO_ENABLED and DEMO_AUTO_RESET, from the configuration or the environment.
pub record Switches : Type 0 where
  pub enabled : Option Text
  pub enabled_env : Option Text
  pub auto_reset : Option Text
  pub auto_reset_env : Option Text

-- `raw !== 'false'`.
abbrev is_not_false : Option Text → Bool
is_not_false none = true
is_not_false (some t) = not (same_text t (b'f' ∷ b'a' ∷ b'l' ∷ b's' ∷ b'e' ∷ []))

abbrev pub is_enabled : Switches → Bool
is_enabled s = is_not_false (or_else? s.enabled s.enabled_env)

abbrev pub is_auto_reset_enabled : Switches → Bool
is_auto_reset_enabled s = is_enabled s && is_not_false (or_else? s.auto_reset s.auto_reset_env)

unfoldable pub get_next_reset_at : (ℕ → ℕ) → Switches → ℕ → Option ℕ
unfolding ms_until_next_midnight
get_next_reset_at as_utc s now =
    if is_auto_reset_enabled s then some (now + ms_until_next_midnight as_utc now) else none

-- A zone without daylight saving, `east` ahead of or `west` behind UTC.
abbrev pub IsFixed : (ℕ → ℕ) → ℕ → ℕ → Type 0
IsFixed as_utc east west = (t : ℕ) → west ≤ t → as_utc t + west ≡ t / 1000 * 1000 + east

wall_lem : (as_utc : ℕ → ℕ) (t : ℕ) → add_diff t (tz_offset as_utc t) ≡ as_utc t
wall_lem as_utc t = ground arith

utc_lem : (as_utc : ℕ → ℕ) (n t : ℕ) → take_diff n (tz_offset as_utc t) ≡ n + t - as_utc t
utc_lem as_utc t n = ground arith

next_midnight_wall_lem :
    (wall : ℕ)
    → (wall < next_midnight_wall wall)
      × (next_midnight_wall wall ≤ wall + day_ms)
      × (next_midnight_wall wall % day_ms ≡ 0)
next_midnight_wall_lem wall = (omega arith, omega arith, omega arith)

module _ (as_utc : ℕ → ℕ) (east west : ℕ) (fixed : IsFixed as_utc east west) where
  -- The clock at the time that is computed for the next midnight.
  clock_lem :
      (now wall_next : ℕ)
      → west ≤ now
      → east % 1000 ≡ 0
      → west % 1000 ≡ 0
      → wall_next % 1000 ≡ 0
      → as_utc now < wall_next
      → as_utc (wall_next + now - as_utc now) ≡ wall_next
  clock_lem now wall_next later e w m lt =
      let x : ℕ = wall_next + now - as_utc now in
      let here = fixed now later in
      let there = fixed x (omega (arith, lt, later)) in
      omega (arith, here, there, e, w, m, lt, later)

  until_lem :
      (now : ℕ)
      → west ≤ now
      → east % 1000 ≡ 0
      → west % 1000 ≡ 0
      → ms_until_next_midnight as_utc now ≡ next_midnight_wall (as_utc now) - as_utc now
  unfolding ms_until_next_midnight
  until_lem now later e w = rw (wall_lem as_utc now) (
      rw (utc_lem as_utc wall_next now)
        (rw (utc_lem as_utc wall_next x) (rw (at_x) (ground (arith, bounds.0)))))
    where
      wall_next : ℕ
      wall_next = next_midnight_wall (as_utc now)

      x : ℕ
      x = wall_next + now - as_utc now

      bounds :
          (as_utc now < wall_next) × (wall_next ≤ as_utc now + day_ms) × (wall_next % day_ms ≡ 0)
      bounds = next_midnight_wall_lem (as_utc now)

      at_x : as_utc x ≡ wall_next
      at_x = clock_lem now wall_next later e w (omega (arith, bounds.2)) bounds.0

  -- Let the zone be fixed, a whole number of seconds from UTC, and the nightly reset be switched on.
  -- The next reset is later than now, within 24 hours, and at a time at which the zone's clock shows
  -- midnight to the second.
  pub get_next_reset_at-midnight :
      (s : Switches) (now : ℕ)
      → west ≤ now
      → east % 1000 ≡ 0
      → west % 1000 ≡ 0
      → is_auto_reset_enabled s ≡ true
      → (t : ℕ) × (get_next_reset_at as_utc s now ≡ some t)
        × (now < t)
        × (t ≤ now + day_ms)
        × (as_utc t % day_ms ≡ 0)
  unfolding get_next_reset_at
  get_next_reset_at-midnight s now later e w on = (
    now + (wall_next - as_utc now),
    rw (on) (ap (λ r. some (now + r)) (until_lem now later e w)),
    omega (arith, bounds.0),
    omega (arith, bounds.1, bounds.0),
    ap (λ n. as_utc n % day_ms) same ∙ ap (λ n. n % day_ms) at_x ∙ bounds.2,
  )
    where
      wall_next : ℕ
      wall_next = next_midnight_wall (as_utc now)

      bounds :
          (as_utc now < wall_next) × (wall_next ≤ as_utc now + day_ms) × (wall_next % day_ms ≡ 0)
      bounds = next_midnight_wall_lem (as_utc now)

      at_x : as_utc (wall_next + now - as_utc now) ≡ wall_next
      at_x = clock_lem now wall_next later e w (omega (arith, bounds.2)) bounds.0

      same : now + (wall_next - as_utc now) ≡ wall_next + now - as_utc now
      same = omega (arith, bounds.0)
