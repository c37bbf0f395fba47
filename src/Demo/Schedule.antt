-- ===== src/Demo/Schedule.antt =====
-- The timer of the nightly reset (`onModuleInit`, `onModuleDestroy`, `scheduleNextReset`,
-- `runScheduledReset` of apps/api-gateway/src/modules/demo/demo.service.ts). A timer that is set
-- goes off once, unless it is cleared; a reset takes its time, and may fail.
use crm_system_backend.Prelude.{
  ℕ, ◌+◌, ◌-◌, ◌≡◌, ◌⊎◌, refl, Bool, true, false, not, Option, none, some, List, [], ◌∷◌, arith,
  ◌==◌, if◌then◌else◌, find, keep_if, length, All, Bool-cases, ap, sym, subst, ◌∙◌, inl, inr,
}
use crm_system_backend.Demo.Midnight.{Switches, is_auto_reset_enabled, ms_until_next_midnight}

pub record Timer : Type 0 where
  pub id : ℕ
  pub due : ℕ

abbrev pub timer_key : Timer → ℕ
timer_key t = t.id

-- `resetTimer`, the timers that are set, the scheduled resets that are under way, and the handle
-- that the next timer gets.
pub record Schedule : Type 0 where
  pub reset_timer : Option ℕ
  pub timers : List Timer
  pub under_way : ℕ
  pub next_id : ℕ

-- What happens to the module: its end, a timer that goes off, and the end of a reset, which
-- succeeds or fails.
pub data Event : Type 0 where
  destroyed : Event
  goes_off : ℕ → Event
  ends : ℕ → Bool → Event

-- `runScheduledReset` up to its reset.
unfoldable pub begin_reset : ℕ → Schedule → Schedule
begin_reset id s = elim (find timer_key id s.timers) [
  | none ↦ s
  | some t ↦ record s {
    reset_timer = none;
    timers = keep_if (λ x. not (x.id == id)) s.timers;
    under_way = s.under_way + 1;
  }
]

-- `onModuleDestroy`.
unfoldable pub on_module_destroy : Schedule → Schedule
on_module_destroy s = elim s.reset_timer [
  | none ↦ s
  | some id ↦ record s { reset_timer = none; timers = keep_if (λ x. not (x.id == id)) s.timers }
]

-- `scheduleNextReset`.
unfoldable pub schedule_next_reset : (ℕ → ℕ) → ℕ → Schedule → Schedule
schedule_next_reset as_utc now s = record s {
  reset_timer = some s.next_id;
  timers = record { id = s.next_id; due = now + ms_until_next_midnight as_utc now } ∷ s.timers;
  next_id = s.next_id + 1;
}

module _ (as_utc : ℕ → ℕ) (switches : Switches) where
  -- `onModuleInit`.
  unfoldable pub on_module_init : ℕ → Schedule → Schedule
  on_module_init now s =
      if not (is_auto_reset_enabled switches) then s else schedule_next_reset as_utc now s

  -- The rest of `runScheduledReset`, however the reset ended.
  unfoldable pub end_reset : ℕ → Bool → Schedule → Schedule
  end_reset now succeeded s =
      if s.under_way == 0
      then s
      else (if is_auto_reset_enabled switches
          then schedule_next_reset as_utc now (record s { under_way = s.under_way - 1 })
          else record s { under_way = s.under_way - 1 })

  unfoldable pub step : Event → Schedule → Schedule
  step destroyed s = on_module_destroy s
  step (goes_off id) s = begin_reset id s
  step (ends now succeeded) s = end_reset now succeeded s

  unfoldable pub run : List Event → Schedule → Schedule
  run [] s = s
  run (e ∷ es) s = run es (step e s)

abbrev pub fresh : Schedule
fresh = record { reset_timer = none; timers = []; under_way = 0; next_id = 0 }

-- A timer waits, or a reset is under way.
pub record IsWaiting (s : Schedule) : Type 0 where
  pub timer : Timer
  pub alone : s.timers ≡ timer ∷ []
  pub known : s.reset_timer ≡ some timer.id
  pub idle : s.under_way ≡ 0

pub record IsResetting (s : Schedule) : Type 0 where
  pub no_timer : s.timers ≡ []
  pub unknown : s.reset_timer ≡ none
  pub busy : s.under_way ≡ 1

abbrev pub IsSteady : Schedule → Type 0
IsSteady s = IsWaiting s ⊎ IsResetting s

abbrev pub IsOver : Schedule → Type 0
IsOver s = (s.timers ≡ []) × (s.under_way ≡ 0) × (s.reset_timer ≡ none)

abbrev pub is_alive : Event → Bool
is_alive destroyed = false
is_alive (goes_off id) = true
is_alive (ends now succeeded) = true

begin_reset-waiting : (id : ℕ) (s : Schedule) → IsWaiting s → IsSteady (begin_reset id s)
unfolding begin_reset
begin_reset-waiting id s w = elim (Bool-cases (w.timer.id == id)) [
  | inl same ↦
      let found : find timer_key id s.timers ≡ some w.timer =
        ap (find timer_key id) w.alone ∙ ground (arith, same) in
      let left : keep_if (λ x. not (x.id == id)) s.timers ≡ [] =
        ap (keep_if (λ x. not (x.id == id))) w.alone ∙ ground (arith, same) in
      inr (
        rw (found, begin_reset)
          (record { no_timer = left; unknown = refl; busy = omega (arith, w.idle) }))
  | inr other ↦
      let missing : find timer_key id s.timers ≡ none =
        ap (find timer_key id) w.alone ∙ ground (arith, other) in
      inl (rw (missing, begin_reset) w)
]

begin_reset-resetting : (id : ℕ) (s : Schedule) → IsResetting s → begin_reset id s ≡ s
unfolding begin_reset
begin_reset-resetting id s r = ground (arith, r.no_timer)

on_module_destroy-waiting : (s : Schedule) → IsWaiting s → IsOver (on_module_destroy s)
unfolding on_module_destroy
on_module_destroy-waiting s w =
    let left : keep_if (λ x. not (x.id == w.timer.id)) s.timers ≡ [] =
      ap (keep_if (λ x. not (x.id == w.timer.id))) w.alone ∙ ground arith in
    rw (w.known, on_module_destroy) (left, w.idle, refl)

on_module_destroy-resetting : (s : Schedule) → IsResetting s → on_module_destroy s ≡ s
unfolding on_module_destroy
on_module_destroy-resetting s r = ground (arith, r.unknown)

module _ (as_utc : ℕ → ℕ) (switches : Switches) where
  scheduled :
      (now : ℕ) (s : Schedule)
      → s.timers ≡ []
      → s.under_way ≡ 0
      → IsWaiting (schedule_next_reset as_utc now s)
  unfolding schedule_next_reset
  scheduled now s none_left idle = record {
    timer = record { id = s.next_id; due = now + ms_until_next_midnight as_utc now };
    alone =
        ap (λ l. record { id = s.next_id; due = now + ms_until_next_midnight as_utc now } ∷ l)
          none_left;
    known = refl;
    idle = idle;
  }

  end_reset-waiting :
      (now : ℕ) (b : Bool) (s : Schedule) → IsWaiting s → end_reset as_utc switches now b s ≡ s
  unfolding end_reset
  end_reset-waiting now b s w = ground (arith, w.idle)

  end_reset-resetting :
      (now : ℕ) (b : Bool) (s : Schedule)
      → is_auto_reset_enabled switches ≡ true
      → IsResetting s
      → IsWaiting (end_reset as_utc switches now b s)
  unfolding end_reset
  end_reset-resetting now b s on r =
      let busy : (s.under_way == 0) ≡ false = ground (arith, r.busy) in
      rw (busy, on, end_reset)
        (scheduled now (record s { under_way = s.under_way - 1 }) r.no_timer
          (omega (arith, r.busy)))

  step-IsSteady :
      (e : Event) (s : Schedule)
      → is_auto_reset_enabled switches ≡ true
      → is_alive e ≡ true
      → IsSteady s
      → IsSteady (step as_utc switches e s)
  unfolding step
  step-IsSteady destroyed s on alive h = cc
  step-IsSteady (goes_off id) s on alive (inl w) = begin_reset-waiting id s w
  step-IsSteady (goes_off id) s on alive (inr r) =
      subst IsSteady (sym (begin_reset-resetting id s r)) (inr r)
  step-IsSteady (ends now b) s on alive (inl w) =
      subst IsSteady (sym (end_reset-waiting now b s w)) (inl w)
  step-IsSteady (ends now b) s on alive (inr r) = inl (end_reset-resetting now b s on r)

  run-IsSteady :
      (es : List Event) (s : Schedule)
      → is_auto_reset_enabled switches ≡ true
      → All (λ e. is_alive e ≡ true) es
      → IsSteady s
      → IsSteady (run as_utc switches es s)
  unfolding run
  run-IsSteady [] s on alive h = h
  run-IsSteady (e ∷ es) s on alive h =
      run-IsSteady es (step as_utc switches e s) on alive.1 (step-IsSteady e s on alive.0 h)

  step-IsOver : (e : Event) (s : Schedule) → IsOver s → IsOver (step as_utc switches e s)
  unfolding step begin_reset end_reset on_module_destroy
  step-IsOver destroyed s (a, b, c) = rw (c, on_module_destroy) (a, b, c)
  step-IsOver (goes_off id) s (a, b, c) = rw (a, begin_reset) (a, b, c)
  step-IsOver (ends now done) s (a, b, c) =
      let idle : (s.under_way == 0) ≡ true = ground (arith, b) in rw (idle, end_reset) (a, b, c)

  run-IsOver : (es : List Event) (s : Schedule) → IsOver s → IsOver (run as_utc switches es s)
  unfolding run
  run-IsOver [] s h = h
  run-IsOver (e ∷ es) s h = run-IsOver es (step as_utc switches e s) (step-IsOver e s h)

  -- Let the nightly reset be switched on. From the module's start on, whatever timers go off and
  -- resets end, well or with an error, there is always one timer that waits or one reset under way,
  -- and never both. If the module is destroyed while a timer waits, nothing is left, and no reset
  -- begins any more. If it is destroyed while a reset is under way, the end of that reset sets a
  -- timer again.
  pub one_reset_at_a_time :
      (now : ℕ) (es : List Event)
      → is_auto_reset_enabled switches ≡ true
      → All (λ e. is_alive e ≡ true) es
      → let s = run as_utc switches es (on_module_init as_utc switches now fresh) in
        (length s.timers + s.under_way ≡ 1)
        × (s.under_way ≡ 0
            → (more : List Event) → IsOver (run as_utc switches more (on_module_destroy s)))
        × (s.under_way ≡ 1
            → (later : ℕ) (succeeded : Bool)
            → length (end_reset as_utc switches later succeeded (on_module_destroy s)).timers ≡ 1)
  unfolding on_module_init
  one_reset_at_a_time now es on alive = by_phase s steady
    where
      s : Schedule
      s = run as_utc switches es (on_module_init as_utc switches now fresh)

      steady : IsSteady s
      steady =
          run-IsSteady es (on_module_init as_utc switches now fresh) on alive
            (inl (rw (on, on_module_init) (scheduled now fresh refl refl)))

      by_phase :
          (s : Schedule)
          → IsSteady s
          → (length s.timers + s.under_way ≡ 1)
            × (s.under_way ≡ 0
                → (more : List Event) → IsOver (run as_utc switches more (on_module_destroy s)))
            × (s.under_way ≡ 1
                → (later : ℕ) (succeeded : Bool)
                → length (end_reset as_utc switches later succeeded (on_module_destroy s)).timers
                  ≡ 1)
      by_phase s (inl w) = (
        omega (arith, ap length w.alone, w.idle),
        λ idle more. run-IsOver more (on_module_destroy s) (on_module_destroy-waiting s w),
        λ busy later b. absurd (omega (arith, busy, w.idle)),
      )
      by_phase s (inr r) = (
        omega (arith, ap length r.no_timer, r.busy),
        λ idle more. absurd (omega (arith, idle, r.busy)),
        λ busy later b.
            ap (λ (x : Schedule). length (end_reset as_utc switches later b x).timers)
              (on_module_destroy-resetting s r)
            ∙ ap length (end_reset-resetting later b s on r).alone,
      )
