-- ===== src/Examples/Throttle.antt =====
-- A Redis that keeps its documentation, and callers of the throttle.
use crm_system_backend.Prelude.{
  ℕ, suc, ◌+◌, ◌≡◌, refl, arith, Option, none, some, [], ◌∷◌, ◌==◌, if◌then◌else◌,
}
use crm_system_backend.Throttle.{
  Slot, Redis, IsRedis, Throttler, remaining, live_count, live_expiry, admitted, replies,
}
use crm_system_backend.Throttle.Window.{replies-admitted}
use crm_system_backend.Throttle.Expiry.{lost_expiry_admits_all}

abbrev Cells : Type 0
Cells = ℕ → Option Slot

abbrev put : ℕ → Slot → Cells → Cells
put k x s j = if j == k then some x else s j

abbrev expire : ℕ → Option Slot → Option Slot
expire at none = none
expire at (some x) = some (record x { expires = some at })

abbrev counted : ℕ → Option Slot → Slot
counted now o = record { count = suc (live_count now o); expires = live_expiry now o }

abbrev redis : Redis Cells
redis = record {
  slot = λ s k. s k;
  pttl = λ now k s. remaining now (s k);
  incr = λ now k s. (suc (live_count now (s k)), put k (counted now (s k)) s);
  pexpire = λ now k ttl s j. if j == k then expire (now + ttl) (s j) else s j;
  psetex = λ now k ttl s. put k (record { count = 1; expires = some (now + ttl) }) s;
}

redis-IsRedis : IsRedis redis
redis-IsRedis = record {
  pttl_slot = λ now k s. refl;
  incr_value = λ now k s. refl;
  incr_slot = λ now k s. ground arith;
  incr_other = λ now k j s ne. ground arith;
  pexpire_slot = λ now k ttl s x e. ground arith;
  pexpire_other = λ now k ttl j s ne. ground arith;
  psetex_slot = λ now k ttl s. ground arith;
  psetex_other = λ now k ttl j s ne. ground arith;
}

abbrev two_a_minute : Throttler
two_a_minute = record {
  ttl = 60000;
  limit = 2;
  block_duration = 60000;
  counter_key = 1;
  block_key = 2;
}

abbrev empty : Cells
empty k = none

abbrev lost : Cells
lost k = if k == 1 then some (record { count = 1; expires = none }) else none

replies-admitted_example : admitted (replies redis two_a_minute (100 ∷ 200 ∷ 300 ∷ []) empty) ≡ 2
replies-admitted_example =
    replies-admitted redis two_a_minute redis-IsRedis (λ e. absurd (omega (arith, e))) 100
      (200 ∷ 300 ∷ []) empty (omega arith) refl refl (omega arith, (omega arith, tt))

lost_expiry_admits_all_example :
    admitted (replies redis two_a_minute (100 ∷ 900000 ∷ 900001 ∷ []) lost) ≡ 3
lost_expiry_admits_all_example =
    lost_expiry_admits_all redis two_a_minute redis-IsRedis (λ e. absurd (omega (arith, e))) 1
      (100 ∷ 900000 ∷ 900001 ∷ []) lost refl refl (omega arith)
