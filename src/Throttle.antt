-- ===== src/Throttle.antt =====
-- RedisThrottlerStorage (apps/api-gateway/src/common/throttle/redis-throttler.storage.ts). Redis is
-- a parameter, used through four commands; what it documents about them is `IsRedis`. The commands
-- of one `increment` run at one instant, in milliseconds. Keys are numbers.
pub mod Window
pub mod Expiry
use crm_system_backend.Prelude.{
  keep_if, length, ℕ, suc, ◌+◌, ◌-◌, ◌/◌, ◌≡◌, ◌≢◌, Bool, true, false, not, Option, none, some,
  List, [], ◌∷◌, ltb, ◌==◌, if◌then◌else◌,
}

-- What is stored under a key: a number, and the time at which it expires.
pub record Slot : Type 0 where
  pub count : ℕ
  pub expires : Option ℕ

abbrev pub is_live : ℕ → Slot → Bool
is_live now x = elim x.expires [ none ↦ true | some e ↦ ltb now e ]

-- PTTL: `none` is a negative answer.
abbrev pub remaining : ℕ → Option Slot → Option ℕ
remaining now none = none
remaining now (some x) = elim x.expires [
  | none ↦ none
  | some e ↦ if ltb now e then some (e - now) else none
]

abbrev pub live_count : ℕ → Option Slot → ℕ
live_count now none = 0
live_count now (some x) = if is_live now x then x.count else 0

abbrev pub live_expiry : ℕ → Option Slot → Option ℕ
live_expiry now none = none
live_expiry now (some x) = if is_live now x then x.expires else none

pub record Redis (S : Type 0) : Type 0 where
  pub slot : S → ℕ → Option Slot
  pub pttl : ℕ → ℕ → S → Option ℕ
  pub incr : ℕ → ℕ → S → ℕ × S
  pub pexpire : ℕ → ℕ → ℕ → S → S
  pub psetex : ℕ → ℕ → ℕ → S → S

-- The commands' documentation, for the store that `slot` shows.
pub record IsRedis {S : Type 0} (r : Redis S) : Type 0 where
  pub pttl_slot : (now k : ℕ) (s : S) → r.pttl now k s ≡ remaining now (r.slot s k)
  pub incr_value : (now k : ℕ) (s : S) → (r.incr now k s).0 ≡ suc (live_count now (r.slot s k))
  pub incr_slot :
      (now k : ℕ) (s : S)
      → r.slot (r.incr now k s).1 k
        ≡ some (record {
          count = suc (live_count now (r.slot s k));
          expires = live_expiry now (r.slot s k);
        })
  pub incr_other : (now k j : ℕ) (s : S) → j ≢ k → r.slot (r.incr now k s).1 j ≡ r.slot s j
  pub pexpire_slot :
      (now k ttl : ℕ) (s : S) (x : Slot)
      → r.slot s k ≡ some x
      → r.slot (r.pexpire now k ttl s) k ≡ some (record x { expires = some (now + ttl) })
  pub pexpire_other :
      (now k ttl j : ℕ) (s : S) → j ≢ k → r.slot (r.pexpire now k ttl s) j ≡ r.slot s j
  pub psetex_slot :
      (now k ttl : ℕ) (s : S)
      → r.slot (r.psetex now k ttl s) k ≡ some (record { count = 1; expires = some (now + ttl) })
  pub psetex_other :
      (now k ttl j : ℕ) (s : S) → j ≢ k → r.slot (r.psetex now k ttl s) j ≡ r.slot s j

-- ThrottlerStorageRecord.
pub record Reply : Type 0 where
  pub total_hits : ℕ
  pub time_to_expire : ℕ
  pub is_blocked : Bool
  pub time_to_block_expire : ℕ

-- How many of the requests were let through.
abbrev pub admitted : List Reply → ℕ
admitted rs = length (keep_if (λ x. not x.is_blocked) rs)

-- The limits of a throttler, and the two keys of one caller.
pub record Throttler : Type 0 where
  pub ttl : ℕ
  pub limit : ℕ
  pub block_duration : ℕ
  pub counter_key : ℕ
  pub block_key : ℕ

-- `Math.ceil(ms / 1000)`, which is 0 at 0.
abbrev pub seconds : ℕ → ℕ
seconds ms = (ms + 999) / 1000

abbrev pub seconds_or_0 : Option ℕ → ℕ
seconds_or_0 none = 0
seconds_or_0 (some ms) = seconds ms

-- Without a client, and when a command fails: the request is let through.
abbrev pub fail_open : Throttler → Reply
fail_open t = record {
  total_hits = 0;
  time_to_expire = seconds t.ttl;
  is_blocked = false;
  time_to_block_expire = 0;
}

abbrev pub open_reply : ℕ → ℕ → Reply
open_reply hits expire = record {
  total_hits = hits;
  time_to_expire = expire;
  is_blocked = false;
  time_to_block_expire = 0;
}

-- `blockedTtl > 0`.
abbrev pub positive : Option ℕ → Option ℕ
positive none = none
positive (some ms) = if ltb 0 ms then some ms else none

module _ {S : Type 0} (r : Redis S) (t : Throttler) where
  -- The hit is counted, and the first one starts the window.
  abbrev pub count_hit : ℕ → S → ℕ × S
  count_hit now s =
      let (hits, counted) = r.incr now t.counter_key s in
      (hits, if hits == 1 then r.pexpire now t.counter_key t.ttl counted else counted)

  abbrev pub judge : ℕ → ℕ → S → Reply × S
  judge now hits s = elim (r.pttl now t.counter_key s) [
    | none ↦ (open_reply hits 0, s)
    | some left ↦
        if ltb t.limit hits
        then (
          record {
            total_hits = hits;
            time_to_expire = seconds left;
            is_blocked = true;
            time_to_block_expire = seconds t.block_duration;
          },
          r.psetex now t.block_key t.block_duration s,
        )
        else (open_reply hits (seconds left), s)
  ]

  -- `increment`, with a client that answers.
  unfoldable pub increment : ℕ → S → Reply × S
  increment now s = elim (positive (r.pttl now t.block_key s)) [
    | some blocked ↦ (
      record {
        total_hits = t.limit + 1;
        time_to_expire = seconds_or_0 (r.pttl now t.counter_key s);
        is_blocked = true;
        time_to_block_expire = seconds blocked;
      },
      s,
    )
    | none ↦ judge now (count_hit now s).0 (count_hit now s).1
  ]

  -- Requests at given times: the replies.
  unfoldable pub replies : List ℕ → S → List Reply
  unfolding increment
  replies [] s = []
  replies (now ∷ times) s = (increment now s).0 ∷ replies times (increment now s).1

-- `increment` with or without a client, which answers or not.
pub data Client (S : Type 0) : Type 0 where
  no_client unreachable : Client S
  reachable : S → Client S

unfoldable pub safe_increment : {S : Type 0} → Redis S → Throttler → ℕ → Client S → Reply × Client S
unfolding increment
safe_increment r t now no_client = (fail_open t, no_client)
safe_increment r t now unreachable = (fail_open t, unreachable)
safe_increment r t now (reachable s) = ((increment r t now s).0, reachable (increment r t now s).1)
