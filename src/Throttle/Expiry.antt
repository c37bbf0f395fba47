-- ===== src/Throttle/Expiry.antt =====
-- A counter whose window was never started: `incr` without the `pexpire` that follows it
-- (apps/api-gateway/src/common/throttle/redis-throttler.storage.ts).
use crm_system_backend.Prelude.{
  ℕ, suc, ◌<◌, ◌≡◌, ◌≢◌, refl, sym, subst, ap, ◌∙◌, false, none, some, List, [], ◌∷◌, arith, length,
}
use crm_system_backend.Throttle.{
  admitted, remaining, Redis, IsRedis, Throttler, open_reply, increment, judge, count_hit, replies,
}
use crm_system_backend.Throttle.Window.{increment_open, not_blocked}

module _ {S : Type 0} (r : Redis S) (t : Throttler) (law : IsRedis r)
    (apart : t.block_key ≢ t.counter_key) where
  abbrev Endless : ℕ → S → Type 0
  Endless k s =
      (r.slot s t.counter_key ≡ some (record { count = k; expires = none }))
      × (r.slot s t.block_key ≡ none)

  passes :
      (now k : ℕ) (s : S)
      → Endless k s
      → 0 < k
      → ((increment r t now s).0.is_blocked ≡ false) × Endless (suc k) (increment r t now s).1
  passes now k s (counter, block) pos =
      subst (λ o. (o.0.is_blocked ≡ false) × Endless (suc k) o.1) (sym judged)
        (refl, (counted, law.incr_other now t.counter_key t.block_key s apart ∙ block))
    where
      next : S
      next = (r.incr now t.counter_key s).1

      counted : r.slot next t.counter_key ≡ some (record { count = suc k; expires = none })
      counted = ground (arith, law.incr_slot now t.counter_key s)

      hit : count_hit r t now s ≡ (suc k, next)
      hit = ground (arith, law.incr_value now t.counter_key s)

      endless : r.pttl now t.counter_key next ≡ none
      endless = law.pttl_slot now t.counter_key next ∙ ap (remaining now) counted

      open_judge : judge r t now (suc k) next ≡ (open_reply (suc k) 0, next)
      open_judge = rw (endless, judge) refl

      judged : increment r t now s ≡ (open_reply (suc k) 0, next)
      judged =
          increment_open r t law apart now s (not_blocked r t law apart now s block)
          ∙ ap (λ h. judge r t now h.0 h.1) hit
          ∙ open_judge

  -- If the command that starts the window of a caller's counter is lost after the counter's first
  -- hit, every later request of that caller is let through, at any time and however many they are.
  pub lost_expiry_admits_all :
      (k : ℕ) (times : List ℕ) (s : S)
      → r.slot s t.counter_key ≡ some (record { count = k; expires = none })
      → r.slot s t.block_key ≡ none
      → 0 < k
      → admitted (replies r t times s) ≡ length times
  unfolding replies
  lost_expiry_admits_all k [] s counter block pos = refl
  lost_expiry_admits_all k (now ∷ times) s counter block pos =
      let (verdict, later) = passes now k s (counter, block) pos in
      ground (
        arith,
        lost_expiry_admits_all (suc k) times (increment r t now s).1 later.0 later.1 (omega arith),
      )
