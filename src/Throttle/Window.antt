-- ===== src/Throttle/Window.antt =====
-- How many requests a window lets through
-- (apps/api-gateway/src/common/throttle/redis-throttler.storage.ts).
use crm_system_backend.Prelude.{
  ℕ, suc, ◌+◌, ◌-◌, ◌≤◌, ◌<◌, ◌≡◌, ◌≢◌, refl, sym, subst, ap, ◌∙◌, min, true, false, Option, none,
  some, List, [], ◌∷◌, arith, ltb, length, All, inl, inr, Bool-cases, Option-cases,
}
use crm_system_backend.Throttle.{
  admitted, Redis, IsRedis, Reply, Throttler, positive, open_reply, seconds, increment, judge,
  count_hit, replies,
}

module _ {S : Type 0} (r : Redis S) (t : Throttler) (law : IsRedis r)
    (apart : t.block_key ≢ t.counter_key) where
  -- The window runs until `end`: `k` hits are counted, and no block has begun before the limit.
  abbrev Running : ℕ → ℕ → S → Type 0
  Running end k s =
      (r.slot s t.counter_key ≡ some (record { count = k; expires = some end }))
      × (k ≤ t.limit → r.slot s t.block_key ≡ none)

  -- A counted hit of a live window, and the first hit.
  hit_live :
      (now end k : ℕ) (s : S)
      → r.slot s t.counter_key ≡ some (record { count = k; expires = some end })
      → now < end
      → 0 < k
      → count_hit r t now s ≡ (suc k, (r.incr now t.counter_key s).1)
  hit_live now end k s counter early pos = ground (arith, law.incr_value now t.counter_key s)

  slot_live :
      (now end k : ℕ) (s : S)
      → r.slot s t.counter_key ≡ some (record { count = k; expires = some end })
      → now < end
      → r.slot (r.incr now t.counter_key s).1 t.counter_key
        ≡ some (record { count = suc k; expires = some end })
  slot_live now end k s counter early = ground (arith, law.incr_slot now t.counter_key s)

  pttl_live :
      (now end k : ℕ) (s : S)
      → r.slot s t.counter_key ≡ some (record { count = k; expires = some end })
      → now < end
      → r.pttl now t.counter_key s ≡ some (end - now)
  pttl_live now end k s counter early = ground (arith, law.pttl_slot now t.counter_key s)

  pub not_blocked :
      (now : ℕ) (s : S) → r.slot s t.block_key ≡ none → positive (r.pttl now t.block_key s) ≡ none
  not_blocked now s e = ground (arith, law.pttl_slot now t.block_key s)

  pub increment_open :
      (now : ℕ) (s : S)
      → positive (r.pttl now t.block_key s) ≡ none
      → increment r t now s ≡ judge r t now (count_hit r t now s).0 (count_hit r t now s).1
  unfolding increment
  increment_open now s e = rw (e, increment) refl

  judge_pass :
      (now hits left : ℕ) (s : S)
      → r.pttl now t.counter_key s ≡ some left
      → hits ≤ t.limit
      → judge r t now hits s ≡ (open_reply hits (seconds left), s)
  judge_pass now hits left s e le = ground arith

  judge_stop :
      (now hits left : ℕ) (s : S)
      → r.pttl now t.counter_key s ≡ some left
      → t.limit < hits
      → ((judge r t now hits s).0.is_blocked ≡ true)
        × ((judge r t now hits s).1 ≡ r.psetex now t.block_key t.block_duration s)
  judge_stop now hits left s e lt = ground arith

  -- A request within a running window, below the limit and from it on.
  below :
      (now end k : ℕ) (s : S)
      → Running end k s
      → now < end
      → 0 < k
      → k < t.limit
      → ((increment r t now s).0.is_blocked ≡ false) × Running end (suc k) (increment r t now s).1
  below now end k s (counter, unblocked) early pos lt =
      subst (λ o. (o.0.is_blocked ≡ false) × Running end (suc k) o.1) (sym passed)
        (refl, (slot_live now end k s counter early, λ le. still_none))
    where
      next : S
      next = (r.incr now t.counter_key s).1

      passed : increment r t now s ≡ (open_reply (suc k) (seconds (end - now)), next)
      passed =
          increment_open now s (not_blocked now s (unblocked (omega arith)))
          ∙ ap (λ h. judge r t now h.0 h.1) (hit_live now end k s counter early pos)
          ∙ judge_pass now (suc k) (end - now) next
              (pttl_live now end (suc k) next (slot_live now end k s counter early) early)
              (omega arith)

      still_none : r.slot next t.block_key ≡ none
      still_none = law.incr_other now t.counter_key t.block_key s apart ∙ unblocked (omega arith)

  stopped :
      (now end k : ℕ) (s : S)
      → Running end k s
      → now < end
      → 0 < k
      → t.limit ≤ k
      → positive (r.pttl now t.block_key s) ≡ none
      → ((increment r t now s).0.is_blocked ≡ true) × Running end (suc k) (increment r t now s).1
  stopped now end k s (counter, unblocked) early pos le free =
      subst (λ o. (o.0.is_blocked ≡ true) × Running end (suc k) o.1) (sym judged)
        (
          verdict.0,
          subst (λ q. Running end (suc k) q) (sym verdict.1)
              (
                law.psetex_other now t.block_key t.block_duration t.counter_key next
                      (λ e. apart (sym e))
                    ∙ slot_live now end k s counter early,
                λ low. absurd (omega arith),
              ),
        )
    where
      next : S
      next = (r.incr now t.counter_key s).1

      judged : increment r t now s ≡ judge r t now (suc k) next
      judged =
          increment_open now s free
          ∙ ap (λ h. judge r t now h.0 h.1) (hit_live now end k s counter early pos)

      verdict :
          ((judge r t now (suc k) next).0.is_blocked ≡ true)
          × ((judge r t now (suc k) next).1 ≡ r.psetex now t.block_key t.block_duration next)
      verdict =
          judge_stop now (suc k) (end - now) next
            (pttl_live now end (suc k) next (slot_live now end k s counter early) early)
            (omega arith)

  still_blocked :
      (now blocked : ℕ) (s : S)
      → positive (r.pttl now t.block_key s) ≡ some blocked
      → ((increment r t now s).0.is_blocked ≡ true) × ((increment r t now s).1 ≡ s)
  unfolding increment
  still_blocked now blocked s e = ground arith

  abbrev Late : ℕ → Reply × S → Type 0
  Late end o = (o.0.is_blocked ≡ true) × (k : ℕ) × (t.limit ≤ k) × (0 < k) × Running end k o.1

  late :
      (now end k : ℕ) (s : S)
      → Running end k s
      → now < end
      → 0 < k
      → t.limit ≤ k
      → Late end (increment r t now s)
  late now end k s running early pos le =
      elim (Option-cases (positive (r.pttl now t.block_key s))) [
        | inl free ↦ later (stopped now end k s running early pos le free)
        | inr (b, e) ↦ same (still_blocked now b s e)
      ]
    where
      later :
          ((increment r t now s).0.is_blocked ≡ true) × Running end (suc k) (increment r t now s).1
          → Late end (increment r t now s)
      later (b, q) = (b, suc k, omega arith, omega arith, q)

      same :
          ((increment r t now s).0.is_blocked ≡ true) × ((increment r t now s).1 ≡ s)
          → Late end (increment r t now s)
      same (b, q) = (b, k, le, pos, subst (λ x. Running end k x) (sym q) running)

  none_admitted :
      (end k : ℕ) (times : List ℕ) (s : S)
      → Running end k s
      → 0 < k
      → t.limit ≤ k
      → All (λ now. now < end) times
      → admitted (replies r t times s) ≡ 0
  unfolding replies
  none_admitted end k [] s running pos le early = refl
  none_admitted end k (now ∷ times) s running pos le (e, early) =
      let (blocked, k2, le2, pos2, running2) = late now end k s running e pos le in
      ground (arith, none_admitted end k2 times (increment r t now s).1 running2 pos2 le2 early)

  some_admitted :
      (end k : ℕ) (times : List ℕ) (s : S)
      → Running end k s
      → 0 < k
      → k ≤ t.limit
      → All (λ now. now < end) times
      → admitted (replies r t times s) ≡ min (t.limit - k) (length times)
  unfolding replies
  some_admitted end k [] s running pos le early = omega arith
  some_admitted end k (now ∷ times) s running pos le (e, early) =
      elim (Bool-cases (ltb k t.limit)) [
        | inl lt ↦
            let (open_now, next) = below now end k s running e pos (ground arith) in
            ground (
              arith,
              some_admitted end (suc k) times (increment r t now s).1 next (omega arith)
                  (ground arith) early,
            )
        | inr full ↦
            let (blocked, k2, le2, pos2, next) = late now end k s running e pos (ground arith) in
            ground (arith, none_admitted end k2 times (increment r t now s).1 next pos2 le2 early)
      ]

  -- The first hit of a window.
  opening :
      (now : ℕ) (s : S)
      → 0 < t.ttl
      → r.slot s t.counter_key ≡ none
      → r.slot s t.block_key ≡ none
      → ((increment r t now s).0.is_blocked ≡ ltb t.limit 1)
        × Running (now + t.ttl) 1 (increment r t now s).1
  opening now s long fresh free =
      subst (λ o. (o.0.is_blocked ≡ ltb t.limit 1) × Running (now + t.ttl) 1 o.1) (sym judged)
        (elim (Bool-cases (ltb t.limit 1)) [
          | inl full ↦
              let (blocked, stored) =
                judge_stop now 1 (now + t.ttl - now) next left (ground arith) in
              (
                blocked ∙ sym full,
                subst (λ q. Running (now + t.ttl) 1 q) (sym stored)
                    (
                      law.psetex_other now t.block_key t.block_duration t.counter_key next
                            (λ e. apart (sym e))
                          ∙ counter,
                      λ low. absurd (ground arith),
                    ),
              )
          | inr room ↦
              subst (λ o. (o.0.is_blocked ≡ ltb t.limit 1) × Running (now + t.ttl) 1 o.1)
                (sym (judge_pass now 1 (now + t.ttl - now) next left (ground arith)))
                (sym room, (counter, λ low. block))
        ])
    where
      counted : S
      counted = (r.incr now t.counter_key s).1

      next : S
      next = r.pexpire now t.counter_key t.ttl counted

      hit : count_hit r t now s ≡ (1, next)
      hit = ground (arith, law.incr_value now t.counter_key s)

      one_hit :
          (e : Option ℕ) × (r.slot counted t.counter_key ≡ some (record { count = 1; expires = e }))
      one_hit = (none, ground (arith, law.incr_slot now t.counter_key s))

      counter :
          r.slot next t.counter_key ≡ some (record { count = 1; expires = some (now + t.ttl) })
      counter =
          law.pexpire_slot now t.counter_key t.ttl counted
            (record { count = 1; expires = one_hit.0 }) one_hit.1

      block : r.slot next t.block_key ≡ none
      block =
          law.pexpire_other now t.counter_key t.ttl t.block_key counted apart
          ∙ law.incr_other now t.counter_key t.block_key s apart
          ∙ free

      left : r.pttl now t.counter_key next ≡ some (now + t.ttl - now)
      left = pttl_live now (now + t.ttl) 1 next counter (omega arith)

      judged : increment r t now s ≡ judge r t now 1 next
      judged = increment_open now s (not_blocked now s free) ∙ ap (λ h. judge r t now h.0 h.1) hit

  -- Let Redis keep its documentation, and the two keys of a caller be different and unused. Of any
  -- requests of that caller within one window, from the first one's time on, exactly as many are
  -- let through as the limit allows: all of them if they are no more, and else `limit` of them.
  pub replies-admitted :
      (first : ℕ) (times : List ℕ) (s : S)
      → 0 < t.ttl
      → r.slot s t.counter_key ≡ none
      → r.slot s t.block_key ≡ none
      → All (λ now. now < first + t.ttl) times
      → admitted (replies r t (first ∷ times) s) ≡ min t.limit (suc (length times))
  unfolding replies
  replies-admitted first times s long fresh free early =
      let (verdict, running) = opening first s long fresh free in
      elim (Bool-cases (ltb t.limit 1)) [
        | inl zero_limit ↦ ground (
          arith,
          none_admitted (first + t.ttl) 1 times (increment r t first s).1 running (omega arith)
              (ground arith) early,
        )
        | inr positive ↦ ground (
          arith,
          some_admitted (first + t.ttl) 1 times (increment r t first s).1 running (omega arith)
              (ground arith) early,
        )
      ]
