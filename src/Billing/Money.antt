-- ===== src/Billing/Money.antt =====
-- The arithmetic of money in orders.service.ts and payments.service.ts.
-- A JavaScript number that stands for money is an integer of 1/100000, the product of a price in
-- hundredths (`Decimal(12, 2)`) and a quantity in thousandths (`Decimal(12, 3)`); a column holds
-- hundredths. A double holds such a number with an error; where that can change what `round2`
-- returns, `round2` is a parameter of the model, `round` (`Nearest`).
use crm_system_backend.Prelude.{ℕ, zero, suc, ◌+◌, ◌*◌, ◌/◌, ◌%◌, ◌≤◌, ◌<◌, ◌≡◌, refl, arith}
use crm_system_backend.Prelude.Int.{ℤ, pos, negsuc, pos_part, neg_part}

-- `Number(decimal)`.
abbrev pub number : ℕ → ℕ
number cents = cents * 1000

abbrev pub neg : ℕ → ℤ
neg zero = pos 0
neg (suc n) = negsuc n

-- `Math.round((value + Number.EPSILON) * 100) / 100`. `Math.round` rounds half up, so -0.5 goes
-- to 0 (JavaScript's -0, which compares as 0).
unfoldable pub round2 : ℤ → ℤ
round2 (pos n) = pos (number ((n + 500) / 1000))
round2 (negsuc n) = neg (number ((n + 500) / 1000))

-- What `round2` returns for a double that stands for `x`, up to the error of the double: a whole
-- number of hundredths, at most half a hundredth away. The double of a value that lies exactly
-- between two hundredths may be on either side, so either may come out. (The error has to be
-- less than 1/200000, as it is below a billion.)
pub record Nearest (round : ℤ → ℤ) : Type 0 where
  pub above : (x : ℤ) → pos_part (round x) ≤ pos_part x + 500
  pub below : (x : ℤ) → pos_part x ≤ pos_part (round x) + 500
  pub owed_above : (x : ℤ) → neg_part (round x) ≤ neg_part x + 500
  pub owed_below : (x : ℤ) → neg_part x ≤ neg_part (round x) + 500
  pub whole : (x : ℤ) → pos_part (round x) % 1000 ≡ 0
  pub owed_whole : (x : ℤ) → neg_part (round x) % 1000 ≡ 0

-- What PostgreSQL's `numeric(12, 2)` documents of a value that is written to it: it is rounded
-- to the nearest hundredth, ties away from zero.
pub record Rounds (column : ℕ → ℕ) : Type 0 where
  pub lower : (n : ℕ) → n < number (column n) + 500
  pub upper : (n : ℕ) → number (column n) ≤ n + 500

-- A whole number of hundredths is left alone.
pub round2-number : (c : ℕ) → round2 (pos (number c)) ≡ pos (number c)
unfolding round2
round2-number c = ground arith

neg_nonneg : (n : ℕ) → pos_part (neg n) ≡ 0
neg_nonneg zero = refl
neg_nonneg (suc n) = refl

neg-neg : (n : ℕ) → neg_part (neg n) ≡ n
neg-neg zero = refl
neg-neg (suc n) = refl

pub round2-Nearest : Nearest round2
unfolding round2
round2-Nearest = record {
  above = above;
  below = below;
  owed_above = owed_above;
  owed_below = owed_below;
  whole = whole;
  owed_whole = owed_whole;
}
  where
    above : (x : ℤ) → pos_part (round2 x) ≤ pos_part x + 500
    above (pos n) = omega arith
    above (negsuc n) = omega (arith, neg_nonneg (number ((n + 500) / 1000)))

    below : (x : ℤ) → pos_part x ≤ pos_part (round2 x) + 500
    below (pos n) = omega arith
    below (negsuc n) = omega arith

    owed_above : (x : ℤ) → neg_part (round2 x) ≤ neg_part x + 500
    owed_above (pos n) = omega arith
    owed_above (negsuc n) = omega (arith, neg-neg (number ((n + 500) / 1000)))

    owed_below : (x : ℤ) → neg_part x ≤ neg_part (round2 x) + 500
    owed_below (pos n) = omega arith
    owed_below (negsuc n) = omega (arith, neg-neg (number ((n + 500) / 1000)))

    whole : (x : ℤ) → pos_part (round2 x) % 1000 ≡ 0
    whole (pos n) = omega arith
    whole (negsuc n) = rw neg_nonneg refl

    owed_whole : (x : ℤ) → neg_part (round2 x) % 1000 ≡ 0
    owed_whole (pos n) = refl
    owed_whole (negsuc n) = rw neg-neg (omega arith)
