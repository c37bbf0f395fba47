-- ===== src/Prelude/Queues.antt =====
-- Lists as queues that give their messages in any order, and counting in them.
use Prim.Native.Nat.{ℕ, zero, suc, ◌+◌, ◌<◌}
use mathlib.Core.Path.{◌≡◌, refl}
use mathlib.Core.Logic.{inl, inr}
use mathlib.Core.Bool.{Bool}
use mathlib.Core.Option.{Option, none, some}
use mathlib.Core.List.{List, [], ◌∷◌, ◌++◌}
use native.Mathlib.Omega.{arith}
use crm_system_backend.Prelude.Tests.{if◌then◌else◌, Option-cases}
use crm_system_backend.Prelude.Tables.{keep_if, length}

-- The message at a place of a queue, and the others.
abbrev pub take_at {ℓ} : {A : Type ℓ} → ℕ → List A → Option (A × List A)
take_at k [] = none
take_at zero (x ∷ xs) = some (x, xs)
take_at (suc k) (x ∷ xs) = elim (take_at k xs) [ none ↦ none | some (y, rest) ↦ some (y, x ∷ rest) ]

module _ {ℓ} {A : Type ℓ} (p : A → Bool) where
  abbrev pub count_if : List A → ℕ
  count_if xs = length (keep_if p xs)

  pub count_if-append : (xs ys : List A) → count_if (xs ++ ys) ≡ count_if xs + count_if ys
  count_if-append [] ys = omega arith
  count_if-append (x ∷ xs) ys = ground (arith, count_if-append xs ys)

  pub count_if-take_at :
      (k : ℕ) (xs : List A) (x : A) (rest : List A)
      → take_at k xs ≡ some (x, rest)
      → count_if xs ≡ (if p x then 1 else 0) + count_if rest
  count_if-take_at k [] x rest e = cc
  count_if-take_at zero (y ∷ xs) x rest e = ground (arith, e)
  count_if-take_at (suc k) (y ∷ xs) x rest e = elim (Option-cases (take_at k xs)) [
    | inl none_left ↦ ground (arith, none_left, e)
    | inr ((z, more), found) ↦ ground (arith, found, e, count_if-take_at k xs z more found)
  ]

-- A message at a place within the queue can be taken, and leaves one message fewer.
pub take_at-length {ℓ} :
    {A : Type ℓ} (k : ℕ) (xs : List A)
    → k < length xs
    → (r : A × List A) × (take_at k xs ≡ some r) × (length xs ≡ suc (length r.1))
take_at-length k [] h = absurd (omega (arith, h))
take_at-length zero (x ∷ xs) h = ((x, xs), refl, refl)
take_at-length (suc k) (x ∷ xs) h =
    let (r, e, n) = take_at-length k xs (omega (arith, h)) in
    ((r.0, x ∷ r.1), rw e refl, omega (arith, n))

pub length-append {ℓ} : {A : Type ℓ} (xs ys : List A) → length (xs ++ ys) ≡ length xs + length ys
length-append [] ys = omega arith
length-append (x ∷ xs) ys = omega (arith, length-append xs ys)
