-- ===== src/Prelude/Distinct.antt =====
-- Lists of identifiers without repetitions, and counting by them.
use Prim.Native.Nat.{ℕ, ◌+◌}
use mathlib.Core.Path.{◌∙◌, ◌≡◌, refl, sym}
use mathlib.Core.Bool.{◌&&◌, Bool, true, false, not}
use mathlib.Core.List.{List, [], ◌∷◌, map}
use native.Mathlib.Omega.{arith}
use crm_system_backend.Prelude.Tests.{◌==◌, if◌then◌else◌}
use crm_system_backend.Prelude.Tables.{any, keep_if, length}

abbrev pub includes : List ℕ → ℕ → Bool
includes xs x = any (λ y. y == x) xs

abbrev pub without : ℕ → List ℕ → List ℕ
without u us = keep_if (λ v. not (v == u)) us

-- `[...new Set(xs)]`: in the order of the first occurrences.
abbrev pub dedupe : List ℕ → List ℕ
dedupe [] = []
dedupe (u ∷ us) = u ∷ without u (dedupe us)

abbrev pub once : Bool → ℕ
once true = 1
once false = 0

abbrev pub times : ℕ → List ℕ → ℕ
times u us = length (keep_if (λ v. v == u) us)

times-without :
    (u v : ℕ) (us : List ℕ) → times u (without v us) ≡ (if v == u then 0 else times u us)
times-without u v [] = ground arith
times-without u v (w ∷ us) = ground (arith, times-without u v us)

pub times-dedupe : (u : ℕ) (us : List ℕ) → times u (dedupe us) ≡ once (includes us u)
times-dedupe u [] = refl
times-dedupe u (v ∷ us) = ground (arith, times-dedupe u us, times-without u v (dedupe us))

pub sum : List ℕ → ℕ
sum [] = 0
sum (n ∷ ns) = n + sum ns

-- The rows of one key.
module _ {ℓ} {A : Type ℓ} (key : A → ℕ) where
  abbrev pub count_of : List A → ℕ → ℕ
  count_of xs k = length (keep_if (λ x. key x == k) xs)

  sum_nil : (ks : List ℕ) → sum (map (count_of []) ks) ≡ 0
  unfolding sum
  sum_nil [] = refl
  sum_nil (k ∷ ks) = omega (arith, sum_nil ks)

  sum-cons :
      (x : A) (xs : List A) (ks : List ℕ)
      → sum (map (count_of (x ∷ xs)) ks) ≡ times (key x) ks + sum (map (count_of xs) ks)
  unfolding sum
  sum-cons x xs [] = refl
  sum-cons x xs (k ∷ ks) = ground (arith, sum-cons x xs ks)

  -- Counting group by group counts every row once, if each row's key is among the keys.
  pub sum-count_of :
      (xs : List A) (ks : List ℕ)
      → any (λ x. not (includes ks (key x))) xs ≡ false
      → sum (map (count_of xs) (dedupe ks)) ≡ length xs
  sum-count_of [] ks h = sum_nil (dedupe ks)
  sum-count_of (x ∷ xs) ks h =
      ground (arith, sum-cons x xs (dedupe ks), times-dedupe (key x) ks, sum-count_of xs ks)

any-without : (p : ℕ → Bool) (u : ℕ) (us : List ℕ) → any p us ≡ false → any p (without u us) ≡ false
any-without p u [] h = refl
any-without p u (v ∷ us) h = ground (arith, any-without p u us)

any-dedupe : (p : ℕ → Bool) (us : List ℕ) → any p us ≡ false → any p (dedupe us) ≡ false
any-dedupe p [] h = refl
any-dedupe p (u ∷ us) h = ground (arith, any-dedupe p us, any-without p u (dedupe us))

includes-without :
    (k u : ℕ) (us : List ℕ) → includes (without u us) k ≡ (includes us k && not (u == k))
includes-without k u [] = refl
includes-without k u (v ∷ us) = ground (arith, includes-without k u us)

pub includes-dedupe : (k : ℕ) (us : List ℕ) → includes (dedupe us) k ≡ includes us k
includes-dedupe k [] = refl
includes-dedupe k (u ∷ us) = ground (arith, includes-dedupe k us, includes-without k u (dedupe us))

sum-once :
    (p : ℕ → Bool) (count : ℕ → ℕ) (ks : List ℕ)
    → ((k : ℕ) → count k ≡ once (p k))
    → sum (map count ks) ≡ length (keep_if p ks)
unfolding sum
sum-once p count [] h = refl
sum-once p count (k ∷ ks) h = ground (arith, h k, sum-once p count ks h)

-- The keys among `ks` that occur in `xs`, counted, if all of `xs` are among `ks`.
pub length-keep_dedupe :
    (xs ks : List ℕ)
    → any (λ x. not (includes ks x)) xs ≡ false
    → length (keep_if (includes xs) (dedupe ks)) ≡ length (dedupe xs)
length-keep_dedupe xs ks h =
    sym
      (sum-once (includes xs) (count_of (λ x. x) (dedupe xs)) (dedupe ks) (λ k. times-dedupe k xs))
    ∙ sum-count_of (λ x. x) (dedupe xs) ks (any-dedupe _ xs h)
