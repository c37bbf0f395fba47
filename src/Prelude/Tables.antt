-- ===== src/Prelude/Tables.antt =====
-- Lists as database tables: rows with a unique number, in the order of insertion.
use Prim.Native.Nat.{ℕ, suc}
use mathlib.Core.Path.{◌≡◌, refl}
use mathlib.Core.Logic.{◌≢◌}
use mathlib.Core.Bool.{Bool, false, ◌||◌}
use mathlib.Core.Option.{Option, none, some}
use mathlib.Core.List.{List, [], ◌∷◌, ◌++◌}
use native.Mathlib.Omega.{arith}
use crm_system_backend.Prelude.Tests.{◌==◌, if◌then◌else◌}

module _ {ℓ} {A : Type ℓ} where
  abbrev pub length : List A → ℕ
  length [] = 0
  length (x ∷ xs) = suc (length xs)

  -- `Array.filter`.
  abbrev pub keep_if : (A → Bool) → List A → List A
  keep_if p [] = []
  keep_if p (x ∷ xs) = let rest = keep_if p xs in if p x then x ∷ rest else rest

  -- `Array.some`.
  abbrev pub any : (A → Bool) → List A → Bool
  any p [] = false
  any p (x ∷ xs) = p x || any p xs

  abbrev pub All {κ} : (A → Type κ) → List A → Type κ
  All P [] = Unit
  All P (x ∷ xs) = P x × All P xs

-- `key` gives the row's primary key.
module _ {ℓ} {A : Type ℓ} (key : A → ℕ) where
  -- `findUnique`.
  abbrev pub find : ℕ → List A → Option A
  find k [] = none
  find k (x ∷ xs) = if key x == k then some x else find k xs

  -- `update`: `change` is written to the row with that key.
  abbrev pub update : ℕ → (A → A) → List A → List A
  update k change [] = []
  update k change (x ∷ xs) = if key x == k then change x ∷ xs else x ∷ update k change xs

  -- `delete`.
  abbrev pub erase : ℕ → List A → List A
  erase k [] = []
  erase k (x ∷ xs) = if key x == k then xs else x ∷ erase k xs

  pub find-key : (k : ℕ) (xs : List A) (x : A) → find k xs ≡ some x → key x ≡ k
  find-key k [] x h = cc
  find-key k (y ∷ xs) x h = ground (arith, find-key k xs x)

  pub find-append_some :
      (k : ℕ) (xs ys : List A) (x : A) → find k xs ≡ some x → find k (xs ++ ys) ≡ some x
  find-append_some k [] ys x h = cc
  find-append_some k (y ∷ xs) ys x h = ground (arith, find-append_some k xs ys x)

  pub find-update_self :
      (k : ℕ) (f : A → A) (xs : List A) (x : A)
      → ((y : A) → key (f y) ≡ key y)
      → find k xs ≡ some x
      → find k (update k f xs) ≡ some (f x)
  find-update_self k f [] x same h = cc
  find-update_self k f (y ∷ xs) x same h = ground (arith, same y, find-update_self k f xs x same)

  pub find-update_ne :
      (j k : ℕ) (f : A → A) (xs : List A)
      → ((y : A) → key (f y) ≡ key y)
      → j ≢ k
      → find j (update k f xs) ≡ find j xs
  find-update_ne j k f [] same h = refl
  find-update_ne j k f (y ∷ xs) same h = ground (arith, same y, find-update_ne j k f xs same h)

  pub find-erase_ne : (j k : ℕ) (xs : List A) → j ≢ k → find j (erase k xs) ≡ find j xs
  find-erase_ne j k [] h = refl
  find-erase_ne j k (y ∷ xs) h = ground (arith, find-erase_ne j k xs h)

module _ {ℓ κ} {A : Type ℓ} (P : A → Type κ) where
  pub All-append : (xs ys : List A) → All P xs → All P ys → All P (xs ++ ys)
  All-append [] ys hx hy = hy
  All-append (x ∷ xs) ys hx hy = (hx.0, All-append xs ys hx.1 hy)

  pub find-All :
      (key : A → ℕ) (k : ℕ) (xs : List A) (x : A) → All P xs → find key k xs ≡ some x → P x
  find-All key k [] x all h = cc
  find-All key k (y ∷ xs) x all h = ground (arith, find-All key k xs x all.1, all.0)

  pub update-All :
      (key : A → ℕ) (k : ℕ) (f : A → A) (xs : List A)
      → All P xs
      → ((x : A) → key x ≡ k → P x → P (f x))
      → All P (update key k f xs)
  update-All key k f [] all step = tt
  update-All key k f (x ∷ xs) all step =
      ground (arith, step x, update-All key k f xs all.1 step, all.0, all.1)
