-- ===== src/Prelude/Keys.antt =====
-- Tables whose rows have different keys, and what a write to one does to the search for another.
use mathlib.Core.Path.{◌≡◌, refl}
use mathlib.Core.Bool.{Bool, true}
use mathlib.Core.Option.{none, some}
use mathlib.Core.List.{List, [], ◌∷◌, ◌++◌}
use Prim.Native.Nat.{ℕ}
use native.Mathlib.Omega.{arith}
use crm_system_backend.Prelude.Tests.{is_some}
use crm_system_backend.Prelude.Tables.{find, update, erase, keep_if}

module _ {ℓ} {A : Type ℓ} (key : A → ℕ) where
  abbrev pub Unique : List A → Type ℓ
  Unique [] = Unit
  Unique (x ∷ xs) = (find key (key x) xs ≡ none) × Unique xs

  pub find-append_none :
      (k : ℕ) (xs ys : List A) → find key k xs ≡ none → find key k (xs ++ ys) ≡ find key k ys
  find-append_none k [] ys h = refl
  find-append_none k (x ∷ xs) ys h = ground (arith, find-append_none k xs ys)

  pub find-update-none :
      (j k : ℕ) (f : A → A) (xs : List A)
      → ((x : A) → key (f x) ≡ key x)
      → find key j xs ≡ none
      → find key j (update key k f xs) ≡ none
  find-update-none j k f [] same h = refl
  find-update-none j k f (x ∷ xs) same h = ground (arith, same x, find-update-none j k f xs same)

  pub find-erase-none :
      (j k : ℕ) (xs : List A) → find key j xs ≡ none → find key j (erase key k xs) ≡ none
  find-erase-none j k [] h = refl
  find-erase-none j k (x ∷ xs) h = ground (arith, find-erase-none j k xs)

  pub find-keep_if-none :
      (j : ℕ) (p : A → Bool) (xs : List A) → find key j xs ≡ none → find key j (keep_if p xs) ≡ none
  find-keep_if-none j p [] h = refl
  find-keep_if-none j p (x ∷ xs) h = ground (arith, find-keep_if-none j p xs)

  pub is_some-find-update :
      (j k : ℕ) (f : A → A) (xs : List A)
      → ((x : A) → key (f x) ≡ key x)
      → is_some (find key j (update key k f xs)) ≡ is_some (find key j xs)
  is_some-find-update j k f [] same = refl
  is_some-find-update j k f (x ∷ xs) same =
      ground (arith, same x, is_some-find-update j k f xs same)

  pub find-erase_self : (k : ℕ) (xs : List A) → Unique xs → find key k (erase key k xs) ≡ none
  find-erase_self k [] u = refl
  find-erase_self k (x ∷ xs) u =
      ground (arith, u.0, u.1, find-erase_self k xs u.1, find-at k (key x) xs u.0)
    where
      find-at : (j k : ℕ) (ys : List A) → find key k ys ≡ none → k ≡ j → find key j ys ≡ none
      find-at j k ys h e = cc

  pub append-Unique :
      (xs : List A) (x : A) → Unique xs → find key (key x) xs ≡ none → Unique (xs ++ x ∷ [])
  append-Unique [] x u h = (refl, tt)
  append-Unique (y ∷ xs) x u h =
      ground (arith, append-Unique xs x u.1, find-append_none (key y) xs (x ∷ []), u.0)

  pub update-Unique :
      (k : ℕ) (f : A → A) (xs : List A)
      → ((x : A) → key (f x) ≡ key x)
      → Unique xs
      → Unique (update key k f xs)
  update-Unique k f [] same u = tt
  update-Unique k f (x ∷ xs) same u =
      ground (
        arith,
        same x,
        u.0,
        u.1,
        update-Unique k f xs same u.1,
        find-update-none (key x) k f xs same,
      )

  pub erase-Unique : (k : ℕ) (xs : List A) → Unique xs → Unique (erase key k xs)
  erase-Unique k [] u = tt
  erase-Unique k (x ∷ xs) u =
      ground (arith, u.0, u.1, erase-Unique k xs u.1, find-erase-none (key x) k xs)

  pub keep_if-Unique : (p : A → Bool) (xs : List A) → Unique xs → Unique (keep_if p xs)
  keep_if-Unique p [] u = tt
  keep_if-Unique p (x ∷ xs) u =
      ground (arith, u.0, u.1, keep_if-Unique p xs u.1, find-keep_if-none (key x) p xs)

-- Rows that are found by one key and changed by another.
module _ {ℓ} {A : Type ℓ} (key other : A → ℕ) where
  find-find_other :
      (k : ℕ) (xs : List A) (x : A)
      → find other k xs ≡ some x
      → is_some (find key (key x) xs) ≡ true
  find-find_other k [] x h = cc
  find-find_other k (y ∷ xs) x h = ground (arith, find-find_other k xs x)

  pub find-update_other :
      (k : ℕ) (f : A → A) (xs : List A) (x : A)
      → ((y : A) → other (f y) ≡ other y)
      → Unique key xs
      → find other k xs ≡ some x
      → find other k (update key (key x) f xs) ≡ some (f x)
  find-update_other k f [] x same u h = cc
  find-update_other k f (y ∷ xs) x same u h =
      ground (arith, same y, u.0, u.1, find-find_other k xs x, find-update_other k f xs x same u.1)

  pub find-find_key :
      (k : ℕ) (xs : List A) (x : A)
      → Unique key xs
      → find other k xs ≡ some x
      → find key (key x) xs ≡ some x
  find-find_key k [] x u h = cc
  find-find_key k (y ∷ xs) x u h =
      ground (arith, u.0, u.1, find-find_other k xs x, find-find_key k xs x u.1)
