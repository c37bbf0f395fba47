-- ===== src/Prelude/Sort.antt =====
-- `orderBy` and `Array.sort` by a time, newest first. Equal times keep their order.
use Prim.Native.Nat.{ℕ, suc, ◌≤◌}
use mathlib.Core.Path.{◌≡◌, refl, ap, ◌∙◌}
use mathlib.Core.Bool.{Bool}
use mathlib.Core.List.{List, [], ◌∷◌}
use native.Mathlib.Omega.{arith}
use crm_system_backend.Prelude.Tests.{leb, if◌then◌else◌}
use crm_system_backend.Prelude.Tables.{All, keep_if, length}

module _ {ℓ} {A : Type ℓ} (time : A → ℕ) where
  abbrev pub insert_newest : A → List A → List A
  insert_newest x [] = x ∷ []
  insert_newest x (y ∷ ys) = if leb (time y) (time x) then x ∷ y ∷ ys else y ∷ insert_newest x ys

  abbrev pub newest_first : List A → List A
  newest_first [] = []
  newest_first (x ∷ xs) = insert_newest x (newest_first xs)

  -- No row is newer than the ones before it.
  abbrev pub Newest : List A → Type 0
  Newest [] = Unit
  Newest (x ∷ xs) = All (λ y. time y ≤ time x) xs × Newest xs

  insert-All {κ} :
      (P : A → Type κ) (x : A) (ys : List A) → P x → All P ys → All P (insert_newest x ys)
  insert-All P x [] p h = (p, tt)
  insert-All P x (y ∷ ys) p h = ground (arith, insert-All P x ys p h.1, h.0, h.1, p)

  pub newest_first-All {κ} : (P : A → Type κ) (xs : List A) → All P xs → All P (newest_first xs)
  newest_first-All P [] h = tt
  newest_first-All P (x ∷ xs) h = insert-All P x (newest_first xs) h.0 (newest_first-All P xs h.1)

  older : (a b : ℕ) (ys : List A) → a ≤ b → All (λ y. time y ≤ a) ys → All (λ y. time y ≤ b) ys
  older a b [] le h = tt
  older a b (y ∷ ys) le h = (omega (arith, h.0), older a b ys le h.1)

  insert-Newest : (x : A) (ys : List A) → Newest ys → Newest (insert_newest x ys)
  insert-Newest x [] h = (tt, tt)
  insert-Newest x (y ∷ ys) h = ground (
    arith,
    h.0,
    h.1,
    insert-Newest x ys h.1,
    older (time y) (time x) ys,
    insert-All (λ z. time z ≤ time y) x ys,
  )

  pub newest_first-Newest : (xs : List A) → Newest (newest_first xs)
  newest_first-Newest [] = tt
  newest_first-Newest (x ∷ xs) = insert-Newest x (newest_first xs) (newest_first-Newest xs)

  insert_head : (x : A) (ys : List A) → All (λ y. time y ≤ time x) ys → insert_newest x ys ≡ x ∷ ys
  insert_head x [] h = refl
  insert_head x (y ∷ ys) h = ground (arith, h.0)

  -- A sorted list is left alone.
  pub newest_first-Newest-eq : (xs : List A) → Newest xs → newest_first xs ≡ xs
  newest_first-Newest-eq [] h = refl
  newest_first-Newest-eq (x ∷ xs) h =
      ap (insert_newest x) (newest_first-Newest-eq xs h.1) ∙ insert_head x xs h.0

  pub keep_if-All {κ} :
      (P : A → Type κ) (p : A → Bool) (xs : List A) → All P xs → All P (keep_if p xs)
  keep_if-All P p [] h = tt
  keep_if-All P p (x ∷ xs) h = ground (arith, h.0, h.1, keep_if-All P p xs h.1)

  pub keep_if-Newest : (p : A → Bool) (xs : List A) → Newest xs → Newest (keep_if p xs)
  keep_if-Newest p [] h = tt
  keep_if-Newest p (x ∷ xs) h =
      ground (arith, h.0, h.1, keep_if-Newest p xs h.1, keep_if-All (λ y. time y ≤ time x) p xs)

  length-insert_newest : (x : A) (ys : List A) → length (insert_newest x ys) ≡ suc (length ys)
  length-insert_newest x [] = refl
  length-insert_newest x (y ∷ ys) = ground (arith, length-insert_newest x ys)

  pub length-newest_first : (xs : List A) → length (newest_first xs) ≡ length xs
  length-newest_first [] = refl
  length-newest_first (x ∷ xs) =
      length-insert_newest x (newest_first xs) ∙ ap suc (length-newest_first xs)
