-- ===== src/Prelude/Reorder.antt =====
-- A list of rows with distinct times has one order by time: a database that returns the rows in
-- that order has no choice.
use Prim.Native.Nat.{ℕ}
use mathlib.Core.Logic.{◌≢◌}
use mathlib.Core.Path.{◌≡◌, refl, sym, ap, ◌∙◌, subst}
use mathlib.Core.Bool.{Bool, true, false}
use mathlib.Core.List.Permᴰ
use mathlib.Core.List.{List, [], ◌∷◌, Permᴰ}
use native.Mathlib.Omega.{arith}
use crm_system_backend.Prelude.Tests.{leb, if◌then◌else◌}
use crm_system_backend.Prelude.Tables.{All}
use crm_system_backend.Prelude.Sort.{
  insert_newest, newest_first, Newest, newest_first-Newest-eq, newest_first-Newest,
}

module _ {ℓ} {A : Type ℓ} (time : A → ℕ) where
  abbrev pub Distinct : List A → Type 0
  Distinct [] = Unit
  Distinct (x ∷ xs) = All (λ y. time y ≢ time x) xs × Distinct xs

  All-Permᴰ {κ} : (P : A → Type κ) {xs ys : List A} → Permᴰ xs ys → All P xs → All P ys
  All-Permᴰ P Permᴰ.nil h = tt
  All-Permᴰ P (Permᴰ.cons e p) h = (subst P e h.0, All-Permᴰ P p h.1)
  All-Permᴰ P (Permᴰ.swap e f) h = (subst P f h.1.0, (subst P e h.0, h.1.1))
  All-Permᴰ P (Permᴰ.trans p q) h = All-Permᴰ P q (All-Permᴰ P p h)

  Distinct-Permᴰ : {xs ys : List A} → Permᴰ xs ys → Distinct xs → Distinct ys
  Distinct-Permᴰ Permᴰ.nil h = tt
  Distinct-Permᴰ (Permᴰ.cons {a} {b} {l₁} {l₂} e p) h = (
    subst (λ c. All (λ y. time y ≢ time c) l₂) e (All-Permᴰ (λ y. time y ≢ time a) p h.0),
    Distinct-Permᴰ p h.1,
  )
  Distinct-Permᴰ (Permᴰ.swap {a} {b} {a'} {b'} {l} e f) h = (
    (
      λ k. h.0.0 (ap time f ∙ sym k ∙ ap time (sym e)),
      subst (λ x. All (λ y. time y ≢ time x) l) f h.1.0,
    ),
    (subst (λ x. All (λ y. time y ≢ time x) l) e h.0.1, h.1.1),
  )
  Distinct-Permᴰ (Permᴰ.trans p q) h = Distinct-Permᴰ q (Distinct-Permᴰ p h)

  insert_comm :
      (x y : A) (l : List A)
      → time y ≢ time x
      → insert_newest time x (insert_newest time y l)
        ≡ insert_newest time y (insert_newest time x l)
  insert_comm x y [] h = ground arith
  insert_comm x y (z ∷ l) h = ground (arith, insert_comm x y l h)

  newest_first-Permᴰ :
      {xs ys : List A} → Permᴰ xs ys → Distinct xs → newest_first time xs ≡ newest_first time ys
  newest_first-Permᴰ Permᴰ.nil h = refl
  newest_first-Permᴰ (Permᴰ.cons {a} {b} {l₁} {l₂} e p) h =
      ap (insert_newest time a) (newest_first-Permᴰ p h.1)
      ∙ ap (λ c. insert_newest time c (newest_first time l₂)) e
  newest_first-Permᴰ (Permᴰ.swap {a} {b} {a'} {b'} {l} e f) h =
      insert_comm a b (newest_first time l) h.0.0
      ∙ ap (λ x. insert_newest time x (insert_newest time a (newest_first time l))) f
      ∙ ap (λ x. insert_newest time a' (insert_newest time x (newest_first time l))) e
  newest_first-Permᴰ (Permᴰ.trans p q) h =
      newest_first-Permᴰ p h ∙ newest_first-Permᴰ q (Distinct-Permᴰ p h)

  -- What a database documents of `ORDER BY time DESC`: it returns the rows, and no row is newer
  -- than the ones before it. Nothing is said about equal times.
  pub record IsOrderBy (order_by : List A → List A) : Type ℓ where
    pub same_rows : (xs : List A) → Permᴰ xs (order_by xs)
    pub ordered : (xs : List A) → Newest time (order_by xs)

  pub order_by-Distinct :
      (order_by : List A → List A) (xs : List A)
      → IsOrderBy order_by
      → Distinct xs
      → order_by xs ≡ newest_first time xs
  order_by-Distinct order_by xs law h =
      sym (newest_first-Newest-eq time (order_by xs) (law.ordered xs))
      ∙ sym (newest_first-Permᴰ (law.same_rows xs) h)

  insert-Permᴰ : (x : A) (ys : List A) → Permᴰ (x ∷ ys) (insert_newest time x ys)
  insert-Permᴰ x [] = Permᴰ.refl (x ∷ [])
  insert-Permᴰ x (y ∷ ys) = branch (leb (time y) (time x)) (insert-Permᴰ x ys)
    where
      branch :
          (b : Bool)
          → Permᴰ (x ∷ ys) (insert_newest time x ys)
          → Permᴰ (x ∷ y ∷ ys) (if b then x ∷ y ∷ ys else y ∷ insert_newest time x ys)
      branch true p = Permᴰ.refl (x ∷ y ∷ ys)
      branch false p = Permᴰ.trans (Permᴰ.swap refl refl) (Permᴰ.cons refl p)

  newest_first-same_rows : (xs : List A) → Permᴰ xs (newest_first time xs)
  newest_first-same_rows [] = Permᴰ.nil
  newest_first-same_rows (x ∷ xs) =
      Permᴰ.trans (Permᴰ.cons refl (newest_first-same_rows xs))
        (insert-Permᴰ x (newest_first time xs))

  pub newest_first-IsOrderBy : IsOrderBy (newest_first time)
  newest_first-IsOrderBy = record {
    same_rows = newest_first-same_rows;
    ordered = newest_first-Newest time;
  }
