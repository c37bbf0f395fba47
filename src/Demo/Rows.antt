-- ===== src/Demo/Rows.antt =====
-- Rows that are searched first and deleted by their ids afterwards.
use crm_system_backend.Prelude.{
  ℕ, ◌≡◌, refl, sym, ap, Bool, true, false, not, ◌&&◌, ◌||◌, List, [], ◌∷◌, map, arith, keep_if,
  length, any, includes,
}
use crm_system_backend.Demo.{ids_of, delete_if_any}

module _ {ℓ} {A : Type ℓ} where
  any_weaken :
      (a b c : A → Bool) (xs : List A)
      → ((x : A) → a x ≡ true → b x ≡ true)
      → any (λ x. b x && c x) xs ≡ false
      → any (λ x. a x && c x) xs ≡ false
  any_weaken a b c [] h e = refl
  any_weaken a b c (x ∷ xs) h e = ground (arith, h x, e, any_weaken a b c xs h)

  pub any_less :
      (a b : A → Bool) (xs : List A)
      → ((x : A) → a x ≡ true → b x ≡ true)
      → any b xs ≡ false
      → any a xs ≡ false
  any_less a b [] h e = refl
  any_less a b (x ∷ xs) h e = ground (arith, h x, e, any_less a b xs h)

  pub any-keep_if :
      (a p : A → Bool) (xs : List A)
      → any a (keep_if (λ x. not (p x)) xs) ≡ any (λ x. a x && not (p x)) xs
  any-keep_if a p [] = refl
  any-keep_if a p (x ∷ xs) = ground (arith, any-keep_if a p xs)

  pub length-keep_if-any :
      (a : A → Bool) (xs : List A) → any a xs ≡ false → length (keep_if a xs) ≡ 0
  length-keep_if-any a [] e = refl
  length-keep_if-any a (x ∷ xs) e = ground (arith, e, length-keep_if-any a xs)

  pub length-keep_if-false :
      (a : A → Bool) (xs : List A) → ((x : A) → a x ≡ false) → length (keep_if a xs) ≡ 0
  length-keep_if-false a [] h = refl
  length-keep_if-false a (x ∷ xs) h = ground (arith, h x, length-keep_if-false a xs h)

  keep_all : (xs : List A) → keep_if (λ x. true) xs ≡ xs
  keep_all [] = refl
  keep_all (x ∷ xs) = ap (λ ys. x ∷ ys) (keep_all xs)

  -- The guard of a deletion only saves the call.
  pub delete_if_any_lem :
      (ids : List ℕ) (f : A → ℕ) (xs : List A)
      → delete_if_any ids (λ x. includes ids (f x)) xs ≡ keep_if (λ x. not (includes ids (f x))) xs
  delete_if_any_lem [] f xs = sym (keep_all xs)
  delete_if_any_lem (k ∷ ks) f xs = refl

  pub delete_if_any_lem2 :
      (ids : List ℕ) (f g : A → ℕ) (xs : List A)
      → delete_if_any ids (λ x. includes ids (f x) || includes ids (g x)) xs
        ≡ keep_if (λ x. not (includes ids (f x) || includes ids (g x))) xs
  delete_if_any_lem2 [] f g xs = sym (keep_all xs)
  delete_if_any_lem2 (k ∷ ks) f g xs = refl

  module _ (key : A → ℕ) where
    pub ids_of_nothing :
        (p : A → Bool) (xs : List A) → ((x : A) → p x ≡ false) → ids_of key p xs ≡ []
    ids_of_nothing p [] h = refl
    ids_of_nothing p (x ∷ xs) h = ground (arith, h x, ids_of_nothing p xs h)

    more_ids :
        (q : A → Bool) (k : ℕ) (ids : List ℕ) (xs : List A)
        → any (λ x. q x && not (includes ids (key x))) xs ≡ false
        → any (λ x. q x && not (includes (k ∷ ids) (key x))) xs ≡ false
    more_ids q k ids [] e = refl
    more_ids q k ids (x ∷ xs) e = ground (arith, e, more_ids q k ids xs)

    -- A row that the search is for is among the ids.
    pub ids_of-all :
        (q : A → Bool) (xs : List A)
        → any (λ x. q x && not (includes (ids_of key q xs) (key x))) xs ≡ false
    ids_of-all q [] = refl
    ids_of-all q (x ∷ xs) =
        ground (arith, ids_of-all q xs, more_ids q (key x) (ids_of key q xs) xs (ids_of-all q xs))

    pub found_deleted :
        (a q : A → Bool) (xs : List A)
        → ((x : A) → a x ≡ true → q x ≡ true)
        → any (λ x. a x && not (includes (ids_of key q xs) (key x))) xs ≡ false
    found_deleted a q xs h =
        any_weaken a q (λ x. not (includes (ids_of key q xs) (key x))) xs h (ids_of-all q xs)

    pub includes-deleted :
        (del : List ℕ) (k : ℕ) (xs : List A)
        → includes (map key (keep_if (λ x. not (includes del (key x))) xs)) k
          ≡ (includes (map key xs) k && not (includes del k))
    includes-deleted del k [] = refl
    includes-deleted del k (x ∷ xs) = ground (arith, includes-deleted del k xs)
