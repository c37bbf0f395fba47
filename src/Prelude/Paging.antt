-- ===== src/Prelude/Paging.antt =====
-- `skip` and `take` of a query, and the pages of a list.
use Prim.Native.Nat.{ℕ, zero, suc, ◌+◌, ◌*◌, ◌-◌, ◌≤◌, ◌<◌, ◌/◌}
use mathlib.Core.Path.{◌≡◌, refl, sym, ap, ◌∙◌}
use mathlib.Core.List.{List, [], ◌∷◌, ◌++◌}
use native.Mathlib.Omega.{arith}
use crm_system_backend.Prelude.Tables.{length}

module _ {ℓ} {A : Type ℓ} where
  abbrev pub take : ℕ → List A → List A
  take zero xs = []
  take (suc n) [] = []
  take (suc n) (x ∷ xs) = x ∷ take n xs

  abbrev pub drop : ℕ → List A → List A
  drop zero xs = xs
  drop (suc n) [] = []
  drop (suc n) (x ∷ xs) = drop n xs

  -- `Array.reverse`.
  abbrev pub reverse : List A → List A
  reverse [] = []
  reverse (x ∷ xs) = reverse xs ++ x ∷ []

  -- Pages `p`, `p + 1`, ..., `n` of them.
  abbrev pub pages : ℕ → ℕ → ℕ → List A → List A
  pages zero p limit xs = []
  pages (suc n) p limit xs = take limit (drop (p * limit) xs) ++ pages n (p + 1) limit xs

  pub take-drop : (n : ℕ) (xs : List A) → take n xs ++ drop n xs ≡ xs
  take-drop zero xs = refl
  take-drop (suc n) [] = refl
  take-drop (suc n) (x ∷ xs) = ap (λ ys. x ∷ ys) (take-drop n xs)

  drop_nil : (k : ℕ) → drop k [] ≡ []
  drop_nil zero = refl
  drop_nil (suc k) = refl

  take_nil : (k : ℕ) → take k [] ≡ []
  take_nil zero = refl
  take_nil (suc k) = refl

  drop-drop : (m n k : ℕ) (xs : List A) → n + m ≡ k → drop m (drop n xs) ≡ drop k xs
  drop-drop m zero k xs e = ap (λ j. drop j xs) (omega arith)
  drop-drop m (suc n) zero xs e = absurd (omega arith)
  drop-drop m (suc n) (suc k) [] e = drop_nil m
  drop-drop m (suc n) (suc k) (x ∷ xs) e = drop-drop m n k xs (omega arith)

  take-append_drop :
      (m n k : ℕ) (xs : List A) → n + m ≡ k → take n xs ++ take m (drop n xs) ≡ take k xs
  take-append_drop m zero k xs e = ap (λ j. take j xs) (omega arith)
  take-append_drop m (suc n) zero xs e = absurd (omega arith)
  take-append_drop m (suc n) (suc k) [] e = take_nil m
  take-append_drop m (suc n) (suc k) (x ∷ xs) e =
      ap (λ ys. x ∷ ys) (take-append_drop m n k xs (omega arith))

  take_all : (k : ℕ) (xs : List A) → length xs ≤ k → take k xs ≡ xs
  take_all zero [] h = refl
  take_all zero (x ∷ xs) h = absurd (omega arith)
  take_all (suc k) [] h = refl
  take_all (suc k) (x ∷ xs) h = ap (λ ys. x ∷ ys) (take_all k xs (omega arith))

  pages-take :
      (n p limit : ℕ) (xs : List A) → pages n p limit xs ≡ take (n * limit) (drop (p * limit) xs)
  pages-take zero p limit xs =
      let nothing : 0 ≡ 0 * limit = omega arith in ap (λ j. take j (drop (p * limit) xs)) nothing
  pages-take (suc n) p limit xs =
      ap (λ ys. take limit (drop (p * limit) xs) ++ ys)
        (pages-take n (p + 1) limit xs
          ∙ ap (take (n * limit))
              (sym (drop-drop limit (p * limit) ((p + 1) * limit) xs (grind arith))))
      ∙ take-append_drop (n * limit) limit (suc n * limit) (drop (p * limit) xs) (grind arith)

  -- Enough pages hold the whole list, in order.
  pub pages_all : (n limit : ℕ) (xs : List A) → length xs ≤ n * limit → pages n 0 limit xs ≡ xs
  pages_all n limit xs h =
      let nothing : 0 * limit ≡ 0 = omega arith in
      pages-take n 0 limit xs
      ∙ ap (λ j. take (n * limit) (drop j xs)) nothing
      ∙ take_all (n * limit) xs h

  pub length-take-le : (n : ℕ) (xs : List A) → length (take n xs) ≤ n
  length-take-le zero xs = omega arith
  length-take-le (suc n) [] = omega arith
  length-take-le (suc n) (x ∷ xs) = omega (arith, length-take-le n xs)

-- `Math.ceil(total / limit)`.
abbrev pub page_count : ℕ → ℕ → ℕ
page_count total limit = (total + (limit - 1)) / limit

pub page_count-mul-le : (total limit : ℕ) → 0 < limit → total ≤ page_count total limit * limit
page_count-mul-le total limit pos = grind arith

-- What the reads of pages `p + 1`, `p + 2`, ..., `n` of them, give together.
module _ {ℓ} {A : Type ℓ} where
  abbrev pub collect : ℕ → ℕ → (ℕ → List A) → List A
  collect zero p read = []
  collect (suc n) p read = read (p + 1) ++ collect n (p + 1) read

  collect-pages :
      (n p limit : ℕ) (read : ℕ → List A) (xs : List A)
      → ((k : ℕ) → read (k + 1) ≡ take limit (drop (k * limit) xs))
      → collect n p read ≡ pages n p limit xs
  collect-pages zero p limit read xs h = refl
  collect-pages (suc n) p limit read xs h =
      ap (λ ys. ys ++ collect n (p + 1) read) (h p)
      ∙ ap (λ ys. take limit (drop (p * limit) xs) ++ ys) (collect-pages n (p + 1) limit read xs h)

  -- All announced pages together are the whole list.
  pub collect_all :
      (total limit : ℕ) (read : ℕ → List A) (xs : List A)
      → 0 < limit
      → length xs ≡ total
      → ((k : ℕ) → read (k + 1) ≡ take limit (drop (k * limit) xs))
      → collect (page_count total limit) 0 read ≡ xs
  collect_all total limit read xs pos size h =
      collect-pages (page_count total limit) 0 limit read xs h
      ∙ pages_all (page_count total limit) limit xs
          (omega (arith, page_count-mul-le total limit pos, size))
