-- ===== src/Prelude/Text.antt =====
-- Text as the list of its characters' codes (UTF-16 units), and what `String.trim` does to it.
pub mod Trimming
use Prim.Native.Nat.{ℕ, ◌+◌}
use mathlib.Core.Path.{◌≡◌, refl, sym, ap, ◌∙◌}
use mathlib.Core.Bool.{Bool, true, false, not, ◌&&◌, ◌||◌}
use mathlib.Core.List.{List, [], ◌∷◌, map}
use native.Mathlib.Omega.{arith}
use crm_system_backend.Prelude.Tests.{leb, ◌==◌, if◌then◌else◌}
use crm_system_backend.Prelude.Tables.{any}

abbrev pub Text : Type 0
Text = List ℕ

-- `String.trim` on the white space of ECMAScript.
abbrev pub is_space : ℕ → Bool
is_space c =
    (leb 9 c && leb c 13)
    || any (λ w. c == w) (32 ∷ 160 ∷ 5760 ∷ 8232 ∷ 8233 ∷ 8239 ∷ 8287 ∷ 12288 ∷ 65279 ∷ [])
    || (leb 8192 c && leb c 8202)

abbrev pub is_empty : Text → Bool
is_empty [] = true
is_empty (c ∷ cs) = false

pub trim_start : Text → Text
trim_start [] = []
trim_start (c ∷ cs) = if is_space c then trim_start cs else c ∷ cs

pub trim_end : Text → Text
trim_end [] = []
trim_end (c ∷ cs) = let rest = trim_end cs in if is_space c && is_empty rest then [] else c ∷ rest

unfoldable pub trim : Text → Text
unfolding trim_start trim_end
trim cs = trim_end (trim_start cs)

-- Trimmed twice is trimmed once.
abbrev starts_well : Text → Bool
starts_well [] = true
starts_well (c ∷ cs) = not (is_space c)

starts_well-trim_start : (cs : Text) → starts_well (trim_start cs) ≡ true
unfolding trim_start
starts_well-trim_start [] = refl
starts_well-trim_start (c ∷ cs) = branch (is_space c) refl (starts_well-trim_start cs)
  where
    branch :
        (b : Bool)
        → is_space c ≡ b
        → starts_well (trim_start cs) ≡ true
        → starts_well (if b then trim_start cs else c ∷ cs) ≡ true
    branch true e h = h
    branch false e h = ap not e

trim_start_lem : (cs : Text) → starts_well cs ≡ true → trim_start cs ≡ cs
unfolding trim_start
trim_start_lem [] h = refl
trim_start_lem (c ∷ cs) h = branch (is_space c) h
  where
    branch : (b : Bool) → not b ≡ true → (if b then trim_start cs else c ∷ cs) ≡ c ∷ cs
    branch true e = cc
    branch false e = refl

-- The last step of `trim_end` on `c ∷ cs`, with `b` for `is_space c`.
abbrev put_before : Bool → ℕ → Text → Text
put_before b c rest = if b && is_empty rest then [] else c ∷ rest

starts_well-trim_end : (cs : Text) → starts_well cs ≡ true → starts_well (trim_end cs) ≡ true
unfolding trim_end
starts_well-trim_end [] h = refl
starts_well-trim_end (c ∷ cs) h = branch (is_space c) (trim_end cs) h
  where
    branch : (b : Bool) (rest : Text) → not b ≡ true → starts_well (put_before b c rest) ≡ true
    branch true rest e = cc
    branch false rest e = h

trim_end-trim_end : (cs : Text) → trim_end (trim_end cs) ≡ trim_end cs
unfolding trim_end
trim_end-trim_end [] = refl
trim_end-trim_end (c ∷ cs) = branch (is_space c) refl (trim_end cs) (trim_end-trim_end cs)
  where
    branch :
        (b : Bool)
        → is_space c ≡ b
        → (rest : Text) → trim_end rest ≡ rest
        → trim_end (put_before b c rest) ≡ put_before b c rest
    branch true e [] h = refl
    branch true e (d ∷ ds) h =
        ap (put_before (is_space c) c) h ∙ ap (λ b. put_before b c (d ∷ ds)) e
    branch false e rest h = ap (put_before (is_space c) c) h ∙ ap (λ b. put_before b c rest) e

pub trim-trim : (cs : Text) → trim (trim cs) ≡ trim cs
unfolding trim
trim-trim cs =
    ap trim_end (
      trim_start_lem (trim_end (trim_start cs))
        (starts_well-trim_end (trim_start cs) (starts_well-trim_start cs)))
    ∙ trim_end-trim_end (trim_start cs)

-- A trimmed text with a character in front that is no white space is trimmed.
pub trim-cons : (c : ℕ) (cs : Text) → is_space c ≡ false → trim cs ≡ cs → trim (c ∷ cs) ≡ c ∷ cs
unfolding trim
trim-cons c cs h e =
    ap trim_end (trim_start_lem (c ∷ cs) (ap not h))
    ∙ ap (put_before (is_space c) c) (ap trim_end (sym e) ∙ trim_end-trim_end (trim_start cs) ∙ e)
    ∙ ap (λ b. put_before b c cs) h

-- A text without white space is trimmed.
trim_start-tight : (t : Text) → any is_space t ≡ false → trim_start t ≡ t
unfolding trim_start
trim_start-tight [] h = refl
trim_start-tight (c ∷ cs) h = by_head (is_space c) h
  where
    by_head :
        (b : Bool) → (b || any is_space cs) ≡ false → (if b then trim_start cs else c ∷ cs) ≡ c ∷ cs
    by_head true e = cc
    by_head false e = refl

trim_end-tight : (t : Text) → any is_space t ≡ false → trim_end t ≡ t
unfolding trim_end
trim_end-tight [] h = refl
trim_end-tight (c ∷ cs) h = by_head (is_space c) h (trim_end-tight cs)
  where
    by_head :
        (b : Bool)
        → (b || any is_space cs) ≡ false
        → (any is_space cs ≡ false → trim_end cs ≡ cs)
        → put_before b c (trim_end cs) ≡ c ∷ cs
    by_head true e ih = cc
    by_head false e ih = ap (λ r. c ∷ r) (ih e)

pub trim-tight : (t : Text) → any is_space t ≡ false → trim t ≡ t
unfolding trim
trim-tight t h = ap trim_end (trim_start-tight t h) ∙ trim_end-tight t h

pub trim-after_space : (t : Text) → any is_space t ≡ false → trim (32 ∷ t) ≡ t
unfolding trim trim_start
trim-after_space t h = trim-tight t h

-- `===` on texts, and `toLowerCase` on ASCII letters.
abbrev pub same_text : Text → Text → Bool
same_text [] [] = true
same_text [] (d ∷ ds) = false
same_text (c ∷ cs) [] = false
same_text (c ∷ cs) (d ∷ ds) = c == d && same_text cs ds

pub same_text→eq : (cs ds : Text) → same_text cs ds ≡ true → cs ≡ ds
same_text→eq [] [] h = refl
same_text→eq [] (d ∷ ds) h = cc
same_text→eq (c ∷ cs) [] h = cc
same_text→eq (c ∷ cs) (d ∷ ds) h = ground (arith, same_text→eq cs ds)

pub same_text_refl : (cs : Text) → same_text cs cs ≡ true
same_text_refl [] = refl
same_text_refl (c ∷ cs) = ground (arith, same_text_refl cs)

abbrev pub to_lower_case : Text → Text
to_lower_case cs = map (λ c. if leb 65 c && leb c 90 then c + 32 else c) cs
