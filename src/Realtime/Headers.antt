-- ===== src/Realtime/Headers.antt =====
-- The header that a browser sends, read by `parseCookies`
-- (apps/api-gateway/src/modules/chat/chat.gateway.ts): cookies as `name=value`, with `; ` between
-- them.
use crm_system_backend.Prelude.{
  ℕ, ◌≡◌, refl, Bool, true, false, ◌||◌, Option, none, some, List, [], ◌∷◌, ◌++◌, map, arith, ◌==◌,
  any, All,
}
use crm_system_backend.Prelude.Text.{Text, is_space, is_empty, trim-tight, trim-after_space}
use crm_system_backend.Realtime.Cookies.{
  split, before_sign, after_sign, semicolon, equals_sign, entry, cons?, entries, parse_cookies,
}

-- The characters that a name, and an encoded value, cannot have.
abbrev in_no_value : ℕ → Bool
in_no_value c = is_space c || c == semicolon

abbrev in_no_name : ℕ → Bool
in_no_name c = in_no_value c || c == equals_sign

abbrev pub IsClean : Text × Text → Type 0
IsClean (name, value) = (any in_no_name name ≡ false) × (any in_no_value value ≡ false)

abbrev pub print : Text × Text → Text
print (name, value) = name ++ equals_sign ∷ value

abbrev more : List (Text × Text) → Text
more [] = []
more (c ∷ cs) = semicolon ∷ (32 ∷ (print c ++ more cs))

unfoldable pub header : Text × Text → List (Text × Text) → Text
header c cs = print c ++ more cs

-- The entries of some cookies, unless a value cannot be decoded.
abbrev pub decoded : (Text → Option Text) → List (Text × Text) → Option (List (Text × Text))
decoded decode [] = some []
decoded decode ((name, value) ∷ cs) =
    cons? (elim (decode value) [ none ↦ none | some v ↦ some (name, v) ]) (decoded decode cs)

split-append :
    (d : ℕ) (t rest : Text) (ts : List Text)
    → any (λ c. c == d) t ≡ false
    → split d rest ≡ [] ∷ ts
    → split d (t ++ rest) ≡ t ∷ ts
unfolding split
split-append d [] rest ts h e = e
split-append d (c ∷ cs) rest ts h e = ground (arith, split-append d cs rest ts, e)

-- A printed cookie has no white space and no semicolon.
print_clean :
    (p : ℕ → Bool) (name value : Text)
    → any p name ≡ false
    → p equals_sign ≡ false
    → any p value ≡ false
    → any p (print (name, value)) ≡ false
print_clean p [] value h e v = ground (arith, e, v)
print_clean p (c ∷ cs) value h e v = ground (arith, print_clean p cs value, e, v)

any_weaken :
    (p q : ℕ → Bool) (t : Text)
    → ((c : ℕ) → q c ≡ true → p c ≡ true)
    → any p t ≡ false
    → any q t ≡ false
any_weaken p q [] f h = refl
any_weaken p q (c ∷ cs) f h = ground (arith, any_weaken p q cs f, f c)

print_tight :
    (q : ℕ → Bool) (c : Text × Text)
    → ((x : ℕ) → q x ≡ true → in_no_value x ≡ true)
    → q equals_sign ≡ false
    → IsClean c
    → any q (print c) ≡ false
print_tight q (name, value) f e (n, v) =
    print_clean q name value (any_weaken in_no_name q name (λ x h. named x (f x h)) n) e
      (any_weaken in_no_value q value f v)
  where
    named : (x : ℕ) → in_no_value x ≡ true → in_no_name x ≡ true
    named x h = rw h refl

no_semicolon : (c : Text × Text) → IsClean c → any (λ x. x == semicolon) (print c) ≡ false
no_semicolon c h = print_tight (λ x. x == semicolon) c separates refl h
  where
    separates : (x : ℕ) → (x == semicolon) ≡ true → in_no_value x ≡ true
    separates x e = by_space (is_space x) e
      where
        by_space : (b : Bool) → (x == semicolon) ≡ true → (b || x == semicolon) ≡ true
        by_space true e = refl
        by_space false e = e

no_space : (c : Text × Text) → IsClean c → any is_space (print c) ≡ false
no_space c h = print_tight is_space c (λ x e. rw e refl) refl h

split-more :
    (cs : List (Text × Text))
    → All IsClean cs
    → split semicolon (more cs) ≡ [] ∷ map (λ c. 32 ∷ print c) cs
unfolding split
split-more [] h = refl
split-more (c ∷ cs) h =
    rw
      (split-append semicolon (print c) (more cs) (map (λ x. 32 ∷ print x) cs) (no_semicolon c h.0)
        (split-more cs h.1))
      refl

after-sign :
    (name value : Text)
    → any (λ c. c == equals_sign) name ≡ false
    → after_sign equals_sign (print (name, value)) ≡ value
after-sign [] value h = refl
after-sign (c ∷ cs) value h = ground (arith, after-sign cs value)

before-sign :
    (name value : Text)
    → any (λ c. c == equals_sign) name ≡ false
    → before_sign equals_sign (print (name, value)) ≡ name
before-sign [] value h = refl
before-sign (c ∷ cs) value h = ground (arith, before-sign cs value)

entry-print :
    (decode : Text → Option Text) (name value : Text)
    → any in_no_name name ≡ false
    → entry decode (print (name, value))
      ≡ elim (decode value) [ none ↦ none | some v ↦ some (name, v) ]
entry-print decode name value h =
    λ i. pair (before-sign name value no_sign i) (after-sign name value no_sign i)
  where
    pair : Text → Text → Option (Text × Text)
    pair k v = elim (decode v) [ none ↦ none | some w ↦ some (k, w) ]

    or_true : (b : Bool) → (b || true) ≡ true
    or_true true = refl
    or_true false = refl

    no_sign : any (λ c. c == equals_sign) name ≡ false
    no_sign = any_weaken in_no_name (λ c. c == equals_sign) name (λ c e. rw e (or_true _)) h

-- The cookies after the first, as `split` leaves them.
entries-more :
    (decode : Text → Option Text) (cs : List (Text × Text))
    → All IsClean cs
    → entries decode (map (λ c. 32 ∷ print c) cs) ≡ decoded decode cs
unfolding entries
entries-more decode [] h = refl
entries-more decode ((name, value) ∷ cs) h =
    rw
      (
        trim-after_space (print (name, value)) (no_space (name, value) h.0),
        entry-print decode name value h.0.0,
        entries-more decode cs h.1,
      )
      refl

-- Whatever `decodeURIComponent` is, the header of one or more cookies, whose names and values have
-- no white space and no semicolon, and the names no equals sign, is read as exactly these cookies,
-- in their order, each with its decoded value; if one value cannot be decoded, the whole header is
-- not read.
pub parse_cookies-header :
    (decode : Text → Option Text) (c : Text × Text) (cs : List (Text × Text))
    → All IsClean (c ∷ cs)
    → parse_cookies decode (some (header c cs)) ≡ decoded decode (c ∷ cs)
unfolding parse_cookies header entries
parse_cookies-header decode (name, value) cs h =
    rw
      (
        filled name,
        split-append semicolon (print (name, value)) (more cs) (map (λ x. 32 ∷ print x) cs)
            (no_semicolon (name, value) h.0) (split-more cs h.1),
        trim-tight (print (name, value)) (no_space (name, value) h.0),
        entry-print decode name value h.0.0,
        entries-more decode cs h.1,
      )
      refl
  where
    filled : (n : Text) → is_empty (print (n, value) ++ more cs) ≡ false
    filled [] = refl
    filled (x ∷ xs) = refl
