-- ===== src/Realtime/Cookies.antt =====
-- `parseCookies` (apps/api-gateway/src/modules/chat/chat.gateway.ts, and the same in
-- notifications.gateway.ts). `decodeURIComponent` is a parameter: `none` if it throws.
use crm_system_backend.Prelude.{ℕ, Option, none, some, List, [], ◌∷◌, ◌==◌, if◌then◌else◌, or_else?}
use crm_system_backend.Prelude.Text.{Text, is_empty, same_text, trim}

-- `split` by one character.
abbrev pub onto_first : ℕ → List Text → List Text
onto_first c [] = (c ∷ []) ∷ []
onto_first c (t ∷ ts) = (c ∷ t) ∷ ts

unfoldable pub split : ℕ → Text → List Text
split d [] = [] ∷ []
split d (c ∷ cs) = let rest = split d cs in if c == d then [] ∷ rest else onto_first c rest

-- `[k, ...v] = c.split('=')` and `v.join('=')`: what stands before the first `=`, and after it.
abbrev pub before_sign : ℕ → Text → Text
before_sign d [] = []
before_sign d (c ∷ cs) = let rest = before_sign d cs in if c == d then [] else c ∷ rest

abbrev pub after_sign : ℕ → Text → Text
after_sign d [] = []
after_sign d (c ∷ cs) = let rest = after_sign d cs in if c == d then cs else rest

abbrev pub semicolon : ℕ
semicolon = 59

abbrev pub equals_sign : ℕ
equals_sign = 61

-- One cookie: the name and the decoded value.
abbrev pub entry : (Text → Option Text) → Text → Option (Text × Text)
entry decode c = elim (decode (after_sign equals_sign c)) [
  | none ↦ none
  | some v ↦ some (before_sign equals_sign c, v)
]

abbrev pub cons? : Option (Text × Text) → Option (List (Text × Text)) → Option (List (Text × Text))
cons? none es = none
cons? (some e) none = none
cons? (some e) (some es) = some (e ∷ es)

unfoldable pub entries : (Text → Option Text) → List Text → Option (List (Text × Text))
entries decode [] = some []
entries decode (c ∷ cs) = cons? (entry decode (trim c)) (entries decode cs)

-- `parseCookies`: the entries in their order, or `none` if a value cannot be decoded.
unfoldable pub parse_cookies : (Text → Option Text) → Option Text → Option (List (Text × Text))
parse_cookies decode none = some []
parse_cookies decode (some header) =
    if is_empty header then some [] else entries decode (split semicolon header)

-- The property that `Object.fromEntries` leaves: the last entry of the name.
abbrev pub cookie : Text → List (Text × Text) → Option Text
cookie name [] = none
cookie name (e ∷ es) = or_else? (cookie name es) (if same_text e.0 name then some e.1 else none)

-- 'accessToken'.
abbrev pub access_token : Text
access_token = b'a' ∷ b'c' ∷ b'c' ∷ b'e' ∷ b's' ∷ b's' ∷ b'T' ∷ b'o' ∷ b'k' ∷ b'e' ∷ b'n' ∷ []
