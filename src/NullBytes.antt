-- ===== src/NullBytes.antt =====
-- RejectNullBytesInterceptor
-- (apps/api-gateway/src/common/interceptors/reject-null-bytes.interceptor.ts) on parsed JSON.
use crm_system_backend.Prelude.{
  ℕ, ◌≡◌, refl, sym, ap, ◌∙◌, Bool, false, ◌||◌, List, [], ◌∷◌, ◌++◌, arith, any, includes,
}
use crm_system_backend.Prelude.Text.{Text}
use crm_system_backend.Prelude.Results.{Result, bad_request, throw_if}

-- A value that JSON.parse gives; numbers stand for themselves.
mutual
  pub data Json : Type 0 where
    null_value : Json
    boolean : Bool → Json
    number : ℕ → Json
    text : Text → Json
    array : Items → Json
    object : Fields → Json

  pub data Items : Type 0 where
    no_items : Items
    item : Json → Items → Items

  pub data Fields : Type 0 where
    no_fields : Fields
    field : Text → Json → Fields → Fields

-- `containsNullByte`; the names of an object's fields are not looked at.
unfoldable mutual
  pub contains_null_byte : Json → Bool
  contains_null_byte (text t) = includes t 0
  contains_null_byte (array xs) = some_item xs
  contains_null_byte (object fs) = some_field fs
  contains_null_byte null_value = false
  contains_null_byte (boolean b) = false
  contains_null_byte (number n) = false

  some_item : Items → Bool
  some_item no_items = false
  some_item (item v xs) = contains_null_byte v || some_item xs

  some_field : Fields → Bool
  some_field no_fields = false
  some_field (field name v fs) = contains_null_byte v || some_field fs

unfoldable pub intercept : Json → Json → Result (Unit {0})
unfolding contains_null_byte
intercept body query = throw_if (contains_null_byte body || contains_null_byte query) bad_request

-- All texts in a value, at any depth.
unfoldable mutual
  pub texts : Json → List Text
  texts (text t) = t ∷ []
  texts (array xs) = texts_of_items xs
  texts (object fs) = texts_of_fields fs
  texts null_value = []
  texts (boolean b) = []
  texts (number n) = []

  texts_of_items : Items → List Text
  texts_of_items no_items = []
  texts_of_items (item v xs) = texts v ++ texts_of_items xs

  texts_of_fields : Fields → List Text
  texts_of_fields no_fields = []
  texts_of_fields (field name v fs) = texts v ++ texts_of_fields fs

abbrev pub has_null : Text → Bool
has_null t = includes t 0

any-append : (ts us : List Text) → any has_null (ts ++ us) ≡ (any has_null ts || any has_null us)
any-append [] us = refl
any-append (t ∷ ts) us = ground (arith, any-append ts us)

mutual
  unfolding contains_null_byte texts

  contains-texts : (v : Json) → any has_null (texts v) ≡ contains_null_byte v
  contains-texts (text t) = ground arith
  contains-texts (array xs) = some_item-texts xs
  contains-texts (object fs) = some_field-texts fs
  contains-texts null_value = refl
  contains-texts (boolean b) = refl
  contains-texts (number n) = refl

  some_item-texts : (xs : Items) → any has_null (texts_of_items xs) ≡ some_item xs
  some_item-texts no_items = refl
  some_item-texts (item v xs) =
      any-append (texts v) (texts_of_items xs)
      ∙ ap (λ b. b || any has_null (texts_of_items xs)) (contains-texts v)
      ∙ ap (λ b. contains_null_byte v || b) (some_item-texts xs)

  some_field-texts : (fs : Fields) → any has_null (texts_of_fields fs) ≡ some_field fs
  some_field-texts no_fields = refl
  some_field-texts (field name v fs) =
      any-append (texts v) (texts_of_fields fs)
      ∙ ap (λ b. b || any has_null (texts_of_fields fs)) (contains-texts v)
      ∙ ap (λ b. contains_null_byte v || b) (some_field-texts fs)

-- A request is refused with 400 exactly if some text in its body or its query, at any depth, has a
-- null byte; otherwise it goes on.
pub intercept-texts :
    (body query : Json)
    → intercept body query ≡ throw_if (any has_null (texts body ++ texts query)) bad_request
unfolding intercept
intercept-texts body query =
    ap (λ b. throw_if b bad_request)
      (sym (
        any-append (texts body) (texts query)
        ∙ ap (λ b. b || any has_null (texts query)) (contains-texts body)
        ∙ ap (λ b. contains_null_byte body || b) (contains-texts query)))
