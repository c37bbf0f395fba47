-- ===== src/Examples/NullBytes.antt =====
-- A body with a text inside a list inside an object.
use crm_system_backend.Prelude.{◌≡◌, [], ◌∷◌}
use crm_system_backend.Prelude.Results.{err, bad_request}
use crm_system_backend.NullBytes.{
  Json, text, array, object, no_items, item, no_fields, field, texts, intercept, intercept-texts,
}

abbrev body : Json
body = object (field (b'a' ∷ []) (array (item (text (b'x' ∷ 0 ∷ [])) no_items)) no_fields)

intercept-texts_example : intercept body (object no_fields) ≡ err bad_request
unfolding texts
intercept-texts_example = intercept-texts body (object no_fields)
