-- ===== src/Customers.antt =====
-- CustomersService (apps/api-gateway/src/modules/customers/customers.service.ts) with its
-- controller's check of a picture. A body has passed class-validator.
pub mod Emails
pub mod Counts
use crm_system_backend.Prelude.{
  ℕ, Bool, true, false, not, ◌&&◌, Option, none, some, List, [], ◌∷◌, map, ◌==◌, if◌then◌else◌,
  find, update, keep_if, length, is_some, any, or_else, count_of,
}
use crm_system_backend.Prelude.Text.{Text, trim, is_empty, same_text, to_lower_case}
use crm_system_backend.Prelude.Sent.{Sent, undefined, null, sent, write_column}
use crm_system_backend.Prelude.Results.{
  Result, ok, err, ◌>>=◌, ◌>>◌, not_found, conflict, internal_error, or_throw, throw_if,
}

pub record Customer : Type 0 where
  pub id : ℕ
  pub name : Text
  pub email : Text
  pub phone : Option Text
  pub contact_person : Option Text
  pub avatar_url : Text
  pub from_source : Option Text

abbrev pub customer_key : Customer → ℕ
customer_key c = c.id

pub record UpdateCustomerDto : Type 0 where
  pub name : Option Text
  pub email : Option Text
  pub phone : Sent Text
  pub contact_person : Sent Text
  pub from_source : Sent Text

abbrev pub has_email : Text → Customer → Bool
has_email e c = same_text c.email e

-- `dto.email?.trim().toLowerCase()`.
abbrev pub clean : Text → Text
clean e = to_lower_case (trim e)

abbrev pub clean_email : UpdateCustomerDto → Option Text
clean_email dto = elim dto.email [ none ↦ none | some e ↦ some (clean e) ]

-- The test for a duplicate: the new address is not the customer's own, and somebody has it.
abbrev pub is_duplicate : Option Text → Customer → List Customer → Bool
is_duplicate none existing cs = false
is_duplicate (some e) existing cs =
    not (is_empty e) && not (same_text e existing.email) && any (has_email e) cs

abbrev pub edit : UpdateCustomerDto → Customer → Customer
edit dto c = record c {
  name = or_else dto.name c.name;
  email = or_else (clean_email dto) c.email;
  phone = write_column dto.phone c.phone;
  contact_person = write_column dto.contact_person c.contact_person;
  from_source = write_column dto.from_source c.from_source;
}

unfoldable pub find_one : ℕ → List Customer → Result Customer
find_one id cs = or_throw (find customer_key id cs) not_found

unfoldable pub update_customer : ℕ → UpdateCustomerDto → List Customer → Result (List Customer)
update_customer id dto cs = do
  existing ← or_throw (find customer_key id cs) not_found
  throw_if (is_duplicate (clean_email dto) existing cs) conflict
  ok (update customer_key id (edit dto) cs)

abbrev pub set_avatar : Text → Customer → Customer
set_avatar url c = record c { avatar_url = url }

unfoldable pub update_avatar : ℕ → Text → List Customer → Result (List Customer)
update_avatar id url cs = do
  existing ← or_throw (find customer_key id cs) not_found
  ok (update customer_key id (set_avatar url) cs)

unfoldable pub delete_avatar : ℕ → List Customer → Result (List Customer)
delete_avatar id cs = do
  existing ← or_throw (find customer_key id cs) not_found
  ok (update customer_key id (set_avatar []) cs)

-- `uploadAvatar` of the controller: a plain Error is answered with 500.
unfoldable pub upload_avatar : ℕ → Option Text → List Customer → Result (List Customer)
unfolding update_avatar
upload_avatar id none cs = err internal_error
upload_avatar id (some url) cs = do
  throw_if (is_empty (trim url)) internal_error
  update_avatar id (trim url) cs

-- `findAll`, given the customer of each deal; rows are in the order of `createdAt`.
pub record Listed : Type 0 where
  pub customer : Customer
  pub deals_count : ℕ

abbrev pub deal_customer : ℕ → ℕ
deal_customer id = id

unfoldable pub find_all : List ℕ → List Customer → List Listed
find_all deals cs =
    map (λ (c : Customer). record { customer = c; deals_count = count_of deal_customer deals c.id })
      cs

-- The routes that write, one after another.
pub data Request : Type 0 where
  patch : ℕ → UpdateCustomerDto → Request
  post_avatar : ℕ → Option Text → Request
  remove_avatar : ℕ → Request

unfoldable pub serve : Request → List Customer → Result (List Customer)
unfolding update_customer upload_avatar delete_avatar
serve (patch id dto) cs = update_customer id dto cs
serve (post_avatar id url) cs = upload_avatar id url cs
serve (remove_avatar id) cs = delete_avatar id cs

-- The table after a request, which an exception leaves as it is.
abbrev pub left_by : Result (List Customer) → List Customer → List Customer
left_by (ok after) cs = after
left_by (err e) cs = cs

unfoldable pub run : List Request → List Customer → List Customer
unfolding serve
run [] cs = cs
run (r ∷ rs) cs = run rs (left_by (serve r cs) cs)
