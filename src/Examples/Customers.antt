-- ===== src/Examples/Customers.antt =====
-- Two customers.
use crm_system_backend.Prelude.{ℕ, ◌≡◌, refl, true, false, none, some, List, [], ◌∷◌, arith}
use crm_system_backend.Prelude.Text.{Text, trim, same_text}
use crm_system_backend.Prelude.Sent.{undefined, null, sent}
use crm_system_backend.Customers.{Customer, UpdateCustomerDto, patch, remove_avatar, run}
use crm_system_backend.Customers.Emails.{UniqueEmails, run-UniqueEmails}

abbrev customer : ℕ → Text → Customer
customer id email = record {
  id = id;
  name = b'C' ∷ [];
  email = email;
  phone = none;
  contact_person = none;
  avatar_url = [];
  from_source = none;
}

abbrev pair : List Customer
pair = customer 1 (b'a' ∷ []) ∷ customer 2 (b'b' ∷ []) ∷ []

abbrev move_to : Text → UpdateCustomerDto
move_to e = record {
  name = none;
  email = some e;
  phone = undefined;
  contact_person = null;
  from_source = sent (b's' ∷ []);
}

different : (x : Text) → same_text (b'a' ∷ []) x ≡ true → same_text (b'b' ∷ []) x ≡ false
different [] h = cc
different (c ∷ cs) h = ground (arith, h)

pair-UniqueEmails : UniqueEmails pair
pair-UniqueEmails x = ground (arith, different x)

run-UniqueEmails_example :
    UniqueEmails (run (patch 1 (move_to (b'z' ∷ [])) ∷ remove_avatar 1 ∷ []) pair)
unfolding trim
run-UniqueEmails_example =
    run-UniqueEmails (patch 1 (move_to (b'z' ∷ [])) ∷ remove_avatar 1 ∷ []) pair (refl, (tt, tt))
      pair-UniqueEmails
