-- ===== src/Customers/Emails.antt =====
-- No two customers have one address (`update` of
-- apps/api-gateway/src/modules/customers/customers.service.ts).
use crm_system_backend.Prelude.{
  ℕ, ◌+◌, ◌≤◌, ◌≡◌, refl, subst, ◌∙◌, false, Option, none, some, List, [], ◌∷◌, arith, find, update,
  keep_if, length, any, All, once, Bool-cases, inl, inr, or_else,
}
use crm_system_backend.Prelude.Text.{Text, trim, is_empty, same_text, same_text→eq}
use crm_system_backend.Prelude.Results.{
  Result, ok, err, not_found, conflict, internal_error, Ensures, or_throw-Ensures, throw_if-Ensures,
}
use crm_system_backend.Customers.{
  Customer, customer_key, has_email, clean_email, is_duplicate, edit, update_customer, set_avatar,
  update_avatar, upload_avatar, delete_avatar, Request, patch, post_avatar, remove_avatar, serve,
  left_by, run,
}

abbrev pub holders : Text → List Customer → ℕ
holders x cs = length (keep_if (has_email x) cs)

abbrev pub UniqueEmails : List Customer → Type 0
UniqueEmails cs = (x : Text) → holders x cs ≤ 1

-- An address that is sent is not blank; class-validator sees to that.
abbrev pub IsAddress : Option Text → Type 0
IsAddress none = Unit
IsAddress (some e) = is_empty e ≡ false

abbrev pub IsFilled : Request → Type 0
IsFilled (patch id dto) = IsAddress (clean_email dto)
IsFilled _ = Unit

holders-update_same :
    (k : ℕ) (f : Customer → Customer) (x : Text) (cs : List Customer)
    → ((c : Customer) → (f c).email ≡ c.email)
    → holders x (update customer_key k f cs) ≡ holders x cs
holders-update_same k f x [] same = refl
holders-update_same k f x (c ∷ cs) same = ground (arith, same c, holders-update_same k f x cs same)

holders-update_own :
    (k : ℕ) (f : Customer → Customer) (x : Text) (cs : List Customer) (d : Customer)
    → find customer_key k cs ≡ some d
    → ((c : Customer) → (f c).email ≡ d.email)
    → holders x (update customer_key k f cs) ≡ holders x cs
holders-update_own k f x [] d h own = refl
holders-update_own k f x (c ∷ cs) d h own = ground (arith, own c, holders-update_own k f x cs d)

holders-update-le :
    (k : ℕ) (f : Customer → Customer) (x e : Text) (cs : List Customer)
    → ((c : Customer) → (f c).email ≡ e)
    → holders x (update customer_key k f cs) ≤ holders x cs + once (same_text e x)
holders-update-le k f x e [] all = omega arith
holders-update-le k f x e (c ∷ cs) all = ground (arith, all c, holders-update-le k f x e cs all)

holders_0 : (e : Text) (cs : List Customer) → any (has_email e) cs ≡ false → holders e cs ≡ 0
holders_0 e [] h = refl
holders_0 e (c ∷ cs) h = ground (arith, h, holders_0 e cs)

-- An address that nobody has is given to one customer.
given_new :
    (k : ℕ) (f : Customer → Customer) (e : Text) (cs : List Customer)
    → UniqueEmails cs
    → any (has_email e) cs ≡ false
    → ((c : Customer) → (f c).email ≡ e)
    → UniqueEmails (update customer_key k f cs)
given_new k f e cs unique free all x = elim (Bool-cases (same_text e x)) [
  | inl same ↦
      let nobody : holders x cs ≡ 0 =
        subst (λ y. holders y cs ≡ 0) (same_text→eq e x same) (holders_0 e cs free) in
      ground (arith, holders-update-le k f x e cs all, nobody, same)
  | inr other ↦ ground (arith, holders-update-le k f x e cs all, unique x, other)
]

by_clean :
    (id : ℕ) (f : Customer → Customer) (o : Option Text) (cs : List Customer) (d : Customer)
    → UniqueEmails cs
    → find customer_key id cs ≡ some d
    → IsAddress o
    → is_duplicate o d cs ≡ false
    → ((c : Customer) → (f c).email ≡ or_else o c.email)
    → UniqueEmails (update customer_key id f cs)
by_clean id f none cs d unique h filled free set =
    λ x. ground (arith, holders-update_same id f x cs set, unique x)
by_clean id f (some e) cs d unique h filled free set = elim (Bool-cases (same_text e d.email)) [
  | inl own ↦ λ x.
      ground (
        arith,
        holders-update_own id f x cs d h (λ c. set c ∙ same_text→eq e d.email own),
        unique x,
      )
  | inr other ↦ given_new id f e cs unique (ground (arith, filled, free, other)) set
]

serve-UniqueEmails :
    (r : Request) (cs : List Customer)
    → IsFilled r
    → UniqueEmails cs
    → Ensures UniqueEmails (serve r cs)
unfolding serve update_customer upload_avatar update_avatar delete_avatar
serve-UniqueEmails (patch id dto) cs filled unique =
    or_throw-Ensures UniqueEmails (find customer_key id cs) not_found _ (λ d h.
      throw_if-Ensures UniqueEmails (is_duplicate (clean_email dto) d cs) conflict
        (ok (update customer_key id (edit dto) cs))
        (λ free. by_clean id (edit dto) (clean_email dto) cs d unique h filled free (λ c. refl)))
serve-UniqueEmails (post_avatar id none) cs filled unique = tt
serve-UniqueEmails (post_avatar id (some url)) cs filled unique =
    throw_if-Ensures UniqueEmails (is_empty (trim url)) internal_error _ (λ e.
      or_throw-Ensures UniqueEmails (find customer_key id cs) not_found _ (λ d h x.
        ground (arith, holders-update_same id (set_avatar (trim url)) x cs (λ c. refl), unique x)))
serve-UniqueEmails (remove_avatar id) cs filled unique =
    or_throw-Ensures UniqueEmails (find customer_key id cs) not_found _
      (λ d h x. ground (arith, holders-update_same id (set_avatar []) x cs (λ c. refl), unique x))

left_by-UniqueEmails :
    (o : Result (List Customer)) (cs : List Customer)
    → UniqueEmails cs
    → Ensures UniqueEmails o
    → UniqueEmails (left_by o cs)
left_by-UniqueEmails (ok after) cs unique h = h
left_by-UniqueEmails (err e) cs unique h = unique

-- Let no two customers have the same address, and every address in a request be filled. Then no two
-- customers have the same address after any requests to edit customers and their pictures, in any
-- order, with those that fail among them.
pub run-UniqueEmails :
    (rs : List Request) (cs : List Customer)
    → All IsFilled rs
    → UniqueEmails cs
    → UniqueEmails (run rs cs)
unfolding run
run-UniqueEmails [] cs filled unique = unique
run-UniqueEmails (r ∷ rs) cs (f, filled) unique =
    run-UniqueEmails rs (left_by (serve r cs) cs) filled
      (left_by-UniqueEmails (serve r cs) cs unique (serve-UniqueEmails r cs f unique))
