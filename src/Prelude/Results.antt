-- ===== src/Prelude/Results.antt =====
-- Fallible service methods: a value, or the exception that the method throws.
use mathlib.Core.Path.{◌≡◌, refl, subst}
use mathlib.Core.Bool.{Bool, true, false}
use mathlib.Core.Option.{Option, none, some}

-- The exception classes of the HTTP layer that the services throw, and `failed_write` for a
-- database call that rejects (a row to be changed is gone, a foreign key points nowhere);
-- `internal_error` is any other error that is thrown, which is answered with 500.
pub data Failure : Type 0 where
  bad_request unauthorized forbidden not_found conflict too_many_requests failed_write
        internal_error :
      Failure

pub data Result {ℓ} (A : Type ℓ) : Type ℓ where
  err : Failure → Result A
  ok : A → Result A

infixl 5 ◌>>=◌ ◌>>◌
abbrev pub ◌>>=◌ {ℓ κ} : {A : Type ℓ} {B : Type κ} → Result A → (A → Result B) → Result B
err failure >>= next = err failure
ok value >>= next = next value

abbrev pub ◌>>◌ {ℓ κ} : {A : Type ℓ} {B : Type κ} → Result A → Result B → Result B
first >> second = first >>= λ _. second

-- `if (test) throw e;`
abbrev pub throw_if : Bool → Failure → Result (Unit {0})
throw_if true e = err e
throw_if false e = ok tt

-- `if (!row) throw e;`
abbrev pub or_throw {ℓ} : {A : Type ℓ} → Option A → Failure → Result A
or_throw none e = err e
or_throw (some a) e = ok a

abbrev pub is_ok {ℓ} : {A : Type ℓ} → Result A → Bool
is_ok (ok a) = true
is_ok (err e) = false

-- What holds of the value, if the call returns one.
abbrev pub Ensures {ℓ κ} : {A : Type ℓ} → (A → Type κ) → Result A → Type κ
Ensures P (ok a) = P a
Ensures P (err e) = Unit

-- One rule for each way in which a method goes on: `P` is what the whole method ensures.
module _ {ℓ κ ι} {A : Type ℓ} {B : Type κ} (P : B → Type ι) where
  pub >>=-Ensures :
      (m : Result A) (f : A → Result B)
      → ((a : A) → m ≡ ok a → Ensures P (f a))
      → Ensures P (m >>= f)
  >>=-Ensures (ok a) f h = h a refl
  >>=-Ensures (err e) f h = tt

  pub or_throw-Ensures :
      (o : Option A) (e : Failure) (f : A → Result B)
      → ((a : A) → o ≡ some a → Ensures P (f a))
      → Ensures P (or_throw o e >>= f)
  or_throw-Ensures none e f h = tt
  or_throw-Ensures (some a) e f h = h a refl

pub throw_if-Ensures {κ ι} :
    {B : Type κ} (P : B → Type ι) (b : Bool) (e : Failure) (r : Result B)
    → (b ≡ false → Ensures P r)
    → Ensures P (throw_if b e >> r)
throw_if-Ensures P true e r h = tt
throw_if-Ensures P false e r h = h refl

pub Ensures-ok {ℓ κ} :
    {A : Type ℓ} (P : A → Type κ) (r : Result A) (a : A) → Ensures P r → r ≡ ok a → P a
Ensures-ok P (ok b) a h e = subst P (ok_inj e) h
  where
    ok_inj : ok b ≡ ok a → b ≡ a
    ok_inj q = cc
Ensures-ok P (err b) a h e = cc
