-- ===== src/Billing/Paid.antt =====
-- How much is paid on an order, as a plain sum over the payments, and how each write to the
-- payments changes it.
use crm_system_backend.Prelude.{
  ℕ, ◌+◌, ◌≤◌, ◌≡◌, ◌≢◌, Bool, true, false, not, ◌&&◌, none, some, List, [], ◌∷◌, ◌++◌, arith, ◌==◌,
  if◌then◌else◌, keep_if, find, update, erase, Unique,
}
use crm_system_backend.Billing.Money.{number}
use crm_system_backend.Billing.Store.{
  Payment, Db, payment_key, is_succeeded, payments_of, add_amounts, paid_sum,
}

-- What a payment adds to an order, in hundredths.
unfoldable pub counted : ℕ → Payment → ℕ
counted o p = if (p.order_id == o) && is_succeeded p then p.amount else 0

pub counted-le : (o : ℕ) (p : Payment) → counted o p ≤ p.amount
unfolding counted
counted-le o p = ground arith

pub counted-other : (o : ℕ) (p : Payment) → p.order_id ≢ o → counted o p ≡ 0
unfolding counted
counted-other o p h = ground arith

pub counted-not_succeeded : (o : ℕ) (p : Payment) → is_succeeded p ≡ false → counted o p ≡ 0
unfolding counted
counted-not_succeeded o p h = ground arith

pub counted-succeeded : (p : Payment) → is_succeeded p ≡ true → counted p.order_id p ≡ p.amount
unfolding counted
counted-succeeded p h = ground arith

abbrev pub paid_cents : ℕ → List Payment → ℕ
paid_cents o [] = 0
paid_cents o (p ∷ ps) = counted o p + paid_cents o ps

abbrev of_order : ℕ → Payment → Bool
of_order o p = p.order_id == o

abbrev other_than : ℕ → Payment → Bool
other_than x p = not (p.id == x)

add_amounts-paid :
    (o s : ℕ) (ps : List Payment)
    → add_amounts s (keep_if is_succeeded (keep_if (of_order o) ps)) ≡ s + number (paid_cents o ps)
unfolding add_amounts counted
add_amounts-paid o s [] = omega arith
add_amounts-paid o s (p ∷ ps) =
    ground (arith, add_amounts-paid o s ps, add_amounts-paid o (s + number p.amount) ps)

pub paid_sum-payments_of :
    (o : ℕ) (db : Db) → paid_sum (payments_of o db) ≡ number (paid_cents o db.payments)
unfolding paid_sum
paid_sum-payments_of o db = omega (arith, add_amounts-paid o 0 db.payments)

add_amounts-absent :
    (o x s : ℕ) (ps : List Payment)
    → find payment_key x ps ≡ none
    → add_amounts s (keep_if is_succeeded (keep_if (other_than x) (keep_if (of_order o) ps)))
      ≡ s + number (paid_cents o ps)
unfolding add_amounts counted
add_amounts-absent o x s [] h = omega arith
add_amounts-absent o x s (p ∷ ps) h =
    ground (arith, add_amounts-absent o x s ps, add_amounts-absent o x (s + number p.amount) ps)

add_amounts-except :
    (o x s : ℕ) (ps : List Payment) (p : Payment)
    → Unique payment_key ps
    → find payment_key x ps ≡ some p
    → add_amounts s (keep_if is_succeeded (keep_if (other_than x) (keep_if (of_order o) ps)))
        + number (counted o p)
      ≡ s + number (paid_cents o ps)
unfolding add_amounts counted
add_amounts-except o x s [] p u h = cc
add_amounts-except o x s (q ∷ ps) p u h = ground (
  arith,
  u.0,
  add_amounts-except o x s ps p u.1,
  add_amounts-except o x (s + number q.amount) ps p u.1,
  add_amounts-absent o x s ps,
)

pub paid_sum-except :
    (o x : ℕ) (db : Db) (p : Payment)
    → Unique payment_key db.payments
    → find payment_key x db.payments ≡ some p
    → paid_sum (keep_if (other_than x) (payments_of o db)) + number (counted o p)
      ≡ number (paid_cents o db.payments)
unfolding paid_sum
paid_sum-except o x db p u h = omega (arith, add_amounts-except o x 0 db.payments p u h)

pub paid_cents-append :
    (o : ℕ) (ps : List Payment) (p : Payment)
    → paid_cents o (ps ++ p ∷ []) ≡ paid_cents o ps + counted o p
paid_cents-append o [] p = omega arith
paid_cents-append o (q ∷ ps) p = omega (arith, paid_cents-append o ps p)

pub paid_cents-update :
    (o x : ℕ) (f : Payment → Payment) (ps : List Payment) (p : Payment)
    → find payment_key x ps ≡ some p
    → paid_cents o (update payment_key x f ps) + counted o p ≡ paid_cents o ps + counted o (f p)
paid_cents-update o x f [] p h = cc
paid_cents-update o x f (q ∷ ps) p h = ground (arith, paid_cents-update o x f ps p)

pub paid_cents-erase-le :
    (o x : ℕ) (ps : List Payment) → paid_cents o (erase payment_key x ps) ≤ paid_cents o ps
paid_cents-erase-le o x [] = omega arith
paid_cents-erase-le o x (q ∷ ps) = ground (arith, paid_cents-erase-le o x ps)

-- Without the payments of order `id` nothing is paid on it, and all else is as before.
pub paid_cents-drop_order :
    (o id : ℕ) (ps : List Payment)
    → paid_cents o (keep_if (λ p. not (p.order_id == id)) ps)
      ≡ (if o == id then 0 else paid_cents o ps)
unfolding counted
paid_cents-drop_order o id [] = ground arith
paid_cents-drop_order o id (q ∷ ps) = ground (arith, paid_cents-drop_order o id ps)
