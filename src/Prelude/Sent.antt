-- ===== src/Prelude/Sent.antt =====
-- A field of a request body: `undefined`, `null` or a value.
use mathlib.Core.Option.{Option, none, some}

pub data Sent {ℓ} (A : Type ℓ) : Type ℓ where
  undefined null : Sent A
  sent : A → Sent A

-- What a Prisma update leaves in a column that can be empty, and in one that cannot.
abbrev pub write_column {ℓ} : {A : Type ℓ} → Sent A → Option A → Option A
write_column undefined old = old
write_column null old = none
write_column (sent a) old = some a
