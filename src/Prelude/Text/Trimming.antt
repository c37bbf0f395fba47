-- ===== src/Prelude/Text/Trimming.antt =====
-- What `trim` takes away.
use Prim.Native.Nat.{ℕ, ◌≤◌}
use mathlib.Core.Path.{◌≡◌, refl}
use mathlib.Core.Bool.{Bool, false}
use mathlib.Core.List.{[], ◌∷◌}
use native.Mathlib.Omega.{arith}
use crm_system_backend.Prelude.Tables.{any, length}
use crm_system_backend.Prelude.Text.{Text, is_space, trim_start, trim_end, trim}

any-trim_start : (bad : ℕ → Bool) (t : Text) → any bad t ≡ false → any bad (trim_start t) ≡ false
unfolding trim_start
any-trim_start bad [] h = refl
any-trim_start bad (c ∷ cs) h = ground (arith, any-trim_start bad cs)

pub any-trim_end : (bad : ℕ → Bool) (t : Text) → any bad t ≡ false → any bad (trim_end t) ≡ false
unfolding trim_end
any-trim_end bad [] h = refl
any-trim_end bad (c ∷ cs) h = ground (arith, any-trim_end bad cs)

length-trim_start-le : (t : Text) → length (trim_start t) ≤ length t
unfolding trim_start
length-trim_start-le [] = omega arith
length-trim_start-le (c ∷ cs) = ground (arith, length-trim_start-le cs)

length-trim_end-le : (t : Text) → length (trim_end t) ≤ length t
unfolding trim_end
length-trim_end-le [] = omega arith
length-trim_end-le (c ∷ cs) = ground (arith, length-trim_end-le cs)

pub length-trim-le : (t : Text) → length (trim t) ≤ length t
unfolding trim
length-trim-le t = omega (arith, length-trim_end-le (trim_start t), length-trim_start-le t)

pub any-trim : (bad : ℕ → Bool) (t : Text) → any bad t ≡ false → any bad (trim t) ≡ false
unfolding trim
any-trim bad t h = any-trim_end bad (trim_start t) (any-trim_start bad t h)

-- A text that begins with a character that is no white space keeps it.
pub trim-head : (x : ℕ) (cs : Text) → is_space x ≡ false → trim (x ∷ cs) ≡ x ∷ trim_end cs
unfolding trim trim_start trim_end
trim-head x cs h = rw h (rw h refl)
