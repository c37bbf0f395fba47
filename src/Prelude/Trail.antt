-- ===== src/Prelude/Trail.antt =====
-- A history table as a trail: the rows of one key, replayed from the start. Every row has the
-- state that it left and the state that it entered.
use mathlib.Core.Path.{◌≡◌, refl}
use mathlib.Core.Logic.{◌≢◌, inl, inr}
use mathlib.Core.Bool.{not, false}
use mathlib.Core.Option.{Option, some}
use mathlib.Core.List.{List, [], ◌∷◌, ◌++◌}
use Prim.Native.Nat.{ℕ}
use native.Mathlib.Omega.{arith}
use crm_system_backend.Prelude.Tests.{Bool-cases, ◌==◌, if◌then◌else◌}
use crm_system_backend.Prelude.Tables.{keep_if}

module _ {H S : Type 0} (key : H → ℕ) (from : H → Option S) (to : H → S) where
  abbrev pub enter : ℕ → Option S → H → Option S
  enter id now h = if key h == id then some (to h) else now

  -- The state that the last row of the key entered.
  abbrev pub replay : ℕ → Option S → List H → Option S
  replay id now [] = now
  replay id now (h ∷ hs) = replay id (enter id now h) hs

  -- Each row of the key leaves the state that the row before it entered.
  abbrev pub IsChained : ℕ → Option S → List H → Type 0
  IsChained id now [] = Unit
  IsChained id now (h ∷ hs) = (key h ≡ id → from h ≡ now) × IsChained id (enter id now h) hs

  pub replay-append :
      (id : ℕ) (now : Option S) (hs : List H) (h : H)
      → replay id now (hs ++ h ∷ []) ≡ enter id (replay id now hs) h
  replay-append id now [] h = refl
  replay-append id now (x ∷ hs) h = replay-append id (enter id now x) hs h

  pub append-IsChained :
      (id : ℕ) (now : Option S) (hs : List H) (h : H)
      → IsChained id now hs
      → (key h ≡ id → from h ≡ replay id now hs)
      → IsChained id now (hs ++ h ∷ [])
  append-IsChained id now [] h c step = (step, tt)
  append-IsChained id now (x ∷ hs) h c step =
      (c.0, append-IsChained id (enter id now x) hs h c.1 step)

  -- Without the rows of `gone` the other trails are as before, and its own is empty.
  pub replay-drop :
      (id gone : ℕ) (now : Option S) (hs : List H)
      → replay id now (keep_if (λ h. not (key h == gone)) hs)
        ≡ (if id == gone then now else replay id now hs)
  replay-drop id gone now [] = ground arith
  replay-drop id gone now (h ∷ hs) =
      ground (arith, replay-drop id gone now hs, replay-drop id gone (some (to h)) hs)

  pub drop-IsChained :
      (id gone : ℕ) (now : Option S) (hs : List H)
      → IsChained id now hs
      → id ≢ gone
      → IsChained id now (keep_if (λ h. not (key h == gone)) hs)
  drop-IsChained id gone now [] c ne = tt
  drop-IsChained id gone now (h ∷ hs) c ne = elim (Bool-cases (key h == gone)) [
    | inl e ↦
        let other : (key h == id) ≡ false = ground arith in
        rw e (drop-IsChained id gone now hs (rw other at c.1) ne)
    | inr e ↦ rw e (c.0, drop-IsChained id gone (enter id now h) hs c.1 ne)
  ]

  pub drop_all-IsChained :
      (id : ℕ) (now : Option S) (hs : List H)
      → IsChained id now (keep_if (λ h. not (key h == id)) hs)
  drop_all-IsChained id now [] = tt
  drop_all-IsChained id now (h ∷ hs) = elim (Bool-cases (key h == id)) [
    | inl e ↦ rw e (drop_all-IsChained id now hs)
    | inr e ↦ rw e (λ same. absurd (ground arith), rw e (drop_all-IsChained id now hs))
  ]
