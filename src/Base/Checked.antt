-- ===== src/Base/Checked.antt =====
-- Checked and saturating arithmetic on machine words of `bits` bits.
use Prim.Native.Nat.{ℕ, ◌+◌, ◌-◌, ◌*◌, ◌^◌, min}
use mathlib.Core.Option.{Option, none, some}
use arbor.Base.Tests.{ltb, if◌then◌else◌}

-- `a.checked_add(b)`
abbrev pub checked_add : ℕ → ℕ → ℕ → Option ℕ
checked_add bits a b = if ltb (a + b) (2 ^ bits) then some (a + b) else none

abbrev pub saturating_add : ℕ → ℕ → ℕ → ℕ
saturating_add bits a b = min (a + b) (2 ^ bits - 1)

abbrev pub saturating_mul : ℕ → ℕ → ℕ → ℕ
saturating_mul bits a b = min (a * b) (2 ^ bits - 1)
