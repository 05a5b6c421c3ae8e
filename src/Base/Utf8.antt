-- ===== src/Base/Utf8.antt =====
-- `std::str::from_utf8(value).is_ok()`: the well-formed byte sequences of UTF-8, as an automaton
-- that knows how many continuation bytes are due and the range that the next one lies in.
use Prim.Native.Nat.{ℕ, ◌-◌}
use mathlib.Core.Bool.{Bool, ◌&&◌}
use mathlib.Core.List.{List, [], ◌∷◌}
use arbor.Base.Tests.{ltb, leb, ◌==◌, if◌then◌else◌}

abbrev between : ℕ → ℕ → ℕ → Bool
between lo hi b = leb lo b && leb b hi

pub record Due : Type 0 where
  pub count : ℕ
  pub lo : ℕ
  pub hi : ℕ

abbrev due : ℕ → ℕ → ℕ → Due
due n l h = record { count = n; lo = l; hi = h }

-- What a first byte of 0x80 or more announces; a count of 4 marks a byte that cannot stand here.
lead : ℕ → Due
lead b =
    if between 0xc2 0xdf b
    then due 1 0x80 0xbf
    else if b == 0xe0
    then due 2 0xa0 0xbf
    else if b == 0xed
    then due 2 0x80 0x9f
    else if between 0xe1 0xef b
    then due 2 0x80 0xbf
    else if b == 0xf0
    then due 3 0x90 0xbf
    else if between 0xf1 0xf3 b
    then due 3 0x80 0xbf
    else if b == 0xf4
    then due 3 0x80 0x8f
    else due 4 0 0

next : Due → ℕ → Due
unfolding lead
next d b =
    if d.count == 0
    then if ltb b 0x80 then due 0 0 0 else lead b
    else if between d.lo d.hi b
    then due (d.count - 1) 0x80 0xbf
    else due 4 0 0

accepts : Due → List ℕ → Bool
unfolding next
accepts d [] = d.count == 0
accepts d (b ∷ bs) = ltb d.count 4 && accepts (next d b) bs

unfoldable pub is_utf8 : List ℕ → Bool
unfolding accepts
is_utf8 bs = accepts (due 0 0 0) bs
