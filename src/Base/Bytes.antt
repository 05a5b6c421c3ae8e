-- ===== src/Base/Bytes.antt =====
-- `to_be_bytes` and `from_be_bytes`: a word of `n` bytes and its big-endian bytes.

use Prim.Native.Nat.{ℕ, zero, suc, ◌+◌, ◌*◌, ◌/◌, ◌%◌, ◌^◌, ◌≤◌, ◌<◌}
use mathlib.Core.Path.{◌≡◌, refl, ◌∙◌, sym}
use mathlib.Core.List.{List, [], ◌∷◌, ◌++◌, append-nil, append_assoc}
use native.Mathlib.Omega.{arith}
use native.Mathlib.Nat.{add-zero, zero-add, le_trans, pow-suc}
use arbor.Base.Lists.{length, All, length-append, All-append}

abbrev pub IsByte : ℕ → Type 0
IsByte b = b < 256

-- Every element of a byte string is a byte.
abbrev pub IsBytes : List ℕ → Type 0
IsBytes bs = All IsByte bs

-- The last `n` bytes of a number, the most significant first.
unfoldable pub to_be_bytes : ℕ → ℕ → List ℕ
to_be_bytes zero v = []
to_be_bytes (suc n) v = to_be_bytes n (v / 256) ++ (v % 256 ∷ [])

unfoldable pub from_be : ℕ → List ℕ → ℕ
from_be acc [] = acc
from_be acc (b ∷ bs) = from_be (acc * 256 + b) bs

unfoldable pub from_be_bytes : List ℕ → ℕ
unfolding from_be
from_be_bytes bs = from_be 0 bs

pub length-to_be_bytes : (n v : ℕ) → length (to_be_bytes n v) ≡ n
unfolding to_be_bytes
length-to_be_bytes zero v = refl
length-to_be_bytes (suc n) v =
    omega (
      arith,
      length-append (to_be_bytes n (v / 256)) (v % 256 ∷ []),
      length-to_be_bytes n (v / 256),
    )

pub to_be_bytes-IsBytes : (n v : ℕ) → IsBytes (to_be_bytes n v)
unfolding to_be_bytes
to_be_bytes-IsBytes zero v = tt
to_be_bytes-IsBytes (suc n) v =
    All-append IsByte (to_be_bytes n (v / 256)) (v % 256 ∷ []) (to_be_bytes-IsBytes n (v / 256))
      (omega arith)

from_be-append : (acc b : ℕ) (xs : List ℕ) → from_be acc (xs ++ (b ∷ [])) ≡ from_be acc xs * 256 + b
unfolding from_be
from_be-append acc b [] = refl
from_be-append acc b (x ∷ xs) = from_be-append (acc * 256 + x) b xs

high_lt : (v n : ℕ) → v < 256 ^ suc n → v / 256 < 256 ^ n
high_lt v n h = omega (arith, pow-suc 256 n)

pub from_be_bytes-to_be_bytes : (n v : ℕ) → v < 256 ^ n → from_be_bytes (to_be_bytes n v) ≡ v
unfolding from_be_bytes to_be_bytes
from_be_bytes-to_be_bytes zero v h = omega arith
from_be_bytes-to_be_bytes (suc n) v h =
    from_be-append 0 (v % 256) (to_be_bytes n (v / 256))
    ∙ omega (arith, from_be_bytes-to_be_bytes n (v / 256) (high_lt v n h))

to_be_bytes-snoc :
    (n acc b : ℕ) (bs : List ℕ)
    → b < 256
    → to_be_bytes (suc n) (acc * 256 + b) ++ bs ≡ to_be_bytes n acc ++ (b ∷ bs)
unfolding to_be_bytes
to_be_bytes-snoc n acc b bs h =
    let q : (acc * 256 + b) / 256 ≡ acc = omega arith in
    let r : (acc * 256 + b) % 256 ≡ b = omega arith in
    rw (q, r) (append_assoc (to_be_bytes n acc) (b ∷ []) bs)

from_be_split :
    (n acc : ℕ) (bs : List ℕ)
    → IsBytes bs
    → to_be_bytes (length bs + n) (from_be acc bs) ≡ to_be_bytes n acc ++ bs
unfolding from_be
from_be_split n acc [] h = rw zero-add (sym (append-nil _))
from_be_split n acc (b ∷ bs) h =
    let e : suc (length bs) + n ≡ length bs + suc n = omega arith in
    rw e (from_be_split (suc n) (acc * 256 + b) bs h.1 ∙ to_be_bytes-snoc n acc b bs h.0)

pub to_be_bytes-from_be_bytes :
    (bs : List ℕ) → IsBytes bs → to_be_bytes (length bs) (from_be_bytes bs) ≡ bs
unfolding from_be_bytes to_be_bytes
to_be_bytes-from_be_bytes bs h = rw add-zero at (from_be_split 0 0 bs h)

digit_bound : (acc b p : ℕ) → b < 256 → (acc * 256 + b + 1) * p ≤ (acc + 1) * (p * 256)
digit_bound acc b p h = grind arith

from_be-lt : (acc : ℕ) (bs : List ℕ) → IsBytes bs → from_be acc bs < (acc + 1) * 256 ^ length bs
unfolding from_be
from_be-lt acc [] h = omega arith
from_be-lt acc (b ∷ bs) h =
    rw (pow-suc 256 (length bs))
      (le_trans (from_be-lt (acc * 256 + b) bs h.1) (digit_bound acc b (256 ^ length bs) h.0))

pub from_be_bytes-lt : (bs : List ℕ) → IsBytes bs → from_be_bytes bs < 256 ^ length bs
unfolding from_be_bytes
from_be_bytes-lt bs h = omega (arith, from_be-lt 0 bs h)
