-- ===== src/State/DomainHeads/Split.antt =====
-- Splitting a sorted range of keys by their next bit.
use arbor.Base.{
  ℕ, zero, suc, ◌+◌, ◌-◌, ◌*◌, ◌/◌, ◌%◌, ◌^◌, ◌≤◌, ◌<◌, ◌≡◌, ◌≢◌, ◌⊎◌, refl, sym, ap, ◌∙◌, inl, inr,
  none, [], ◌∷◌, arith,
}
use native.Mathlib.Nat.{
  div-div-eq-div-mul, pow-zero, pow-suc, le-div_iff_mul-le, div-mul-le_self, le_trans,
}
use arbor.Base.Ord.{nat_ord, nat_cmp_eq}
use arbor.Base.BTreeMap.{BTreeMap, get}
use arbor.Base.BTreeMap.Order.{IsOrdered, Above}
use arbor.Base.BTreeMap.Keys.{Every}
use arbor.State.DomainHeads.{smt_depth, byte_at, bit, left_part, right_part}

swap_factors : (x y z : ℕ) → x * y * z ≡ x * z * y
swap_factors x y z = grind arith

pow-add : (b m n : ℕ) → b ^ (m + n) ≡ b ^ m * b ^ n
pow-add b zero n = let e : 0 + n ≡ n = omega arith in rw (e, pow-zero b) (omega arith)
pow-add b (suc m) n =
    let e : suc m + n ≡ suc (m + n) = omega arith in
    rw (e, pow-suc b (m + n), pow-suc b m, pow-add b m n) (swap_factors (b ^ m) (b ^ n) b)

pow_bytes : (a : ℕ) → 256 ^ a ≡ 2 ^ (8 * a)
pow_bytes zero = refl
pow_bytes (suc a) =
    let e : 8 * suc a ≡ 8 + 8 * a = omega arith in
    rw e (omega (arith, pow-suc 256 a, pow-add 2 8 (8 * a), pow_bytes a))

byte_bit : (q j : ℕ) → j < 8 → q % 256 / 2 ^ j % 2 ≡ q / 2 ^ j % 2
byte_bit q zero h = omega arith
byte_bit q (suc zero) h = omega arith
byte_bit q (suc (suc zero)) h = omega arith
byte_bit q (suc (suc (suc zero))) h = omega arith
byte_bit q (suc (suc (suc (suc zero)))) h = omega arith
byte_bit q (suc (suc (suc (suc (suc zero))))) h = omega arith
byte_bit q (suc (suc (suc (suc (suc (suc zero)))))) h = omega arith
byte_bit q (suc (suc (suc (suc (suc (suc (suc zero))))))) h = omega arith
byte_bit q (suc (suc (suc (suc (suc (suc (suc (suc j)))))))) h = absurd (omega arith)

-- The bit at a depth is the number's binary digit at the height above the leaves.
pub bit-eq : (key n : ℕ) → n < 256 → bit key (255 - n) ≡ key / 2 ^ n % 2
unfolding bit byte_at
bit-eq key n h =
    let high : 31 - (255 - n) / 8 ≡ n / 8 = omega arith in
    let low : 7 - (255 - n) % 8 ≡ n % 8 = omega arith in
    let whole : 8 * (n / 8) + n % 8 ≡ n = omega arith in
    let power : 2 ^ (8 * (n / 8)) * 2 ^ (n % 8) ≡ 2 ^ n =
      sym (pow-add 2 (8 * (n / 8)) (n % 8)) ∙ ap (λ k. 2 ^ k) whole in
    let shifts : key / 2 ^ (8 * (n / 8)) / 2 ^ (n % 8) ≡ key / 2 ^ n =
      div-div-eq-div-mul key (2 ^ (8 * (n / 8))) (2 ^ (n % 8)) ∙ ap (λ k. key / k) power in
    rw (high, low, pow_bytes (n / 8))
      (byte_bit (key / 2 ^ (8 * (n / 8))) (n % 8) (omega arith) ∙ ap (λ k. k % 2) shifts)

-- Sorted keys that agree above the height `n + 1`.
abbrev pub Share : ℕ → ℕ → BTreeMap ℕ ℕ → Type 0
Share n prefix m = Every (λ k v. k / 2 ^ n ≡ prefix) m

half : (key n prefix : ℕ) → key / 2 ^ suc n ≡ prefix → key / 2 ^ n / 2 ≡ prefix
half key n prefix h = div-div-eq-div-mul key (2 ^ n) 2 ∙ ap (λ k. key / k) (sym (pow-suc 2 n)) ∙ h

power_pos : (n : ℕ) → 0 < 2 ^ n
power_pos zero = omega arith
power_pos (suc n) = omega (arith, pow-suc 2 n, power_pos n)

div_mono : (a b c : ℕ) → 0 < c → a ≤ b → a / c ≤ b / c
div_mono a b c pos h =
    (le-div_iff_mul-le {k = c} {x = a / c} {y = b} pos).1 (le_trans (div-mul-le_self a c) h)

module _ (n prefix : ℕ) (h : n < 256) where
  -- What the next bit says of a key with this prefix.
  pub digit :
      (key : ℕ)
      → key / 2 ^ suc n ≡ prefix
      → ((bit key (smt_depth - suc n) ≡ 0) × (key / 2 ^ n ≡ 2 * prefix))
        ⊎ ((bit key (smt_depth - suc n) ≡ 1) × (key / 2 ^ n ≡ 2 * prefix + 1))
  digit key e =
      let depth : smt_depth - suc n ≡ 255 - n = omega arith in
      rw (depth, bit-eq key n h) (ground (arith, half key n prefix e))

  pub left-Share :
      (m : BTreeMap ℕ ℕ)
      → Share (suc n) prefix m
      → Share n (2 * prefix) (left_part (smt_depth - suc n) m)
  unfolding left_part
  left-Share [] s = tt
  left-Share ((k, v) ∷ m) s = ground (arith, left-Share m s.1, digit k s.0)

  ones_after :
      (j : ℕ) (m : BTreeMap ℕ ℕ)
      → j / 2 ^ n ≡ 2 * prefix + 1
      → Above j m
      → Share (suc n) prefix m
      → Share n (2 * prefix + 1) m
  ones_after j [] e a s = tt
  ones_after j ((k, v) ∷ m) e a s =
      let above : j ≤ k = ground (arith, a.0) in
      (
        omega (arith, half k n prefix s.0, div_mono j k (2 ^ n) (power_pos n) above, e),
        ones_after j m e a.1 s.1,
      )

  pub right-Share :
      (m : BTreeMap ℕ ℕ)
      → IsOrdered m
      → Share (suc n) prefix m
      → Share n (2 * prefix + 1) (right_part (smt_depth - suc n) m)
  unfolding right_part
  right-Share [] o s = tt
  right-Share ((k, v) ∷ m) o s = elim (digit k s.0) [
    | inl (b, e) ↦ rw (b, right_part) (right-Share m o.1 s.1)
    | inr (b, e) ↦ rw (b, right_part) (e, ones_after k m e o.0 s.1)
  ]

  -- A key with another prefix is not there.
  get-Share : (q key : ℕ) (m : BTreeMap ℕ ℕ) → Share n q m → key / 2 ^ n ≢ q → get key m ≡ none
  unfolding get
  get-Share q key [] s ne = refl
  get-Share q key ((k, v) ∷ m) s ne =
      ground (arith, get-Share q key m s.1 ne, nat_cmp_eq key k, s.0)

  -- A key of the range is found in the part that its bit selects.
  pub get-left :
      (key : ℕ) (m : BTreeMap ℕ ℕ)
      → key / 2 ^ n ≡ 2 * prefix
      → IsOrdered m
      → Share (suc n) prefix m
      → get key m ≡ get key (left_part (smt_depth - suc n) m)
  unfolding get left_part
  get-left key [] e o s = refl
  get-left key ((k, v) ∷ m) e o s = elim (digit k s.0) [
    | inl (b, f) ↦ ground (arith, b, get-left key m e o.1 s.1)
    | inr (b, f) ↦ ground (
      arith,
      b,
      get-Share (2 * prefix + 1) key ((k, v) ∷ m) (f, ones_after k m f o.0 s.1) (omega (arith, e)),
    )
  ]

  pub get-right :
      (key : ℕ) (m : BTreeMap ℕ ℕ)
      → key / 2 ^ n ≡ 2 * prefix + 1
      → Share (suc n) prefix m
      → get key m ≡ get key (right_part (smt_depth - suc n) m)
  unfolding get right_part
  get-right key [] e s = refl
  get-right key ((k, v) ∷ m) e s = elim (digit k s.0) [
    | inl (b, f) ↦ ground (arith, b, f, e, get-right key m e s.1, nat_cmp_eq key k)
    | inr (b, f) ↦ ground (arith, b)
  ]

left-Above : (d j : ℕ) (m : BTreeMap ℕ ℕ) → Above j m → Above j (left_part d m)
unfolding left_part
left-Above d j [] a = tt
left-Above d j ((k, v) ∷ m) a = ground (arith, left-Above d j m a.1)

pub left-IsOrdered : (d : ℕ) (m : BTreeMap ℕ ℕ) → IsOrdered m → IsOrdered (left_part d m)
unfolding left_part
left-IsOrdered d [] o = tt
left-IsOrdered d ((k, v) ∷ m) o = ground (arith, left-IsOrdered d m o.1, left-Above d k m o.0)

pub right-IsOrdered : (d : ℕ) (m : BTreeMap ℕ ℕ) → IsOrdered m → IsOrdered (right_part d m)
unfolding right_part
right-IsOrdered d [] o = tt
right-IsOrdered d ((k, v) ∷ m) o = ground (arith, right-IsOrdered d m o.1)
