-- ===== src/Mempool/Price.antt =====
-- The fee rule for replacing a transaction of the same nonce, in saturating 128-bit arithmetic.
use arbor.Base.{ℕ, ◌+◌, ◌-◌, ◌*◌, ◌/◌, ◌%◌, ◌^◌, ◌<◌, ◌≡◌, ap, ◌∙◌, min, Bool, ◌&&◌, leb, arith}
use arbor.Primitives.{Eip1559Transaction}

abbrev pub u128_max : ℕ
u128_max = 2 ^ 128 - 1

abbrev saturating_mul : ℕ → ℕ → ℕ
saturating_mul a b = min (a * b) u128_max

abbrev saturating_add : ℕ → ℕ → ℕ
saturating_add a b = min (a + b) u128_max

unfoldable pub replacement_min : ℕ → ℕ → ℕ
replacement_min value bump_percent =
    let quotient = value / 100 in
    let remainder = value % 100 in
    let bump =
      saturating_add (saturating_mul quotient bump_percent)
        ((saturating_mul remainder bump_percent + 99) / 100) in
    saturating_add value bump

unfoldable pub replacement_priced : Eip1559Transaction → Eip1559Transaction → ℕ → Bool
replacement_priced old new bump_percent =
    leb (replacement_min old.max_fee_per_gas bump_percent) new.max_fee_per_gas
    && leb (replacement_min old.max_priority_fee_per_gas bump_percent) new.max_priority_fee_per_gas

split_product : (q r p : ℕ) → (100 * q + r) * p ≡ 100 * (q * p) + r * p
split_product q r p = grind arith

small_product : (r p : ℕ) → r < 100 → p < 256 → r * p < 100 * 256
small_product r p hr hp = grind arith

-- The least fee of a replacement is the old fee and `bump_percent` percent of it, rounded up, cut off
-- at the largest 128-bit number: splitting off the hundreds loses nothing, though either product may
-- saturate on its own.
pub replacement_min-eq :
    (value bump_percent : ℕ)
    → value < 2 ^ 128
    → bump_percent < 256
    → replacement_min value bump_percent ≡ min (value + (value * bump_percent + 99) / 100) u128_max
unfolding replacement_min
replacement_min-eq value p hv hp =
    let e : value ≡ 100 * (value / 100) + value % 100 = omega arith in
    let product : value * p ≡ 100 * (value / 100 * p) + value % 100 * p =
      ap (λ v. v * p) e ∙ split_product (value / 100) (value % 100) p in
    omega (arith, product, small_product (value % 100) p (omega arith) hp)
