-- ===== src/Chain/Fee.antt =====
-- `next_base_fee` of crates/arbor-chain/src/lib.rs: the EIP-1559 base fee of the next block.
use arbor.Base.{
  ℕ, ◌+◌, ◌-◌, ◌*◌, ◌/◌, ◌^◌, ◌≤◌, ◌<◌, ◌↔◌, ◌⊎◌, ◌≡◌, inl, inr, ltb, ◌==◌, ◌||◌, if◌then◌else◌,
  arith,
}
use Prim.Native.Nat.{max}
use native.Mathlib.Decide.{dec_lt}
use native.Mathlib.Nat.{mul-zero, zero-div, div-le_of_le-mul, div-div-eq-div-mul}
use arbor.Base.Checked.{saturating_add, saturating_mul}
use arbor.Primitives.{DomainBlockHeader}

unfoldable pub next_base_fee : DomainBlockHeader → ℕ
next_base_fee parent =
    let target = parent.gas_limit / 2 in
    let parent_fee = parent.base_fee_per_gas in
    if target == 0 || parent.gas_used == target
    then parent_fee
    else if ltb target parent.gas_used
    then (let increase =
          max (saturating_mul 128 parent_fee (parent.gas_used - target) / target / 8) 1 in
        saturating_add 128 parent_fee increase)
    else (let decrease = saturating_mul 128 parent_fee (target - parent.gas_used) / target / 8 in
        parent_fee - decrease)

-- A share of the target moves at most that share of the fee.
scaled_le :
    (fee delta target : ℕ)
    → delta ≤ target
    → 0 < target
    → saturating_mul 128 fee delta / target ≤ fee
scaled_le fee delta target h pos =
    let product : fee * delta ≤ target * fee = grind (arith, h) in
    div-le_of_le-mul target (omega (arith, product))

-- The share of an eighth of a fee that some gas is of the target, rounded down.
abbrev pub eighth_of : ℕ → ℕ → ℕ → ℕ
eighth_of fee gas target = fee * gas / (target * 8)

eighth_of-none : (fee target : ℕ) → eighth_of fee 0 target ≡ 0
eighth_of-none fee target = simp (mul-zero, zero-div)

-- The two divisions of the code are one, and the product does not saturate.
scaled_eq :
    (fee delta target : ℕ)
    → fee < 2 ^ 64
    → delta < 2 ^ 64
    → saturating_mul 128 fee delta / target / 8 ≡ eighth_of fee delta target
scaled_eq fee delta target small_fee small_delta =
    let exact : saturating_mul 128 fee delta ≡ fee * delta =
      grind (arith, small_fee, small_delta) in
    rw exact (div-div-eq-div-mul (fee * delta) target 8)

-- From one fee to the next: above the target up, by one at least, and else down.
abbrev pub MovesFee : (fee used target next : ℕ) → Type 0
MovesFee fee used target next =
    ((target < used) × (next ≡ fee + max (eighth_of fee (used - target) target) 1))
    ⊎ ((used ≤ target) × (next + eighth_of fee (target - used) target ≡ fee))

next_base_fee-MovesFee :
    (parent : DomainBlockHeader)
    → parent.base_fee_per_gas < 2 ^ 64
    → parent.gas_limit < 2 ^ 64
    → parent.gas_used ≤ parent.gas_limit / 2 * 2
    → MovesFee parent.base_fee_per_gas parent.gas_used (parent.gas_limit / 2) (next_base_fee parent)
unfolding next_base_fee
next_base_fee-MovesFee parent small bounded used =
    let fee = parent.base_fee_per_gas in
    let target = parent.gas_limit / 2 in
    let up = scaled_le fee (parent.gas_used - target) target in
    let down = scaled_le fee (target - parent.gas_used) target in
    let up_eq =
      scaled_eq fee (parent.gas_used - target) target small (omega (arith, bounded, used)) in
    let down_eq = scaled_eq fee (target - parent.gas_used) target small (omega (arith, bounded)) in
    elim (dec_lt target parent.gas_used) [
      | yes over ↦ inl (over, ground (arith, over, up, up_eq, small))
      | no within ↦ elim (dec_lt parent.gas_used target) [
        | yes under ↦ inr (omega (arith, within), ground (arith, under, down, down_eq))
        | no level ↦
            let gone : target - parent.gas_used ≡ 0 = omega (arith, within, level) in
            inr (
              omega (arith, within),
              rw gone (ground (arith, eighth_of-none fee target, level, within)),
            )
      ]
    ]

-- Let the gas limit and the fee be below 2^64, and the gas used at most twice the target, which is half
-- the limit. Above the target the fee rises by the share of an eighth of it that the gas over the target
-- is of the target, rounded down, and by one at least; up to the target it falls by the share for the
-- gas that is missing. So it rises exactly above the target, by at most an eighth, or by one where that
-- is less, and falls by at most an eighth.
pub next_base_fee_lem :
    (parent : DomainBlockHeader)
    → parent.base_fee_per_gas < 2 ^ 64
    → parent.gas_limit < 2 ^ 64
    → parent.gas_used ≤ parent.gas_limit / 2 * 2
    → MovesFee parent.base_fee_per_gas parent.gas_used (parent.gas_limit / 2) (next_base_fee parent)
      × (parent.gas_limit / 2 < parent.gas_used ↔ parent.base_fee_per_gas < next_base_fee parent)
      × (next_base_fee parent ≤ parent.base_fee_per_gas + max (parent.base_fee_per_gas / 8) 1)
      × (parent.base_fee_per_gas ≤ next_base_fee parent + parent.base_fee_per_gas / 8)
unfolding next_base_fee
next_base_fee_lem parent small bounded used =
    let fee = parent.base_fee_per_gas in
    let target = parent.gas_limit / 2 in
    let up = scaled_le fee (parent.gas_used - target) target in
    let down = scaled_le fee (target - parent.gas_used) target in
    let (rises, most, least) : (target < parent.gas_used ↔ fee < next_base_fee parent)
        × (next_base_fee parent ≤ fee + max (fee / 8) 1)
        × (fee ≤ next_base_fee parent + fee / 8) =
      ground (arith, up, down) in
    (next_base_fee-MovesFee parent small bounded used, rises, most, least)
