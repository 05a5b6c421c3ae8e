-- ===== src/Crypto/Search.antt =====
-- The binary search of `verify_quorum_certificate`, crates/arbor-crypto/src/lib.rs.
use arbor.Base.{
  ℕ, zero, suc, ◌+◌, ◌-◌, ◌/◌, ◌≤◌, ◌<◌, ◌≡◌, refl, true, some, List, [], ◌∷◌, map, length, arith,
}
use native.Mathlib.Decide.{dec_lt, dec_le}
use arbor.Primitives.{Validator}
use arbor.Codec.Limits.{strictly_sorted}
use arbor.Crypto.{find_validator, validator_at, narrow}
use arbor.Crypto.Power.{sorted-AllAbove, above-StandsIn}

validator_at-some :
    (i : ℕ) (vs : List Validator) → i < length vs → (v : Validator) × (validator_at i vs ≡ some v)
unfolding validator_at
validator_at-some i [] h = absurd (omega (arith, h))
validator_at-some zero (w ∷ vs) h = (w, refl)
validator_at-some (suc i) (w ∷ vs) h = validator_at-some i vs (omega (arith, h))

validator_at-below :
    (i : ℕ) (vs : List Validator) {v : Validator} → validator_at i vs ≡ some v → i < length vs
unfolding validator_at
validator_at-below i [] h = absurd (ground (arith, h))
validator_at-below zero (w ∷ vs) h = omega arith
validator_at-below (suc i) (w ∷ vs) h = omega (arith, validator_at-below i vs h)

validator_at-ascends :
    (i j : ℕ) (vs : List Validator) {v w : Validator}
    → strictly_sorted (map (λ x. x.id) vs) ≡ true
    → validator_at i vs ≡ some v
    → validator_at j vs ≡ some w
    → i < j
    → v.id < w.id
unfolding validator_at
validator_at-ascends i j [] o h k l = absurd (ground (arith, h))
validator_at-ascends i zero (x ∷ vs) o h k l = absurd (omega (arith, l))
validator_at-ascends zero (suc j) (x ∷ vs) {v} o h k l =
    let (above, _) = sorted-AllAbove x.id (map (λ x. x.id) vs) o in
    let same : x ≡ v = ground (arith, h) in above-StandsIn v.id j vs (rw same at above) k
validator_at-ascends (suc i) (suc j) (x ∷ vs) o h k l =
    let (_, rest) = sorted-AllAbove x.id (map (λ x. x.id) vs) o in
    validator_at-ascends i j vs rest h k (omega (arith, l))

validator_at-precedes :
    (i j : ℕ) (vs : List Validator) {v w : Validator}
    → strictly_sorted (map (λ x. x.id) vs) ≡ true
    → validator_at i vs ≡ some v
    → validator_at j vs ≡ some w
    → v.id < w.id
    → i < j
validator_at-precedes i j vs {v} {w} o h k l = elim (dec_lt i j) [
  | yes less ↦ less
  | no not_less ↦ elim (dec_lt j i) [
    | yes more ↦ absurd (omega (arith, l, validator_at-ascends j i vs o k h more))
    | no not_more ↦
        let at : i ≡ j = omega (arith, not_less, not_more) in
        let same : v ≡ w = ground (arith, h, rw (← at) at k) in absurd (omega (arith, rw same at l))
  ]
]

narrow-eq :
    (fuel base size k : ℕ) (vs : List Validator) {v : Validator}
    → strictly_sorted (map (λ x. x.id) vs) ≡ true
    → validator_at k vs ≡ some v
    → size ≤ fuel
    → base ≤ k
    → k < base + size
    → base + size ≤ length vs
    → narrow fuel v.id vs base size ≡ k
unfolding narrow
narrow-eq zero base size k vs o h f b t l = absurd (omega (arith, f, b, t))
narrow-eq (suc fuel) base size k vs {v} o h f b t l = elim (dec_le size 1) [
  | yes one ↦ ground (arith, one, b, t)
  | no more ↦
      let half = size / 2 in
      let (w, middle) = validator_at-some (base + half) vs (omega (arith, more, l)) in
      elim (dec_lt v.id w.id) [
        | yes under ↦
            let before : k < base + half =
              validator_at-precedes k (base + half) vs o h middle under in
            let ih =
              narrow-eq fuel base (size - half) k vs o h (omega (arith, more, f)) b
                (omega (arith, before)) (omega (arith, l)) in
            ground (arith, more, middle, under, ih)
        | no over ↦
            let from : base + half ≤ k = elim (dec_lt k (base + half)) [
              | yes below ↦ absurd (over (validator_at-ascends k (base + half) vs o h middle below))
              | no past ↦ omega (arith, past)
            ] in
            let ih =
              narrow-eq fuel (base + half) (size - half) k vs o h (omega (arith, more, f)) from
                (omega (arith, t)) (omega (arith, l)) in
            ground (arith, more, middle, over, ih)
      ]
]

-- The search finds every validator of a set in ascending order of identifiers.
find_validator_complete :
    (k : ℕ) (vs : List Validator) {v : Validator}
    → strictly_sorted (map (λ x. x.id) vs) ≡ true
    → validator_at k vs ≡ some v
    → find_validator v.id vs ≡ some v
unfolding find_validator
find_validator_complete k vs o h =
    let there =
      narrow-eq (length vs) 0 (length vs) k vs o h (omega arith) (omega arith)
        (omega (arith, validator_at-below k vs h)) (omega arith) in
    rw (find_validator, there) (ground (arith, h))
