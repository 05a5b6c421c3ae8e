-- ===== src/Crypto/Power.antt =====
-- Voting power of the validators whose identifiers pass a test.
use arbor.Base.{
  Option-cases, length, subst, inl, inr, ℕ, zero, suc, ◌+◌, ◌≤◌, ◌<◌, ◌≡◌, refl, Bool, true, false,
  ◌&&◌, ◌||◌, some, List, [], ◌∷◌, map, All, arith, ◌==◌, if◌then◌else◌,
}
use arbor.Primitives.{Validator}
use arbor.Codec.Limits.{strictly_sorted}
use arbor.Crypto.{find_validator, validator_at, narrow}

-- The power of the validators that pass.
unfoldable pub power_where : (ℕ → Bool) → List Validator → ℕ
power_where p [] = 0
power_where p (v ∷ vs) = (if p v.id then v.power else 0) + power_where p vs

abbrev pub total_power : List Validator → ℕ
total_power vs = power_where (λ id. true) vs

abbrev pub is_in : List ℕ → ℕ → Bool
is_in [] id = false
is_in (x ∷ xs) id = x == id || is_in xs id

-- All identifiers are above `id`.
abbrev pub AllAbove : ℕ → List ℕ → Type 0
AllAbove id xs = All (λ x. id < x) xs

above_trans : (a b : ℕ) (xs : List ℕ) → a < b → AllAbove b xs → AllAbove a xs
above_trans a b [] h k = tt
above_trans a b (x ∷ xs) h k = (omega (arith, h, k.0), above_trans a b xs h k.1)

-- A strictly ascending list has its head below the rest, and ascends behind it.
pub sorted-AllAbove :
    (x : ℕ) (xs : List ℕ)
    → strictly_sorted (x ∷ xs) ≡ true
    → AllAbove x xs × (strictly_sorted xs ≡ true)
unfolding strictly_sorted
sorted-AllAbove x [] h = (tt, refl)
sorted-AllAbove x (y ∷ ys) h =
    let facts : (x < y) × (strictly_sorted (y ∷ ys) ≡ true) = ground (arith, h) in
    let rest = sorted-AllAbove y ys facts.1 in
    ((facts.0, above_trans x y ys facts.0 rest.0), facts.1)

pub not_in-AllAbove : (x : ℕ) (xs : List ℕ) → AllAbove x xs → is_in xs x ≡ false
not_in-AllAbove x [] h = refl
not_in-AllAbove x (y ∷ ys) h = ground (arith, h.0, not_in-AllAbove x ys h.1)

-- Inclusion and exclusion: what two sets of signers share.
pub power-and :
    (p q : ℕ → Bool) (vs : List Validator)
    → power_where p vs + power_where q vs ≤ total_power vs + power_where (λ id. p id && q id) vs
unfolding power_where
power-and p q [] = omega arith
power-and p q (v ∷ vs) = ground (arith, power-and p q vs)

-- One more signer that no other validator equals.
pub power-absent :
    (s : ℕ) (p : ℕ → Bool) (vs : List Validator)
    → AllAbove s (map (λ v. v.id) vs)
    → power_where (λ id. s == id || p id) vs ≡ power_where p vs
unfolding power_where
power-absent s p [] h = refl
power-absent s p (v ∷ vs) h = ground (arith, h.0, power-absent s p vs h.1)

-- A validator that stands in a list.
abbrev pub StandsIn : Validator → List Validator → Type 0
StandsIn v vs = (i : ℕ) × (validator_at i vs ≡ some v)

find_validator-StandsIn :
    (s : ℕ) (vs : List Validator) {v : Validator}
    → find_validator s vs ≡ some v
    → StandsIn v vs × (v.id ≡ s)
unfolding find_validator
find_validator-StandsIn s vs {v} f =
    let i = narrow (length vs) s vs 0 (length vs) in
    elim (Option-cases (validator_at i vs)) [
      | inl e ↦ absurd (ground (arith, e, f))
      | inr (w, e) ↦
          let same : w ≡ v = ground (arith, e, f) in ((i, rw (← same) e), ground (arith, e, f))
    ]

pub above-StandsIn :
    (x i : ℕ) (vs : List Validator) {v : Validator}
    → AllAbove x (map (λ w. w.id) vs)
    → validator_at i vs ≡ some v
    → x < v.id
unfolding validator_at
above-StandsIn x i [] a h = absurd (ground (arith, h))
above-StandsIn x zero (w ∷ vs) {v} a h = let same : w ≡ v = ground (arith, h) in rw same at a.0
above-StandsIn x (suc i) (w ∷ vs) a h = above-StandsIn x i vs a.1 h

power_at :
    (i : ℕ) (p : ℕ → Bool) (vs : List Validator) (v : Validator)
    → strictly_sorted (map (λ w. w.id) vs) ≡ true
    → validator_at i vs ≡ some v
    → p v.id ≡ false
    → power_where (λ id. v.id == id || p id) vs ≡ v.power + power_where p vs
unfolding power_where validator_at
power_at i p [] v o f n = absurd (ground (arith, f))
power_at zero p (w ∷ vs) v o f n =
    let (above, rest) = sorted-AllAbove w.id (map (λ w. w.id) vs) o in
    let same : w ≡ v = ground (arith, f) in
    let absent = power-absent v.id p vs (rw same at above) in ground (arith, same, absent, n)
power_at (suc i) p (w ∷ vs) v o f n =
    let (above, rest) = sorted-AllAbove w.id (map (λ w. w.id) vs) o in
    let apart = above-StandsIn w.id i vs above f in
    ground (arith, apart, power_at i p vs v rest f n)

pub power-add :
    (s : ℕ) (p : ℕ → Bool) (vs : List Validator) (v : Validator)
    → strictly_sorted (map (λ w. w.id) vs) ≡ true
    → find_validator s vs ≡ some v
    → p s ≡ false
    → power_where (λ id. s == id || p id) vs ≡ v.power + power_where p vs
power-add s p vs v o f n =
    let ((i, at), named) = find_validator-StandsIn s vs f in
    subst (λ t. power_where (λ id. t == id || p id) vs ≡ v.power + power_where p vs) named
      (power_at i p vs v o at (rw named n))
