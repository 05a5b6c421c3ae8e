-- ===== src/Base/Ord.antt =====
-- `trait Ord`: a total order as an interface, with the keys of the program's maps.
use Prim.Native.Nat.{ℕ, compare, Ordering}
use Prim.Native.Nat.Ordering.{lt, eq, gt}
use mathlib.Core.Path.{◌≡◌}
use mathlib.Core.Logic.{◌↔◌}
use mathlib.Core.Bool.{Bool, true, false}
use native.Mathlib.Omega.{arith}

pub record Ord {ℓ} (K : Type ℓ) : Type ℓ where
  pub cmp : K → K → Ordering
  pub cmp_eq : (a b : K) → (cmp a b ≡ eq) ↔ (a ≡ b)
  pub cmp_gt : (a b : K) → cmp a b ≡ gt → cmp b a ≡ lt
  pub cmp_trans : (a b c : K) → cmp a b ≡ lt → cmp b c ≡ lt → cmp a c ≡ lt

-- `a == b` of a type with an order.
abbrev pub same {ℓ} : {K : Type ℓ} ⦃o : Ord K⦄ → K → K → Bool
same ⦃o⦄ a b = elim (o.cmp a b) [ eq ↦ true | lt ↦ false | gt ↦ false ]

pub nat_cmp_eq : (a b : ℕ) → (compare a b ≡ eq) ↔ (a ≡ b)
nat_cmp_eq a b = ground arith

pub nat_cmp_gt : (a b : ℕ) → compare a b ≡ gt → compare b a ≡ lt
nat_cmp_gt a b h = ground arith

pub nat_cmp_trans : (a b c : ℕ) → compare a b ≡ lt → compare b c ≡ lt → compare a c ≡ lt
nat_cmp_trans a b c h k = ground arith

instance abbrev pub nat_ord : Ord ℕ
nat_ord = record {
  cmp = compare;
  cmp_eq = nat_cmp_eq;
  cmp_gt = nat_cmp_gt;
  cmp_trans = nat_cmp_trans;
}

-- The lexicographic order of tuples of numbers.
abbrev pub pair_cmp : ℕ × ℕ → ℕ × ℕ → Ordering
pair_cmp a b = elim (compare a.0 b.0) [ lt ↦ lt | gt ↦ gt | eq ↦ compare a.1 b.1 ]

pub pair_cmp-eq : (a b : ℕ × ℕ) → (pair_cmp a b ≡ eq) ↔ (a ≡ b)
pair_cmp-eq a b = ground arith

pub pair_cmp-gt : (a b : ℕ × ℕ) → pair_cmp a b ≡ gt → pair_cmp b a ≡ lt
pair_cmp-gt a b h = ground arith

pub pair_cmp_trans : (a b c : ℕ × ℕ) → pair_cmp a b ≡ lt → pair_cmp b c ≡ lt → pair_cmp a c ≡ lt
pair_cmp_trans a b c h k = ground arith

instance abbrev pub pair_ord : Ord (ℕ × ℕ)
pair_ord = record {
  cmp = pair_cmp;
  cmp_eq = pair_cmp-eq;
  cmp_gt = pair_cmp-gt;
  cmp_trans = pair_cmp_trans;
}

abbrev pub triple_cmp : ℕ × ℕ × ℕ → ℕ × ℕ × ℕ → Ordering
triple_cmp a b = elim (compare a.0 b.0) [
  | lt ↦ lt
  | gt ↦ gt
  | eq ↦ elim (compare a.1 b.1) [ lt ↦ lt | gt ↦ gt | eq ↦ compare a.2 b.2 ]
]

pub triple_cmp-eq : (a b : ℕ × ℕ × ℕ) → (triple_cmp a b ≡ eq) ↔ (a ≡ b)
triple_cmp-eq a b = ground arith

pub triple_cmp-gt : (a b : ℕ × ℕ × ℕ) → triple_cmp a b ≡ gt → triple_cmp b a ≡ lt
triple_cmp-gt a b h = ground arith

pub triple_cmp_trans :
    (a b c : ℕ × ℕ × ℕ) → triple_cmp a b ≡ lt → triple_cmp b c ≡ lt → triple_cmp a c ≡ lt
triple_cmp_trans a b c h k = ground arith

instance abbrev pub triple_ord : Ord (ℕ × ℕ × ℕ)
triple_ord = record {
  cmp = triple_cmp;
  cmp_eq = triple_cmp-eq;
  cmp_gt = triple_cmp-gt;
  cmp_trans = triple_cmp_trans;
}
