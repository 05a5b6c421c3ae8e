-- ===== src/Base/BTreeMap/Extensional.antt =====
-- An ordered map is determined by what it holds under each key.
use Prim.Native.Nat.{Ordering}
use Prim.Native.Nat.Ordering.{lt, eq, gt}
use mathlib.Core.Path.{◌≡◌, refl, sym, subst}
use mathlib.Core.Logic.{◌⊎◌, inl, inr}
use mathlib.Core.List.{[], ◌∷◌}
use native.Mathlib.Omega.{arith}
use arbor.Base.Ord.{Ord}
use arbor.Base.BTreeMap.{BTreeMap, get}
use arbor.Base.BTreeMap.Order.{IsOrdered, Above, Above-trans, get-Above}

module _ {ℓ κ} {K : Type ℓ} {V : Type κ} ⦃o : Ord K⦄ where
  -- The least key of one map is not below all keys of the other.
  head_absent : (k : K) (v : V) (a b : BTreeMap K V) → Above k b → get k ((k, v) ∷ a) ≡ get k b → ⊥
  unfolding get
  head_absent k v a b above h = ground (arith, get-Above k b above, o.cmp_eq k k, h)

  tails :
      (k : K) (v w : V) (a b : BTreeMap K V)
      → Above k a
      → Above k b
      → ((i : K) → get i ((k, v) ∷ a) ≡ get i ((k, w) ∷ b))
      → (i : K) → get i a ≡ get i b
  unfolding get
  tails k v w a b above_a above_b h i =
      ground (arith, h i, get-Above k a above_a, get-Above k b above_b, o.cmp_eq i k)

  heads : (k : K) (v w : V) (a b : BTreeMap K V) → get k ((k, v) ∷ a) ≡ get k ((k, w) ∷ b) → v ≡ w
  unfolding get
  heads k v w a b h = ground (arith, h, o.cmp_eq k k)

  pub IsOrdered-ext :
      (a b : BTreeMap K V) → IsOrdered a → IsOrdered b → ((k : K) → get k a ≡ get k b) → a ≡ b
  IsOrdered-ext [] [] oa ob h = refl
  IsOrdered-ext [] ((j, w) ∷ b) oa ob h = absurd (head_absent j w b [] tt (sym (h j)))
  IsOrdered-ext ((k, v) ∷ a) [] oa ob h = absurd (head_absent k v a [] tt (h k))
  IsOrdered-ext ((k, v) ∷ a) ((j, w) ∷ b) oa ob h = elim (cases (o.cmp k j)) [
    | inl below ↦
        absurd (head_absent k v a ((j, w) ∷ b) (below, Above-trans k j b below ob.0) (h k))
    | inr (inl e) ↦
        let p = (o.cmp_eq k j).0 e in
        let g = subst (λ x. (i : K) → get i ((k, v) ∷ a) ≡ get i ((x, w) ∷ b)) (sym p) h in
        let above = subst (λ x. Above x b) (sym p) ob.0 in
        let q = heads k v w a b (g k) in
        let r = IsOrdered-ext a b oa.1 ob.1 (tails k v w a b oa.0 above g) in λ i. (p i, q i) ∷ r i
    | inr (inr over) ↦
        let below = o.cmp_gt k j over in
        absurd (head_absent j w b ((k, v) ∷ a) (below, Above-trans j k a below oa.0) (sym (h j)))
  ]
    where
      cases : (x : Ordering) → (x ≡ lt) ⊎ ((x ≡ eq) ⊎ (x ≡ gt))
      cases lt = inl refl
      cases eq = inr (inl refl)
      cases gt = inr (inr refl)
