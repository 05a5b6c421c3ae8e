-- ===== src/Base/BTreeMap/Count.antt =====
-- How many entries satisfy a test, under insertion and removal.
use Prim.Native.Nat.{ℕ, ◌+◌, ◌<◌}
use mathlib.Core.Path.{◌≡◌, refl}
use mathlib.Core.Bool.{Bool, true}
use mathlib.Core.Option.{none, some}
use mathlib.Core.List.{[], ◌∷◌}
use native.Mathlib.Omega.{arith}
use arbor.Base.Tests.{if◌then◌else◌}
use arbor.Base.Lists.{length}
use arbor.Base.Ord.{Ord}
use arbor.Base.BTreeMap.{BTreeMap, get, insert, remove}
use arbor.Base.BTreeMap.Order.{IsOrdered, get-Above, Above-trans}

abbrev pub one_if : Bool → ℕ
one_if b = if b then 1 else 0

module _ {ℓ κ} {K : Type ℓ} {V : Type κ} (p : K → V → Bool) where
  unfoldable pub count : BTreeMap K V → ℕ
  count [] = 0
  count ((k, v) ∷ m) = one_if (p k v) + count m

module _ {ℓ κ} {K : Type ℓ} {V : Type κ} ⦃o : Ord K⦄ (p : K → V → Bool) where
  pub count-insert_new :
      (k : K) (v : V) (m : BTreeMap K V)
      → get k m ≡ none
      → count p (insert k v m) ≡ one_if (p k v) + count p m
  unfolding get insert count
  count-insert_new k v [] h = refl
  count-insert_new k v ((i, w) ∷ m) h = ground (arith, count-insert_new k v m)

  pub count-insert_old :
      (k : K) (v u : V) (m : BTreeMap K V)
      → IsOrdered m
      → get k m ≡ some u
      → count p (insert k v m) + one_if (p k u) ≡ one_if (p k v) + count p m
  unfolding get insert count
  count-insert_old k v u [] s h = absurd (cc)
  count-insert_old k v u ((i, w) ∷ m) s h =
      ground (arith, count-insert_old k v u m s.1, get-Above k m, Above-trans k i m, o.cmp_eq k i)

  pub count-remove :
      (k : K) (u : V) (m : BTreeMap K V)
      → get k m ≡ some u
      → count p (remove k m) + one_if (p k u) ≡ count p m
  unfolding get remove count
  count-remove k u [] h = absurd (cc)
  count-remove k u ((i, w) ∷ m) h = ground (arith, count-remove k u m, o.cmp_eq k i)

module _ {ℓ κ} {K : Type ℓ} {V : Type κ} where
  pub count-all : (m : BTreeMap K V) → count (λ (_ : K) (_ : V). true) m ≡ length m
  unfolding count
  count-all [] = refl
  count-all ((k, v) ∷ m) = omega (arith, count-all m)

  pub count-pos :
      (p : K → V → Bool) ⦃o : Ord K⦄ (k : K) (v : V) (m : BTreeMap K V)
      → get k m ≡ some v
      → p k v ≡ true
      → 0 < count p m
  unfolding get count
  count-pos p k v [] h t = absurd (cc)
  count-pos p ⦃o⦄ k v ((i, w) ∷ m) h t = ground (arith, count-pos p k v m, o.cmp_eq k i)
