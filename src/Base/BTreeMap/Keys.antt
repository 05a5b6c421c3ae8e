-- ===== src/Base/BTreeMap/Keys.antt =====
-- Predicates on all entries of a map.
use mathlib.Core.Path.{◌≡◌}
use mathlib.Core.Option.{some}
use mathlib.Core.List.{[], ◌∷◌}
use native.Mathlib.Omega.{arith}
use arbor.Base.Ord.{Ord}
use arbor.Base.BTreeMap.{BTreeMap, get, insert, remove}

module _ {ℓ κ} {K : Type ℓ} {V : Type κ} (P : K → V → Type 0) where
  abbrev pub Every : BTreeMap K V → Type 0
  Every [] = Unit
  Every ((k, v) ∷ m) = P k v × Every m

module _ {ℓ κ} {K : Type ℓ} {V : Type κ} ⦃o : Ord K⦄ (P : K → V → Type 0) where
  pub insert-Every : (k : K) (v : V) (m : BTreeMap K V) → P k v → Every P m → Every P (insert k v m)
  unfolding insert
  insert-Every k v [] h e = (h, tt)
  insert-Every k v ((i, w) ∷ m) h e = ground (arith, insert-Every k v m h e.1)

  pub remove-Every : (k : K) (m : BTreeMap K V) → Every P m → Every P (remove k m)
  unfolding remove
  remove-Every k [] e = tt
  remove-Every k ((i, w) ∷ m) e = ground (arith, remove-Every k m e.1)

  pub get-Every : (k : K) (v : V) (m : BTreeMap K V) → Every P m → get k m ≡ some v → P k v
  unfolding get
  get-Every k v [] e h = absurd (cc)
  get-Every k v ((i, w) ∷ m) e h = ground (arith, get-Every k v m e.1, o.cmp_eq k i)
