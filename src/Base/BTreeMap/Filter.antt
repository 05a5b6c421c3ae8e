-- ===== src/Base/BTreeMap/Filter.antt =====
-- Removing the entries that satisfy a test, key by key.
use Prim.Native.Nat.{◌+◌}
use Prim.Native.Nat.Ordering.{lt}
use mathlib.Core.Path.{◌≡◌, refl, ap, ◌∙◌}
use mathlib.Core.Bool.{Bool, true, false}
use mathlib.Core.Logic.{inl, inr}
use mathlib.Core.Option.{none, some}
use mathlib.Core.List.{List, [], ◌∷◌}
use native.Mathlib.Omega.{arith}
use arbor.Base.Tests.{if◌then◌else◌, Bool-cases}
use arbor.Base.Lists.{length, All}
use arbor.Base.Ord.{Ord}
use arbor.Base.BTreeMap.{BTreeMap, get, remove}
use arbor.Base.BTreeMap.Order.{Above, IsOrdered, get-Above}
use arbor.Base.BTreeMap.Count.{count}
use arbor.Base.BTreeMap.Keys.{Every}

module _ {ℓ κ} {K : Type ℓ} {V : Type κ} (test : K → V → Bool) where
  -- `m.iter().filter_map(|(k, v)| test(k, v).then_some(*k))`
  unfoldable pub keys_where : BTreeMap K V → List K
  keys_where [] = []
  keys_where ((k, v) ∷ m) = let rest = keys_where m in if test k v then k ∷ rest else rest

  -- What is left, and the values that go.
  unfoldable pub drop_where : BTreeMap K V → BTreeMap K V
  drop_where [] = []
  drop_where ((k, v) ∷ m) = let rest = drop_where m in if test k v then rest else (k, v) ∷ rest

  unfoldable pub values_where : BTreeMap K V → List V
  values_where [] = []
  values_where ((k, v) ∷ m) = let rest = values_where m in if test k v then v ∷ rest else rest

  pub count-keys_where : (m : BTreeMap K V) → length (keys_where m) ≡ count test m
  unfolding keys_where count
  count-keys_where [] = refl
  count-keys_where ((k, v) ∷ m) = ground (arith, count-keys_where m)

  pub drop_where-Every :
      (P : K → V → Type 0) (m : BTreeMap K V) → Every P m → Every P (drop_where m)
  unfolding drop_where
  drop_where-Every P [] h = tt
  drop_where-Every P ((k, v) ∷ m) h = ground (arith, drop_where-Every P m h.1)

  -- Of the entries that a second test counts, those that satisfy the first are gone.
  pub count-drop_where :
      (p : K → V → Bool) (m : BTreeMap K V)
      → ((k : K) (v : V) → test k v ≡ true → p k v ≡ true)
      → count p (drop_where m) + length (keys_where m) ≡ count p m
  unfolding drop_where count keys_where
  count-drop_where p [] h = refl
  count-drop_where p ((k, v) ∷ m) h = ground (arith, count-drop_where p m h, h k v)

  pub count-drop_where_other :
      (p : K → V → Bool) (m : BTreeMap K V)
      → ((k : K) (v : V) → test k v ≡ true → p k v ≡ false)
      → count p (drop_where m) ≡ count p m
  unfolding drop_where count
  count-drop_where_other p [] h = refl
  count-drop_where_other p ((k, v) ∷ m) h = ground (arith, count-drop_where_other p m h, h k v)

module _ {ℓ κ} {K : Type ℓ} {V : Type κ} ⦃o : Ord K⦄ where
  unfoldable pub remove_keys : List K → BTreeMap K V → BTreeMap K V
  remove_keys [] m = m
  remove_keys (k ∷ ks) m = remove_keys ks (remove k m)

  remove_keys-cons :
      (k : K) (ks : List K) (m : BTreeMap K V)
      → remove_keys (k ∷ ks) m ≡ remove_keys ks (remove k m)
  unfolding remove_keys
  remove_keys-cons k ks m = refl

  remove_keys-Above :
      (k : K) (v : V) (ks : List K) (m : BTreeMap K V)
      → All (λ j. o.cmp k j ≡ lt) ks
      → remove_keys ks ((k, v) ∷ m) ≡ (k, v) ∷ remove_keys ks m
  unfolding remove_keys
  remove_keys-Above k v [] m h = refl
  remove_keys-Above k v (j ∷ ks) m h =
      let e : remove j ((k, v) ∷ m) ≡ (k, v) ∷ remove j m =
        unfold remove in ground (arith, h.0, o.cmp_eq j k, o.cmp_eq k j) in
      ap (remove_keys ks) e ∙ remove_keys-Above k v ks (remove j m) h.1

  module _ (test : K → V → Bool) where
    pub drop_where-Above : (k : K) (m : BTreeMap K V) → Above k m → Above k (drop_where test m)
    unfolding drop_where
    drop_where-Above k [] h = tt
    drop_where-Above k ((j, w) ∷ m) h = ground (arith, drop_where-Above k m h.1)

    pub drop_where-IsOrdered : (m : BTreeMap K V) → IsOrdered m → IsOrdered (drop_where test m)
    unfolding drop_where
    drop_where-IsOrdered [] h = tt
    drop_where-IsOrdered ((j, w) ∷ m) h =
        ground (arith, drop_where-IsOrdered m h.1, drop_where-Above j m h.0)

    keys_where-Above :
        (k : K) (m : BTreeMap K V) → Above k m → All (λ j. o.cmp k j ≡ lt) (keys_where test m)
    unfolding keys_where
    keys_where-Above k [] h = tt
    keys_where-Above k ((j, w) ∷ m) h = ground (arith, keys_where-Above k m h.1)

    -- Removing the collected keys one by one leaves what does not satisfy the test.
    pub remove_keys-keys_where :
        (m : BTreeMap K V) → IsOrdered m → remove_keys (keys_where test m) m ≡ drop_where test m
    unfolding keys_where drop_where
    remove_keys-keys_where [] h = unfold remove_keys in refl
    remove_keys-keys_where ((k, v) ∷ m) h = elim (Bool-cases (test k v)) [
      | inl hit ↦ rw hit (
          let e : remove k ((k, v) ∷ m) ≡ m = unfold remove in ground (arith, o.cmp_eq k k) in
          remove_keys-cons k (keys_where test m) ((k, v) ∷ m)
          ∙ ap (remove_keys (keys_where test m)) e
          ∙ remove_keys-keys_where m h.1)
      | inr miss ↦ rw miss (
          remove_keys-Above k v (keys_where test m) m (keys_where-Above k m h.0)
          ∙ ap (λ l. (k, v) ∷ l) (remove_keys-keys_where m h.1))
    ]

    pub get-drop_where :
        (j : K) (v : V) (m : BTreeMap K V)
        → IsOrdered m
        → get j m ≡ some v
        → get j (drop_where test m) ≡ (if test j v then none else some v)
    unfolding get drop_where
    get-drop_where j v [] h e = absurd (cc)
    get-drop_where j v ((k, w) ∷ m) h e = ground (
      arith,
      get-drop_where j v m h.1,
      o.cmp_eq j k,
      get-Above k (drop_where test m) (drop_where-Above k m h.0),
    )

    pub get-drop_where-none :
        (j : K) (m : BTreeMap K V) → get j m ≡ none → get j (drop_where test m) ≡ none
    unfolding get drop_where
    get-drop_where-none j [] e = refl
    get-drop_where-none j ((k, w) ∷ m) e = ground (arith, get-drop_where-none j m)
