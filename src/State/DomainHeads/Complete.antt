-- ===== src/State/DomainHeads/Complete.antt =====
-- Every proof that a commitment produces verifies, and the commitment is the map that it stands for.
use arbor.Base.{
  ℕ, zero, suc, ◌+◌, ◌*◌, ◌-◌, ◌/◌, ◌^◌, ◌≤◌, ◌<◌, ◌≡◌, refl, sym, ◌∙◌, inl, inr, Option, none,
  some, Option-cases, List, [], ◌∷◌, map, ok, length, arith, if◌then◌else◌,
}
use native.Mathlib.Nat.{div-eq_of_lt}
use arbor.Base.Ord.{same, nat_ord, nat_cmp_eq}
use arbor.Base.BTreeMap.{BTreeMap, get, get-insert, get-remove_ne}
use arbor.Base.BTreeMap.Order.{
  IsOrdered, Above, insert-IsOrdered, remove-IsOrdered, get-remove_self,
}
use arbor.Base.BTreeMap.Keys.{Every, insert-Every, remove-Every}
use arbor.Primitives.{B256, DomainId}
use arbor.State.DomainHeads
use arbor.State.DomainHeads.{
  DomainHead, DomainHeadsCommitment, smt_depth, bit, left_part, right_part, empty_hash, branch_hash,
  subtree_root, collect_siblings, fold_path, start_hash, verify, domain_head_key, domain_head_value,
  leaf_hash, leaf_of, entries, root, head_of, proof,
}
use arbor.State.DomainHeads.Split.{
  Share, digit, left-Share, right-Share, get-left, get-right, left-IsOrdered, right-IsOrdered,
}

-- The heads are ordered, and each stands under the key of its domain.
pub record IsKeyed (keccak256 : List ℕ → B256) (c : DomainHeadsCommitment) : Type 0 where
  pub ordered : IsOrdered c.heads
  pub keyed : Every (λ k v. k ≡ domain_head_key keccak256 v.0) c.heads

module _ (keccak256 : List ℕ → B256) where
  subtree_root-suc :
      (n : ℕ) (m : BTreeMap B256 B256)
      → subtree_root keccak256 (suc n) m
        ≡ branch_hash keccak256
            (smt_depth - suc n)
            (subtree_root keccak256 n (left_part (smt_depth - suc n) m))
            (subtree_root keccak256 n (right_part (smt_depth - suc n) m))
  unfolding subtree_root empty_hash left_part right_part
  subtree_root-suc n [] = refl
  subtree_root-suc n (e ∷ m) = refl

  length-collect :
      (key n : ℕ) (m : BTreeMap B256 B256) → length (collect_siblings keccak256 key n m) ≡ n
  unfolding collect_siblings
  length-collect key zero m = refl
  length-collect key (suc n) m = ground (
    arith,
    length-collect key n (left_part (smt_depth - suc n) m),
    length-collect key n (right_part (smt_depth - suc n) m),
  )

  -- The leaf hash that is found, or the empty one.
  abbrev leaf_or : Option B256 → B256
  leaf_or none = empty_hash keccak256 0
  leaf_or (some v) = v

  -- The hashes along a path lead from the leaf to the root of the range.
  fold-collect :
      (key n prefix : ℕ) (m : BTreeMap B256 B256) (leaf : Option B256)
      → n ≤ smt_depth
      → key / 2 ^ n ≡ prefix
      → IsOrdered m
      → Share n prefix m
      → get key m ≡ leaf
      → fold_path keccak256 key (collect_siblings keccak256 key n m) (leaf_or leaf)
        ≡ subtree_root keccak256 n m
  unfolding fold_path collect_siblings
  fold-collect key zero prefix [] leaf h e o s g = unfold get subtree_root in rw (← g) refl
  fold-collect key zero prefix ((k, v) ∷ m) leaf h e o s g =
      unfold get subtree_root in ground (arith, s.0, nat_cmp_eq key k)
  fold-collect key (suc n) prefix m leaf h e o s g =
      let d = smt_depth - suc n in
      elim (digit n prefix (omega arith) key e) [
        | inl (b, f) ↦
            let ih =
              fold-collect key n (2 * prefix) (left_part d m) leaf (omega arith) f
                (left-IsOrdered d m o) (left-Share n prefix (omega arith) m s)
                (sym (get-left n prefix (omega arith) key m f o s) ∙ g) in
            ground (arith, subtree_root-suc n m, b, ih, length-collect key n (left_part d m))
        | inr (b, f) ↦
            let ih =
              fold-collect key n (2 * prefix + 1) (right_part d m) leaf (omega arith) f
                (right-IsOrdered d m o) (right-Share n prefix (omega arith) m o s)
                (sym (get-right n prefix (omega arith) key m f s) ∙ g) in
            ground (arith, subtree_root-suc n m, b, ih, length-collect key n (right_part d m))
      ]

  entries-Above :
      (k : ℕ) (m : BTreeMap B256 (DomainId × DomainHead))
      → Above k m
      → Above k (map (leaf_of keccak256) m)
  unfolding leaf_of
  entries-Above k [] a = tt
  entries-Above k ((j, v) ∷ m) a = (a.0, entries-Above k m a.1)

  entries-IsOrdered :
      (m : BTreeMap B256 (DomainId × DomainHead))
      → IsOrdered m
      → IsOrdered (map (leaf_of keccak256) m)
  unfolding leaf_of
  entries-IsOrdered [] o = tt
  entries-IsOrdered ((j, v) ∷ m) o = (entries-Above j m o.0, entries-IsOrdered m o.1)

  get-entries :
      (key : ℕ) (m : BTreeMap B256 (DomainId × DomainHead))
      → get key (map (leaf_of keccak256) m) ≡ (elim (get key m) [
        | none ↦ none
        | some v ↦ some (leaf_hash keccak256 key (domain_head_value keccak256 v.1))
      ])
  unfolding get leaf_of
  get-entries key [] = refl
  get-entries key ((j, v) ∷ m) = ground (arith, get-entries key m, nat_cmp_eq key j)

  -- The verifier starts from the leaf that the map holds.
  leaf-start :
      (key : ℕ) (c : DomainHeadsCommitment)
      → leaf_or (get key (entries keccak256 c)) ≡ start_hash keccak256 key (head_of keccak256 key c)
  unfolding entries start_hash head_of
  leaf-start key c = rw (get-entries key c.heads) (elim (Option-cases (get key c.heads)) [
    | inl e ↦ ground (arith, e)
    | inr (v, e) ↦ ground (arith, e)
  ])

  module _ (digests : (bs : List ℕ) → keccak256 bs < 2 ^ 256) where
    entries-Share :
        (m : BTreeMap B256 (DomainId × DomainHead))
        → Every (λ k v. k ≡ domain_head_key keccak256 v.0) m
        → Share 256 0 (map (leaf_of keccak256) m)
    unfolding leaf_of domain_head_key
    entries-Share [] e = tt
    entries-Share ((j, v) ∷ m) e = (rw e.0 (div-eq_of_lt (digests _)), entries-Share m e.1)

    -- If digests have 256 bits, then every proof that a keyed commitment produces verifies, be it of a
    -- domain that has a head or of one that has none.
    pub verify-proof :
        (domain_id : DomainId) {c : DomainHeadsCommitment}
        → IsKeyed keccak256 c
        → verify keccak256 (proof keccak256 domain_id c) ≡ ok tt
    unfolding verify proof root
    verify-proof domain_id {c} k =
        let key = domain_head_key keccak256 domain_id in
        let small : key / 2 ^ 256 ≡ 0 = unfold domain_head_key in div-eq_of_lt (digests _) in
        let path =
          fold-collect key smt_depth 0 (entries keccak256 c) (get key (entries keccak256 c))
            (omega arith) small (unfold entries in entries-IsOrdered c.heads k.ordered)
            (unfold entries in entries-Share c.heads k.keyed) refl in
        ground (arith, length-collect key smt_depth (entries keccak256 c), path, leaf-start key c)

  -- Inserting a head keeps a commitment keyed. The new commitment proves the new head for its domain,
  -- and for every domain with another key the value that the old one proved.
  pub insert_lem :
      (domain_id : DomainId) (head : DomainHead) {c : DomainHeadsCommitment}
      → IsKeyed keccak256 c
      → IsKeyed keccak256 (DomainHeads.insert keccak256 domain_id head c)
        × ((j : DomainId)
            → (proof keccak256 j (DomainHeads.insert keccak256 domain_id head c)).value ≡ (
                if same (domain_head_key keccak256 j) (domain_head_key keccak256 domain_id)
                then some head
                else (proof keccak256 j c).value))
  unfolding DomainHeads.insert proof head_of
  insert_lem domain_id head {c} k = (
    record {
      ordered = insert-IsOrdered _ _ c.heads k.ordered;
      keyed = insert-Every (λ k v. k ≡ domain_head_key keccak256 v.0) _ _ c.heads refl k.keyed;
    },
    λ j. ground (
      arith,
      get-insert (domain_head_key keccak256 j) (domain_head_key keccak256 domain_id)
          (domain_id, head) c.heads,
    ),
  )

  -- Removing a domain returns the head that was proved for it and keeps a commitment keyed. The new
  -- one proves that the domain is missing, and for every domain with another key what the old one proved.
  pub remove_lem :
      (domain_id : DomainId) {c : DomainHeadsCommitment}
      → IsKeyed keccak256 c
      → let (c', answer) = DomainHeads.remove keccak256 domain_id c in
        IsKeyed keccak256 c'
        × (answer ≡ (proof keccak256 domain_id c).value)
        × ((j : DomainId)
            → (proof keccak256 j c').value ≡ (
                if same (domain_head_key keccak256 j) (domain_head_key keccak256 domain_id)
                then none
                else (proof keccak256 j c).value))
  unfolding DomainHeads.remove proof head_of
  remove_lem domain_id {c} k =
      let key = domain_head_key keccak256 domain_id in
      (
        record {
          ordered = remove-IsOrdered key c.heads k.ordered;
          keyed = remove-Every (λ k v. k ≡ domain_head_key keccak256 v.0) key c.heads k.keyed;
        },
        refl,
        λ j. ground (
          arith,
          get-remove_ne (domain_head_key keccak256 j) key c.heads,
          get-remove_self key c.heads k.ordered,
          nat_cmp_eq (domain_head_key keccak256 j) key,
        ),
      )
