-- ===== src/State/DomainHeads.antt =====
-- The sparse Merkle map of finalized domain heads, crates/arbor-state/src/domain_heads.rs. The hash
-- is the parameter `keccak256`, from bytes to the number that the digest spells.
-- A depth below which `levels` levels remain is `smt_depth - levels`, so that the recursion down to
-- `SMT_DEPTH` is structural.
pub mod Split
pub mod Complete
pub mod Binding
use arbor.Base.{
  ℕ, zero, suc, ◌-◌, ◌/◌, ◌%◌, ◌^◌, Option, none, some, List, [], ◌∷◌, ◌++◌, map, Result, ok, err,
  length, ◌==◌, if◌then◌else◌, not,
}
use arbor.Base.Bytes.{to_be_bytes}
use arbor.Base.Ord.{Ord, nat_ord}
use arbor.Base.BTreeMap.{BTreeMap, get, insert as map_insert, remove as map_remove}
use arbor.Codec.Limits.{ascii}
use arbor.Primitives.{B256, DomainId}
use arbor.State.{StateError, invalid_path, proof_failed}

abbrev pub key_tag : List ℕ
key_tag = ascii "ARBOR_DOMAIN_HEAD_KEY_V1"

abbrev pub value_tag : List ℕ
value_tag = ascii "ARBOR_DOMAIN_HEAD_VALUE_V1"

abbrev pub leaf_tag : List ℕ
leaf_tag = ascii "ARBOR_SMT_LEAF_V1"

abbrev pub branch_tag : List ℕ
branch_tag = ascii "ARBOR_SMT_BRANCH_V1"

abbrev pub smt_depth : ℕ
smt_depth = 256

pub record DomainHead : Type 0 where
  pub domain_block_hash : B256
  pub state_root : B256

pub record DomainHeadProof : Type 0 where
  pub root : B256
  pub domain_id : DomainId
  pub value : Option DomainHead
  -- from the root's depth to the leaf's
  pub siblings : List B256

pub record DomainHeadsCommitment : Type 0 where
  pub heads : BTreeMap B256 (DomainId × DomainHead)

unfoldable pub new : DomainHeadsCommitment
new = record { heads = [] }

-- `key[depth / 8]` of the 32 bytes of a key.
unfoldable pub byte_at : B256 → ℕ → ℕ
byte_at key i = key / 256 ^ (31 - i) % 256

-- `(key[depth / 8] >> (7 - depth % 8)) & 1`
unfoldable pub bit : B256 → ℕ → ℕ
unfolding byte_at
bit key depth = byte_at key (depth / 8) / 2 ^ (7 - depth % 8) % 2

-- The two parts of `split_at(partition_point(|entry| bit(entry.0, depth) == 0))`.
unfoldable pub left_part : ℕ → BTreeMap B256 B256 → BTreeMap B256 B256
left_part depth [] = []
left_part depth (entry ∷ entries) =
    let rest = left_part depth entries in if bit entry.0 depth == 0 then entry ∷ rest else []

unfoldable pub right_part : ℕ → BTreeMap B256 B256 → BTreeMap B256 B256
right_part depth [] = []
right_part depth (entry ∷ entries) =
    let rest = right_part depth entries in if bit entry.0 depth == 0 then rest else entry ∷ entries

module _ (keccak256 : List ℕ → B256) where
  unfoldable pub domain_head_key : DomainId → B256
  domain_head_key domain_id = keccak256 (key_tag ++ to_be_bytes 32 domain_id)

  unfoldable pub domain_head_value : DomainHead → B256
  domain_head_value head =
      keccak256
        (value_tag ++ to_be_bytes 32 head.domain_block_hash ++ to_be_bytes 32 head.state_root)

  unfoldable pub leaf_hash : B256 → B256 → B256
  leaf_hash key value =
      keccak256 (leaf_tag ++ (1 ∷ []) ++ to_be_bytes 32 key ++ to_be_bytes 32 value)

  unfoldable pub branch_hash : ℕ → B256 → B256 → B256
  branch_hash depth left right =
      keccak256 (branch_tag ++ to_be_bytes 2 depth ++ to_be_bytes 32 left ++ to_be_bytes 32 right)

  -- `empty_hashes()[SMT_DEPTH - levels]`
  unfoldable pub empty_hash : ℕ → B256
  empty_hash zero = keccak256 (leaf_tag ++ (0 ∷ []))
  empty_hash (suc n) = branch_hash (smt_depth - suc n) (empty_hash n) (empty_hash n)

  unfoldable pub subtree_root : ℕ → BTreeMap B256 B256 → B256
  subtree_root levels [] = empty_hash levels
  subtree_root zero (entry ∷ entries) = entry.1
  subtree_root (suc n) (entry ∷ entries) =
      branch_hash (smt_depth - suc n)
        (subtree_root n (left_part (smt_depth - suc n) (entry ∷ entries)))
        (subtree_root n (right_part (smt_depth - suc n) (entry ∷ entries)))

  -- The loop of `proof`.
  unfoldable pub collect_siblings : B256 → ℕ → BTreeMap B256 B256 → List B256
  collect_siblings target zero range = []
  collect_siblings target (suc n) range =
      let right = right_part (smt_depth - suc n) range in
      let left = left_part (smt_depth - suc n) range in
      let below_left = collect_siblings target n left in
      let below_right = collect_siblings target n right in
      if bit target (smt_depth - suc n) == 0
      then subtree_root n right ∷ below_left
      else subtree_root n left ∷ below_right

  -- The loop of `verify`, which goes from the last sibling to the first.
  unfoldable pub fold_path : B256 → List B256 → B256 → B256
  fold_path key [] hash = hash
  fold_path key (sibling ∷ siblings) hash =
      let below = fold_path key siblings hash in
      let depth = smt_depth - suc (length siblings) in
      if bit key depth == 0
      then branch_hash depth below sibling
      else branch_hash depth sibling below

  -- The hash that `verify` starts from.
  unfoldable pub start_hash : B256 → Option DomainHead → B256
  start_hash key none = empty_hash 0
  start_hash key (some value) = leaf_hash key (domain_head_value value)

  unfoldable pub verify : DomainHeadProof → Result StateError (Unit {0})
  verify proof =
      if not (length proof.siblings == smt_depth)
      then err (invalid_path "domain-head proof depth")
      else (let key = domain_head_key proof.domain_id in
          if fold_path key proof.siblings (start_hash key proof.value) == proof.root
          then ok tt
          else err (proof_failed "domain-head root mismatch"))

  unfoldable pub insert : DomainId → DomainHead → DomainHeadsCommitment → DomainHeadsCommitment
  insert domain_id head c = record {
    heads = map_insert (domain_head_key domain_id) (domain_id, head) c.heads;
  }

  unfoldable pub remove :
      DomainId → DomainHeadsCommitment → DomainHeadsCommitment × Option DomainHead
  remove domain_id c = (
    record { heads = map_remove (domain_head_key domain_id) c.heads },
    elim (get (domain_head_key domain_id) c.heads) [ none ↦ none | some (_, head) ↦ some head ],
  )

  unfoldable pub leaf_of : B256 × (DomainId × DomainHead) → B256 × B256
  leaf_of (key, (_, head)) = (key, leaf_hash key (domain_head_value head))

  unfoldable pub entries : DomainHeadsCommitment → BTreeMap B256 B256
  entries c = map leaf_of c.heads

  unfoldable pub root : DomainHeadsCommitment → B256
  root c = subtree_root smt_depth (entries c)

  unfoldable pub head_of : B256 → DomainHeadsCommitment → Option DomainHead
  head_of key c = elim (get key c.heads) [ none ↦ none | some (_, head) ↦ some head ]

  unfoldable pub proof : DomainId → DomainHeadsCommitment → DomainHeadProof
  proof domain_id c = record {
    root = root c;
    domain_id = domain_id;
    value = head_of (domain_head_key domain_id) c;
    siblings = collect_siblings (domain_head_key domain_id) smt_depth (entries c);
  }
