-- ===== src/Chain/Collections.antt =====
-- The Merkle commitments to a block's batches and results, crates/arbor-chain/src/lib.rs, over a
-- parameter `keccak256`. Where leaves and roots are hashed, the conversions to `u32` panic from 2^32 on;
-- the codec's limits stay below.
pub mod Inclusion
use arbor.Base.{
  ℕ, zero, suc, ◌+◌, ◌-◌, ◌^◌, ◌/◌, ◌%◌, Option, none, some, List, [], ◌∷◌, ◌++◌, Result, ok,
  length, ◌==◌, ◌||◌, leb, not, if◌then◌else◌,
}
use arbor.Base.Bytes.{to_be_bytes}
use arbor.Base.Checked.{saturating_add}
use arbor.Base.Outcome.{◌>>=◌, ◌>>◌, fail_if, map_err}
use arbor.Primitives.{B256, DomainId, DomainBatch, DomainBlockHeader}
use arbor.Codec.Limits.{CodecError, ascii}
use arbor.Codec.Encoder.{canonical_codec_version}
use arbor.Codec.DomainBatch.{encode_domain_batch}
use arbor.Codec.DomainHeader.{encode_domain_header}
use arbor.Chain.{ConsensusBlock, ChainError, encoding, from_codec, text, invalid_result_proof}

abbrev pub merkle_root_tag : List ℕ
merkle_root_tag = ascii "ARBOR_MERKLE_ROOT_V1"

abbrev pub merkle_branch_tag : List ℕ
merkle_branch_tag = ascii "ARBOR_MERKLE_BRANCH_V1"

abbrev pub merkle_empty_tag : List ℕ
merkle_empty_tag = ascii "ARBOR_MERKLE_EMPTY_V1"

abbrev pub batch_leaf_tag : List ℕ
batch_leaf_tag = ascii "ARBOR_BATCH_LEAF_V1"

abbrev pub result_leaf_tag : List ℕ
result_leaf_tag = ascii "ARBOR_RESULT_LEAF_V1"

abbrev pub prevrandao_tag : List ℕ
prevrandao_tag = ascii "ARBOR_PREVRANDAO_V1"

pub record DomainResultProof : Type 0 where
  pub root : B256
  pub result : DomainBlockHeader
  pub index : ℕ
  pub count : ℕ
  -- from the leaf upward
  pub siblings : List B256

-- `.map(encode).collect::<Result<Vec<_>, _>>()`
unfoldable pub encode_all :
    {A : Type 0} → (A → Result CodecError (List ℕ)) → List A → Result CodecError (List (List ℕ))
encode_all encode [] = ok []
encode_all encode (x ∷ xs) = do bytes ← encode x; rest ← encode_all encode xs; ok (bytes ∷ rest)

-- `.iter().position(|header| header.domain_id == domain_id)`, and the header there.
unfoldable pub position_from :
    ℕ → DomainId → List DomainBlockHeader → Option (ℕ × DomainBlockHeader)
position_from index domain_id [] = none
position_from index domain_id (header ∷ headers) =
    if header.domain_id == domain_id
    then some (index, header)
    else position_from (suc index) domain_id headers

-- The value at a position, where there is one.
unfoldable pub nth : {A : Type 0} → ℕ → List A → Option A
nth i [] = none
nth zero (x ∷ xs) = some x
nth (suc i) (x ∷ xs) = nth i xs

-- `while width > 1 { levels += 1; width = width.div_ceil(2) }`, in at most `fuel` rounds.
unfoldable pub level_count : ℕ → ℕ → ℕ
level_count zero width = 0
level_count (suc fuel) width =
    let more = level_count fuel ((width + 1) / 2) in if leb width 1 then 0 else suc more

module _ (keccak256 : List ℕ → B256) where
  unfoldable pub collection_leaf : List ℕ → ℕ → ℕ → List ℕ → B256
  collection_leaf leaf_tag count index value = keccak256 (
      leaf_tag
      ++ (canonical_codec_version ∷ [])
      ++ to_be_bytes 4 count
      ++ to_be_bytes 4 index
      ++ to_be_bytes 4 (length value)
      ++ value)

  unfoldable pub collection_branch : List ℕ → ℕ → B256 → B256 → B256
  collection_branch leaf_tag depth left right = keccak256 (
      merkle_branch_tag
      ++ (canonical_codec_version ∷ [])
      ++ leaf_tag
      ++ to_be_bytes 2 depth
      ++ to_be_bytes 32 left
      ++ to_be_bytes 32 right)

  unfoldable pub collection_root : List ℕ → ℕ → B256 → B256
  collection_root leaf_tag count tree_hash = keccak256 (
      merkle_root_tag
      ++ (canonical_codec_version ∷ [])
      ++ leaf_tag
      ++ to_be_bytes 4 count
      ++ to_be_bytes 32 tree_hash)

  unfoldable pub merkle_empty : List ℕ → ℕ → B256
  merkle_empty leaf_tag depth =
      keccak256
        (merkle_empty_tag ++ (canonical_codec_version ∷ []) ++ leaf_tag ++ to_be_bytes 2 depth)

  unfoldable pub derived_prevrandao : B256 → ℕ → B256
  derived_prevrandao parent_hash height = keccak256 (
      prevrandao_tag
      ++ (canonical_codec_version ∷ [])
      ++ to_be_bytes 32 parent_hash
      ++ to_be_bytes 8 height)

  -- The leaves of the values from a position on.
  unfoldable pub leaves_from : List ℕ → ℕ → ℕ → List (List ℕ) → List B256
  leaves_from leaf_tag count index [] = []
  leaves_from leaf_tag count index (value ∷ values) =
      collection_leaf leaf_tag count index value ∷ leaves_from leaf_tag count (suc index) values

  -- One round over `level.chunks(2)`.
  unfoldable pub next_level : List ℕ → ℕ → List B256 → List B256
  next_level leaf_tag depth [] = []
  next_level leaf_tag depth (x ∷ []) =
      collection_branch leaf_tag depth x (merkle_empty leaf_tag depth) ∷ []
  next_level leaf_tag depth (x ∷ y ∷ r) =
      collection_branch leaf_tag depth x y ∷ next_level leaf_tag depth r

  -- `while level.len() > 1`, in at most `fuel` rounds, and then `level[0]`. A level of more than one
  -- hash shrinks, so that its length is fuel enough.
  unfoldable pub reduce : ℕ → List ℕ → ℕ → List B256 → B256
  reduce fuel leaf_tag depth [] = 0
  reduce fuel leaf_tag depth (x ∷ []) = x
  reduce zero leaf_tag depth (x ∷ y ∷ r) = 0
  reduce (suc fuel) leaf_tag depth (x ∷ y ∷ r) =
      reduce fuel leaf_tag (saturating_add 16 depth 1) (next_level leaf_tag depth (x ∷ y ∷ r))

  unfoldable pub merkle_collection_root : List ℕ → List (List ℕ) → B256
  merkle_collection_root leaf_tag [] = collection_root leaf_tag 0 (merkle_empty leaf_tag 0)
  merkle_collection_root leaf_tag (value ∷ values) =
      let count = length (value ∷ values) in
      collection_root leaf_tag count
        (reduce count leaf_tag 0 (leaves_from leaf_tag count 0 (value ∷ values)))

  unfoldable pub batches_root : List DomainBatch → Result ChainError B256
  batches_root batches = do
    values ← map_err (λ e. encoding (from_codec e)) (encode_all encode_domain_batch batches)
    ok (merkle_collection_root batch_leaf_tag values)

  unfoldable pub domain_results_root : List DomainBlockHeader → Result ChainError B256
  domain_results_root results = do
    values ← map_err (λ e. encoding (from_codec e)) (encode_all encode_domain_header results)
    ok (merkle_collection_root result_leaf_tag values)

  -- The sibling of `cursor` in a level.
  unfoldable pub sibling_at : ℕ → ℕ → List B256 → B256
  sibling_at depth cursor level =
      if cursor % 2 == 0
      then elim (nth (suc cursor) level) [
        | some hash ↦ hash
        | none ↦ merkle_empty result_leaf_tag depth
      ]
      else elim (nth (cursor - 1) level) [ some hash ↦ hash | none ↦ 0 ]

  -- The loop of `domain_result_proof`, on the same fuel as `reduce`.
  unfoldable pub path_of : ℕ → ℕ → ℕ → List B256 → List B256
  path_of zero depth cursor level = []
  path_of (suc fuel) depth cursor level =
      let above =
        path_of fuel (saturating_add 16 depth 1) (cursor / 2)
          (next_level result_leaf_tag depth level) in
      if leb (length level) 1 then [] else sibling_at depth cursor level ∷ above

  unfoldable pub domain_result_proof :
      DomainId → ConsensusBlock → Result ChainError (Option DomainResultProof)
  domain_result_proof domain_id block = elim (position_from 0 domain_id block.domain_blocks) [
    | none ↦ ok none
    | some (index, result) ↦ do
      values ←
          map_err (λ e. encoding (from_codec e))
            (encode_all encode_domain_header block.domain_blocks)
      fail_if (leb (2 ^ 32) (length values)) (encoding (text "domain result count"))
      fail_if (leb (2 ^ 32) index) (encoding (text "domain result index"))
      ok (
          some (record {
            root = block.header.domain_results_root;
            result = result;
            index = index;
            count = length values;
            siblings =
                path_of (length values) 0 index
                  (leaves_from result_leaf_tag (length values) 0 values);
          }))
  ]

  -- The loop of `verify` over the siblings. Their number fits `u16`, or else it fails.
  unfoldable pub climb : ℕ → ℕ → B256 → List B256 → B256
  climb depth cursor hash [] = hash
  climb depth cursor hash (sibling ∷ siblings) =
      climb (suc depth) (cursor / 2)
        (if cursor % 2 == 0
          then collection_branch result_leaf_tag depth hash sibling
          else collection_branch result_leaf_tag depth sibling hash)
        siblings

  unfoldable pub verify_result_proof : DomainResultProof → Result ChainError (Unit {0})
  verify_result_proof proof = do
    fail_if (proof.count == 0 || leb proof.count proof.index) (invalid_result_proof "index/count")
    fail_if (not (length proof.siblings == level_count proof.count proof.count))
        (invalid_result_proof "depth")
    encoded ← map_err (λ e. encoding (from_codec e)) (encode_domain_header proof.result)
    fail_if (leb (2 ^ 16 + 1) (length proof.siblings)) (invalid_result_proof "depth overflow")
    let leaf = collection_leaf result_leaf_tag proof.count proof.index encoded in
        fail_if
          (not (
            collection_root result_leaf_tag proof.count (climb 0 proof.index leaf proof.siblings)
            == proof.root))
          (invalid_result_proof "root mismatch")
