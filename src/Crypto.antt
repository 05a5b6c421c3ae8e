-- ===== src/Crypto.antt =====
-- Hashes of consensus objects and the verification of certificates, crates/arbor-crypto/src/lib.rs.
-- `keccak256` is a parameter, and so is what the code calls of the secp256k1 library.
pub mod Power
pub mod Quorum
pub mod Search
use arbor.Base.{
  ℕ, zero, suc, ◌+◌, ◌-◌, ◌*◌, ◌/◌, length, ltb, Bool, true, false, not, Option, none, some, List,
  [], ◌∷◌, ◌++◌, Result, ok, err, ◌⨾◌, leb, ◌==◌, if◌then◌else◌,
}
use arbor.Base.Bytes.{to_be_bytes}
use arbor.Base.Checked.{checked_add}
use arbor.Base.Outcome.{◌>>=◌, ◌>>◌, fail_if, ok_or, map_err}
use arbor.Primitives.{
  B256, DomainId, NetworkId, ValidatorId, ConsensusBlockHeader, DomainBlockHeader, DomainGenesis,
  Validator, ValidatorSet, Vote, CommitSignature, QuorumCertificate,
}
use arbor.Codec.Limits.{CodecError, ascii}
use arbor.Codec.Encoder.{canonical_codec_version}
use arbor.Codec.ConsensusHeader.{encode_consensus_header}
use arbor.Codec.DomainHeader.{encode_domain_header}
use arbor.Codec.DomainGenesis.{encode_domain_genesis}
use arbor.Codec.ValidatorSet.{encode_validator_set}
use arbor.Codec.QuorumCertificate.{encode_quorum_certificate}
use arbor.Codec.Vote.{encode_vote}

-- `VerifyingKey::from_sec1_bytes`, `Signature::from_slice`, whether `normalize_s` changes a signature,
-- and `verify_prehash`.
pub record Secp256k1 : Type 0 where
  pub is_public_key : ℕ → Bool
  pub is_signature : ℕ → Bool
  pub has_high_s : ℕ → Bool
  pub verify_prehash : ℕ → B256 → ℕ → Bool

pub data CryptoError : Type 0 where
  codec : CodecError → CryptoError
  invalid_secret_key invalid_public_key invalid_signature validator_mismatch unknown_validator
        insufficient_quorum voting_power_overflow :
      CryptoError

abbrev pub domain_id_tag : List ℕ
domain_id_tag = ascii "ARBOR_DOMAIN_V1"

abbrev pub validator_id_tag : List ℕ
validator_id_tag = ascii "ARBOR_VALIDATOR_ID_V1"

unfoldable pub validator_at : ℕ → List Validator → Option Validator
validator_at i [] = none
validator_at zero (v ∷ vs) = some v
validator_at (suc i) (v ∷ vs) = validator_at i vs

-- The loop of `binary_search_by_key`: the position that `size` many from `base` on are halved to, in at
-- most `fuel` rounds. While `size` is above one it shrinks, so that it is fuel enough.
unfoldable pub narrow : ℕ → ValidatorId → List Validator → ℕ → ℕ → ℕ
narrow zero id vs base size = base
narrow (suc fuel) id vs base size =
    let half = size / 2 in
    let below = narrow fuel id vs base (size - half) in
    let above = narrow fuel id vs (base + half) (size - half) in
    if leb size 1 then base else elim (validator_at (base + half) vs) [
      | some v ↦ if ltb id v.id then below else above
      | none ↦ below
    ]

-- `binary_search_by_key` on the identifiers, and the validator there.
unfoldable pub find_validator : ValidatorId → List Validator → Option Validator
find_validator id vs = elim (validator_at (narrow (length vs) id vs 0 (length vs)) vs) [
  | some v ↦ if v.id == id then some v else none
  | none ↦ none
]

-- The sum of the powers, with `checked_add` on 128 bits.
unfoldable pub add_powers : List Validator → ℕ → Result CryptoError ℕ
add_powers [] total = ok total
add_powers (v ∷ vs) total = elim (checked_add 128 total v.power) [
  | none ↦ err voting_power_overflow
  | some next ↦ add_powers vs next
]

-- The vote that a signature of a certificate stands for.
unfoldable pub vote_of : QuorumCertificate → CommitSignature → Vote
vote_of certificate commit = record {
  network_id = certificate.network_id;
  height = certificate.height;
  round = certificate.round;
  phase = certificate.phase;
  block_hash = certificate.block_hash;
  validator_id = commit.validator_id;
}

module _ (keccak256 : List ℕ → B256) where
  unfoldable pub derive_domain_id : NetworkId → DomainId → B256 → DomainId
  derive_domain_id network_id parent_domain_id create_tx_hash = keccak256 (
      domain_id_tag
      ++ (canonical_codec_version ∷ [])
      ++ to_be_bytes 32 network_id
      ++ to_be_bytes 32 parent_domain_id
      ++ to_be_bytes 32 create_tx_hash)

  -- `keccak256(encode(value)?)`
  unfoldable pub hash_encoded : Result CodecError (List ℕ) → Result CryptoError B256
  hash_encoded (ok bytes) = ok (keccak256 bytes)
  hash_encoded (err e) = err (codec e)

  unfoldable pub consensus_header_hash : ConsensusBlockHeader → Result CryptoError B256
  consensus_header_hash value = hash_encoded (encode_consensus_header value)

  unfoldable pub domain_header_hash : DomainBlockHeader → Result CryptoError B256
  domain_header_hash value = hash_encoded (encode_domain_header value)

  unfoldable pub domain_genesis_hash : DomainGenesis → Result CryptoError B256
  domain_genesis_hash value = hash_encoded (encode_domain_genesis value)

  unfoldable pub validator_id : ℕ → ValidatorId
  validator_id public_key =
      keccak256 (validator_id_tag ++ (canonical_codec_version ∷ []) ++ to_be_bytes 33 public_key)

  module _ (secp256k1 : Secp256k1) where
    -- The loop of `validate_validator_set`.
    unfoldable pub check_validators : List Validator → ℕ → Result CryptoError ℕ
    check_validators [] total = ok total
    check_validators (v ∷ vs) total = do
      fail_if (not (secp256k1.is_public_key v.public_key)) invalid_public_key
      fail_if (not (v.id == validator_id v.public_key)) validator_mismatch
      next ← ok_or (checked_add 128 total v.power) voting_power_overflow
      check_validators vs next

    unfoldable pub validate_validator_set : ValidatorSet → Result CryptoError (Unit {0})
    validate_validator_set value = do
      total ← check_validators value.validators 0
      fail_if (total == 0) insufficient_quorum

    unfoldable pub validator_set_hash : ValidatorSet → Result CryptoError B256
    validator_set_hash value = do
      validate_validator_set value
      hash_encoded (encode_validator_set value)

    unfoldable pub verify_vote_signature : ℕ → Vote → ℕ → Result CryptoError (Unit {0})
    verify_vote_signature public_key vote signature = do
      fail_if (not (vote.validator_id == validator_id public_key)) validator_mismatch
      fail_if (not (secp256k1.is_public_key public_key)) invalid_public_key
      fail_if (not (secp256k1.is_signature signature)) invalid_signature
      fail_if (secp256k1.has_high_s signature) invalid_signature
      digest ← hash_encoded (encode_vote vote)
      fail_if (not (secp256k1.verify_prehash public_key digest signature)) invalid_signature

    -- The loop over the signatures, which adds up the powers of the signers.
    unfoldable pub verify_signatures :
        QuorumCertificate → List Validator → List CommitSignature → ℕ → Result CryptoError ℕ
    verify_signatures certificate validators [] signed_power = ok signed_power
    verify_signatures certificate validators (commit ∷ commits) signed_power = do
      validator ← ok_or (find_validator commit.validator_id validators) unknown_validator
      verify_vote_signature validator.public_key (vote_of certificate commit) commit.signature
      next ← ok_or (checked_add 128 signed_power validator.power) voting_power_overflow
      verify_signatures certificate validators commits next

    unfoldable pub verify_quorum_certificate :
        QuorumCertificate → ValidatorSet → Result CryptoError (Unit {0})
    verify_quorum_certificate certificate validator_set = do
      validate_validator_set validator_set
      _ ← map_err codec (encode_quorum_certificate certificate)
      total_power ← add_powers validator_set.validators 0
      signed_power ← verify_signatures certificate validator_set.validators certificate.signatures 0
      fail_if (leb (signed_power * 3) (total_power * 2)) insufficient_quorum
