-- ===== src/Tests/CryptoRuns.antt =====
-- Certificates over three validators, hashed by the last byte of what is hashed.
use arbor.Base.{ℕ, ◌%◌, ◌*◌, ◌<◌, ◌==◌, ◌&&◌, ◌≡◌, refl, true, false, List, [], ◌∷◌, All, ok}
use arbor.Base.Bytes.{to_be_bytes, from_be, from_be_bytes}
use arbor.Primitives.{ValidatorSet, QuorumCertificate}
use arbor.Codec.Limits.{strictly_sorted, check_limit, check_strictly_sorted}
use arbor.Codec.Encoder
use arbor.Codec.Vote.{encode_vote, write_vote}
use arbor.Codec.QuorumCertificate.{
  encode_quorum_certificate, write_certificate, write_signatures, write_signature,
}
use arbor.Crypto.{
  Secp256k1, find_validator, narrow, validator_at, add_powers, vote_of, hash_encoded, validator_id,
  check_validators, validate_validator_set, verify_vote_signature, verify_signatures,
  verify_quorum_certificate,
}
use arbor.Crypto.Power.{power_where, total_power, is_in}
use arbor.Crypto.Quorum.{IsSigned, ids, verify_quorum_certificate_lem, quorum_intersection}

abbrev keccak : List ℕ → ℕ
keccak bytes = from_be_bytes bytes % 256

-- Every key signs with itself.
abbrev keys : Secp256k1
keys = record {
  is_public_key = λ key. true;
  is_signature = λ signature. true;
  has_high_s = λ signature. false;
  verify_prehash = λ key digest signature. key == signature;
}

abbrev set_of_three : ValidatorSet
set_of_three = record {
  epoch = 1;
  validators =
      record { id = 3; public_key = 3; power = 10 }
      ∷ record { id = 5; public_key = 5; power = 20 }
      ∷ record { id = 9; public_key = 9; power = 5 }
      ∷ [];
}

-- The certificate of a block that two validators sign.
abbrev certificate_of : ℕ → ℕ → ℕ → QuorumCertificate
certificate_of block_hash a b = record {
  network_id = 1;
  height = 2;
  round = 3;
  phase = 4;
  block_hash = block_hash;
  signatures =
      record { validator_id = a; signature = a } ∷ record { validator_id = b; signature = b } ∷ [];
}

verify_first : verify_quorum_certificate keccak keys (certificate_of 7 3 5) set_of_three ≡ ok tt
unfolding verify_quorum_certificate validate_validator_set check_validators validator_id
    from_be_bytes from_be to_be_bytes encode_quorum_certificate check_limit check_strictly_sorted
    strictly_sorted write_certificate write_signatures write_signature add_powers verify_signatures
    find_validator narrow validator_at verify_vote_signature encode_vote write_vote hash_encoded
    vote_of Encoder.finish Encoder.b256 Encoder.count Encoder.tagged Encoder.u32 Encoder.u64
    Encoder.u8 Encoder.put_bytes
verify_first = refl

verify_second : verify_quorum_certificate keccak keys (certificate_of 8 5 9) set_of_three ≡ ok tt
unfolding verify_quorum_certificate validate_validator_set check_validators validator_id
    from_be_bytes from_be to_be_bytes encode_quorum_certificate check_limit check_strictly_sorted
    strictly_sorted write_certificate write_signatures write_signature add_powers verify_signatures
    find_validator narrow validator_at verify_vote_signature encode_vote write_vote hash_encoded
    vote_of Encoder.finish Encoder.b256 Encoder.count Encoder.tagged Encoder.u32 Encoder.u64
    Encoder.u8 Encoder.put_bytes
verify_second = refl

set_of_three-sorted : strictly_sorted (ids set_of_three) ≡ true
unfolding strictly_sorted
set_of_three-sorted = refl

verify_quorum_certificate_example :
    (strictly_sorted (3 ∷ 5 ∷ []) ≡ true)
    × All
        (IsSigned keccak keys (certificate_of 7 3 5) set_of_three.validators)
        (certificate_of 7 3 5).signatures
    × (2 * total_power set_of_three.validators
        < 3 * power_where (is_in (3 ∷ 5 ∷ [])) set_of_three.validators)
verify_quorum_certificate_example =
    verify_quorum_certificate_lem keccak keys (certificate_of 7 3 5) set_of_three
      set_of_three-sorted verify_first

quorum_intersection_example :
    total_power set_of_three.validators
    < 3 * power_where (λ id. is_in (3 ∷ 5 ∷ []) id && is_in (5 ∷ 9 ∷ []) id) set_of_three.validators
quorum_intersection_example =
    quorum_intersection keccak keys (certificate_of 7 3 5) (certificate_of 8 5 9) set_of_three
      set_of_three-sorted verify_first verify_second
