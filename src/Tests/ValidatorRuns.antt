-- ===== src/Tests/ValidatorRuns.antt =====
-- The codecs of validator sets and certificates at concrete objects.
use arbor.Base.{ℕ, ◌≡◌, refl, List, [], ◌∷◌, ok, length, arith}
use arbor.Base.Bytes.{IsBytes, to_be_bytes, from_be, from_be_bytes}
use arbor.Base.Utf8.{is_utf8}
use arbor.Primitives.{ValidatorSet, IsValidatorSet, QuorumCertificate, IsQuorumCertificate}
use arbor.Codec.Limits.{strictly_sorted, check_limit, check_strictly_sorted}
use arbor.Codec.Decoder
use arbor.Codec.Frame.{frame}
use arbor.Codec.ValidatorSet.{
  validator_set_tag, validator, validator_set_fields, encode_validator_set, decode_validator_set,
  decode-encode_validator_set, encode-decode_validator_set, set_bytes,
  IsCanonical as IsCanonicalSet,
}
use arbor.Codec.QuorumCertificate.{
  qc_tag, commit_signature, certificate_fields, encode_quorum_certificate,
  decode_quorum_certificate, decode-encode_quorum_certificate, encode-decode_quorum_certificate,
  certificate_bytes, IsCanonical as IsCanonicalCertificate,
}

abbrev set_sample : ValidatorSet
set_sample = record {
  epoch = 1;
  validators =
      record { id = 3; public_key = 4; power = 10 }
      ∷ record { id = 5; public_key = 6; power = 20 }
      ∷ [];
}

set_sample-IsCanonical : IsCanonicalSet set_sample
unfolding strictly_sorted
set_sample-IsCanonical = record {
  bounded = omega arith;
  inhabited = omega arith;
  sorted = refl;
  powered = omega arith;
}

decode-encode_validator_set_example :
    (bs : List ℕ) × (encode_validator_set set_sample ≡ ok bs)
    × (length bs ≡ 181)
    × (decode_validator_set bs ≡ ok set_sample)
decode-encode_validator_set_example =
    decode-encode_validator_set set_sample (omega arith) set_sample-IsCanonical

validator_set_decodes :
    decode_validator_set (frame validator_set_tag (set_bytes set_sample)) ≡ ok set_sample
unfolding decode_validator_set validator_set_fields validator Decoder.decode_object Decoder.value_of
    Decoder.tagged Decoder.expect_tag Decoder.same_bytes Decoder.take Decoder.word Decoder.pure
    Decoder.◌>>=◌ Decoder.require Decoder.reject_if Decoder.count Decoder.bytes Decoder.text
    Decoder.finish Decoder.repeat from_be_bytes from_be to_be_bytes frame is_utf8 check_limit
    check_strictly_sorted strictly_sorted
validator_set_decodes = refl

set_sample-IsBytes : IsBytes (frame validator_set_tag (set_bytes set_sample))
unfolding frame to_be_bytes
set_sample-IsBytes = omega arith

encode-decode_validator_set_example :
    (encode_validator_set set_sample ≡ ok (frame validator_set_tag (set_bytes set_sample)))
    × IsValidatorSet set_sample
    × IsCanonicalSet set_sample
encode-decode_validator_set_example =
    encode-decode_validator_set (frame validator_set_tag (set_bytes set_sample)) set_sample-IsBytes
      validator_set_decodes

abbrev certificate_sample : QuorumCertificate
certificate_sample = record {
  network_id = 1;
  height = 2;
  round = 3;
  phase = 4;
  block_hash = 5;
  signatures =
      record { validator_id = 3; signature = 9 } ∷ record { validator_id = 5; signature = 8 } ∷ [];
}

certificate_sample-IsCanonical : IsCanonicalCertificate certificate_sample
unfolding strictly_sorted
certificate_sample-IsCanonical = record {
  phase = omega arith;
  bounded = omega arith;
  inhabited = omega arith;
  sorted = refl;
}

decode-encode_quorum_certificate_example :
    (bs : List ℕ) × (encode_quorum_certificate certificate_sample ≡ ok bs)
    × (length bs ≡ 289)
    × (decode_quorum_certificate bs ≡ ok certificate_sample)
decode-encode_quorum_certificate_example =
    decode-encode_quorum_certificate certificate_sample (omega arith) certificate_sample-IsCanonical

quorum_certificate_decodes :
    decode_quorum_certificate (frame qc_tag (certificate_bytes certificate_sample))
    ≡ ok certificate_sample
unfolding decode_quorum_certificate certificate_fields commit_signature Decoder.decode_object
    Decoder.value_of Decoder.tagged Decoder.expect_tag Decoder.same_bytes Decoder.take Decoder.word
    Decoder.pure Decoder.◌>>=◌ Decoder.require Decoder.reject_if Decoder.count Decoder.bytes
    Decoder.text Decoder.finish Decoder.repeat from_be_bytes from_be to_be_bytes frame is_utf8
    check_limit check_strictly_sorted strictly_sorted
quorum_certificate_decodes = refl

certificate_sample-IsBytes : IsBytes (frame qc_tag (certificate_bytes certificate_sample))
unfolding frame to_be_bytes
certificate_sample-IsBytes = omega arith

encode-decode_quorum_certificate_example :
    (encode_quorum_certificate certificate_sample
      ≡ ok (frame qc_tag (certificate_bytes certificate_sample)))
    × IsQuorumCertificate certificate_sample
    × IsCanonicalCertificate certificate_sample
encode-decode_quorum_certificate_example =
    encode-decode_quorum_certificate (frame qc_tag (certificate_bytes certificate_sample))
      certificate_sample-IsBytes quorum_certificate_decodes
