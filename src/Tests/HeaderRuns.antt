-- ===== src/Tests/HeaderRuns.antt =====
-- The codecs of votes and headers at concrete objects: each theorem is applied, and the decoders run.
use arbor.Base.{ℕ, ◌≡◌, ◌≢◌, refl, List, ok, err, length, arith}
use arbor.Base.Bytes.{IsBytes, to_be_bytes, from_be, from_be_bytes}
use arbor.Base.Utf8.{is_utf8}
use arbor.Primitives.{ConsensusBlockHeader, DomainBlockHeader, Vote, IsVote}
use arbor.Codec.Limits.{invalid_tag, strictly_sorted, check_limit, check_strictly_sorted}
use arbor.Codec.Decoder
use arbor.Codec.Frame.{frame}
use arbor.Codec.Vote.{
  vote_tag, vote_bytes, vote_fields, encode_vote, decode_vote, decode-encode_vote,
  encode-decode_vote,
}
use arbor.Codec.ConsensusHeader.{
  consensus_header_tag, consensus_header_bytes, consensus_header_fields, decode_consensus_header,
}
use arbor.Codec.DomainHeader.{
  domain_header_tag, domain_header_bytes, domain_header_fields, decode_domain_header,
}
use arbor.Codec.QuorumCertificate.{commit_signature, certificate_fields, decode_quorum_certificate}

abbrev vote_sample : Vote
vote_sample = record {
  network_id = 1;
  height = 2;
  round = 3;
  phase = 4;
  block_hash = 500;
  validator_id = 6;
}

decode-encode_vote_example :
    (bs : List ℕ) × (encode_vote vote_sample ≡ ok bs)
    × (length bs ≡ 127)
    × (decode_vote bs ≡ ok vote_sample)
decode-encode_vote_example = decode-encode_vote vote_sample (omega arith) (omega arith)

vote_decodes : decode_vote (frame vote_tag (vote_bytes vote_sample)) ≡ ok vote_sample
unfolding decode_vote vote_fields Decoder.decode_object Decoder.value_of Decoder.tagged
    Decoder.expect_tag Decoder.same_bytes Decoder.take Decoder.word Decoder.pure Decoder.◌>>=◌
    Decoder.require Decoder.reject_if Decoder.count Decoder.bytes Decoder.text Decoder.finish
    Decoder.repeat from_be_bytes from_be to_be_bytes frame is_utf8 check_limit check_strictly_sorted
    strictly_sorted
vote_decodes = refl

vote_sample-IsBytes : IsBytes (frame vote_tag (vote_bytes vote_sample))
unfolding frame to_be_bytes
vote_sample-IsBytes = omega arith

encode-decode_vote_example :
    (encode_vote vote_sample ≡ ok (frame vote_tag (vote_bytes vote_sample)))
    × IsVote vote_sample
    × (vote_sample.phase ≢ 0)
encode-decode_vote_example =
    encode-decode_vote (frame vote_tag (vote_bytes vote_sample)) vote_sample-IsBytes vote_decodes

abbrev consensus_header_sample : ConsensusBlockHeader
consensus_header_sample = record {
  protocol_version = 1;
  network_id = 2;
  height = 3;
  parent_hash = 4;
  timestamp = 500;
  batches_root = 6;
  domain_results_root = 7;
  domain_heads_root = 8;
  validator_set_hash = 9;
  next_validator_set_hash = 10;
  proposer = 11;
}

consensus_header_decodes :
    decode_consensus_header
      (frame consensus_header_tag (consensus_header_bytes consensus_header_sample))
    ≡ ok consensus_header_sample
unfolding decode_consensus_header consensus_header_fields Decoder.decode_object Decoder.value_of
    Decoder.tagged Decoder.expect_tag Decoder.same_bytes Decoder.take Decoder.word Decoder.pure
    Decoder.◌>>=◌ Decoder.require Decoder.reject_if Decoder.count Decoder.bytes Decoder.text
    Decoder.finish Decoder.repeat from_be_bytes from_be to_be_bytes frame is_utf8 check_limit
    check_strictly_sorted strictly_sorted
consensus_header_decodes = refl

abbrev domain_header_sample : DomainBlockHeader
domain_header_sample = record {
  protocol_version = 1;
  domain_id = 2;
  number = 3;
  parent_hash = 4;
  consensus_height = 500;
  transactions_root = 6;
  state_root = 7;
  receipts_root = 8;
  logs_bloom = 9;
  gas_limit = 10;
  gas_used = 11;
  base_fee_per_gas = 12;
}

domain_header_decodes :
    decode_domain_header (frame domain_header_tag (domain_header_bytes domain_header_sample))
    ≡ ok domain_header_sample
unfolding decode_domain_header domain_header_fields Decoder.decode_object Decoder.value_of
    Decoder.tagged Decoder.expect_tag Decoder.same_bytes Decoder.take Decoder.word Decoder.pure
    Decoder.◌>>=◌ Decoder.require Decoder.reject_if Decoder.count Decoder.bytes Decoder.text
    Decoder.finish Decoder.repeat from_be_bytes from_be to_be_bytes frame is_utf8 check_limit
    check_strictly_sorted strictly_sorted
domain_header_decodes = refl

-- A vote's bytes are no certificate: the decoder refuses their tag.
vote_is_no_certificate :
    decode_quorum_certificate (frame vote_tag (vote_bytes vote_sample)) ≡ err invalid_tag
unfolding decode_quorum_certificate certificate_fields commit_signature Decoder.decode_object
    Decoder.value_of Decoder.tagged Decoder.expect_tag Decoder.same_bytes Decoder.take Decoder.word
    Decoder.pure Decoder.◌>>=◌ Decoder.require Decoder.reject_if Decoder.count Decoder.bytes
    Decoder.text Decoder.finish Decoder.repeat from_be_bytes from_be to_be_bytes frame is_utf8
    check_limit check_strictly_sorted strictly_sorted
vote_is_no_certificate = refl
