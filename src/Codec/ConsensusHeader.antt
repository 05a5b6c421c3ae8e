-- ===== src/Codec/ConsensusHeader.antt =====
-- `encode_consensus_header` and `decode_consensus_header` of crates/arbor-codec/src/canonical.rs.
use arbor.Base.{
  ℕ, ◌≡◌, refl, List, ◌++◌, ◌∷◌, [], Result, ok, arith, append_assoc, length, length-append,
}
use arbor.Base.Bytes.{IsBytes, to_be_bytes, length-to_be_bytes}
use arbor.Primitives.{ConsensusBlockHeader, IsConsensusBlockHeader}
use arbor.Codec.Limits.{CodecError, ascii, check_limit}
use arbor.Codec.Encoder
use arbor.Codec.Encoder.{Encoder, ◌▷◌}
use arbor.Codec.Decoder.{Parse, pure, ◌>>=◌, u32, u64, b256, address, decode_object}
use arbor.Codec.Reads.{Reads, bind-Reads, map-Reads, word-Reads}
use arbor.Codec.Yields.{Yields, field-Yields, pure-Yields, word-Takes}
use arbor.Codec.Frame.{frame, length-frame, finish_fits, decode_object-finish, finish-decode_object}

abbrev pub consensus_header_tag : List ℕ
consensus_header_tag = ascii "ARBOR_CONSENSUS_HEADER_V1"

unfoldable pub write_consensus_header : ConsensusBlockHeader → Encoder
unfolding Encoder.tagged Encoder.u32 Encoder.b256 Encoder.u64 Encoder.address
write_consensus_header value =
    Encoder.tagged consensus_header_tag
    ▷ Encoder.u32 value.protocol_version
    ▷ Encoder.b256 value.network_id
    ▷ Encoder.u64 value.height
    ▷ Encoder.b256 value.parent_hash
    ▷ Encoder.u64 value.timestamp
    ▷ Encoder.b256 value.batches_root
    ▷ Encoder.b256 value.domain_results_root
    ▷ Encoder.b256 value.domain_heads_root
    ▷ Encoder.b256 value.validator_set_hash
    ▷ Encoder.b256 value.next_validator_set_hash
    ▷ Encoder.address value.proposer

unfoldable pub encode_consensus_header : ConsensusBlockHeader → Result CodecError (List ℕ)
encode_consensus_header value = Encoder.finish (write_consensus_header value)

unfoldable pub consensus_header_fields : Parse ConsensusBlockHeader
consensus_header_fields = do
  protocol_version ← u32
  network_id ← b256
  height ← u64
  parent_hash ← b256
  timestamp ← u64
  batches_root ← b256
  domain_results_root ← b256
  domain_heads_root ← b256
  validator_set_hash ← b256
  next_validator_set_hash ← b256
  proposer ← address
  pure (record {
    protocol_version = protocol_version;
    network_id = network_id;
    height = height;
    parent_hash = parent_hash;
    timestamp = timestamp;
    batches_root = batches_root;
    domain_results_root = domain_results_root;
    domain_heads_root = domain_heads_root;
    validator_set_hash = validator_set_hash;
    next_validator_set_hash = next_validator_set_hash;
    proposer = proposer;
  })

unfoldable pub decode_consensus_header : List ℕ → Result CodecError ConsensusBlockHeader
decode_consensus_header input = decode_object consensus_header_tag consensus_header_fields input

-- The encoding behind the tag and the version.
abbrev pub consensus_header_bytes : ConsensusBlockHeader → List ℕ
consensus_header_bytes v =
    to_be_bytes 4 v.protocol_version
    ++ (to_be_bytes 32 v.network_id
        ++ (to_be_bytes 8 v.height
            ++ (to_be_bytes 32 v.parent_hash
                ++ (to_be_bytes 8 v.timestamp
                    ++ (to_be_bytes 32 v.batches_root
                        ++ (to_be_bytes 32 v.domain_results_root
                            ++ (to_be_bytes 32 v.domain_heads_root
                                ++ (to_be_bytes 32 v.validator_set_hash
                                    ++ (to_be_bytes 32 v.next_validator_set_hash
                                        ++ (to_be_bytes 20 v.proposer))))))))))

consensus_header_fields-Reads :
    (v : ConsensusBlockHeader)
    → IsConsensusBlockHeader v
    → Reads consensus_header_fields (consensus_header_bytes v) v
unfolding consensus_header_fields
consensus_header_fields-Reads v h = bind-Reads _ _ (word-Reads 4 _ h.protocol_version) (
    bind-Reads _ _ (word-Reads 32 _ h.network_id) (
      bind-Reads _ _ (word-Reads 8 _ h.height) (
        bind-Reads _ _ (word-Reads 32 _ h.parent_hash) (
          bind-Reads _ _ (word-Reads 8 _ h.timestamp) (
            bind-Reads _ _ (word-Reads 32 _ h.batches_root) (
              bind-Reads _ _ (word-Reads 32 _ h.domain_results_root) (
                bind-Reads _ _ (word-Reads 32 _ h.domain_heads_root) (
                  bind-Reads _ _ (word-Reads 32 _ h.validator_set_hash) (
                    bind-Reads _ _ (word-Reads 32 _ h.next_validator_set_hash)
                      (map-Reads _ _ (word-Reads 20 _ h.proposer)))))))))))

write_consensus_header_lem :
    (v : ConsensusBlockHeader)
    → (write_consensus_header v).bytes ≡ frame consensus_header_tag (consensus_header_bytes v)
unfolding write_consensus_header frame
write_consensus_header_lem v = simp append_assoc

length-consensus_header_bytes : (v : ConsensusBlockHeader) → length (consensus_header_bytes v) ≡ 264
length-consensus_header_bytes v = simp (length-append, length-to_be_bytes)

length-write_consensus_header :
    (v : ConsensusBlockHeader) → length (write_consensus_header v).bytes ≡ 290
length-write_consensus_header v = rw (write_consensus_header_lem v) (
    omega (
      arith,
      length-frame consensus_header_tag (consensus_header_bytes v),
      length-consensus_header_bytes v,
    ))

-- Every consensus header whose fields are in the range of their types encodes, to 290 bytes, and
-- they decode to that header.
pub decode-encode_consensus_header :
    (v : ConsensusBlockHeader)
    → IsConsensusBlockHeader v
    → (bs : List ℕ) × (encode_consensus_header v ≡ ok bs)
      × (length bs ≡ 290)
      × (decode_consensus_header bs ≡ ok v)
unfolding encode_consensus_header decode_consensus_header check_limit
decode-encode_consensus_header v h =
    let size : length (write_consensus_header v).bytes ≡ 290 = length-write_consensus_header v in
    let done : Encoder.finish (write_consensus_header v) ≡ ok (write_consensus_header v).bytes =
      finish_fits (write_consensus_header v) (omega arith) in
    (
      (write_consensus_header v).bytes,
      done,
      size,
      decode_object-finish consensus_header_tag consensus_header_fields (write_consensus_header v)
          (consensus_header_fields-Reads v h) (write_consensus_header_lem v) done,
    )

consensus_header_fields-Yields :
    Yields
      (consensus_header_tag ++ (Encoder.canonical_codec_version ∷ []))
      consensus_header_fields
      (λ all v. (all ≡ (write_consensus_header v).bytes) × (IsConsensusBlockHeader v))
unfolding consensus_header_fields write_consensus_header
consensus_header_fields-Yields = field-Yields u32 _ (to_be_bytes 4) (word-Takes 4) (λ x0 w0.
    field-Yields b256 _ (to_be_bytes 32) (word-Takes 32) (λ x1 w1.
      field-Yields u64 _ (to_be_bytes 8) (word-Takes 8) (λ x2 w2.
        field-Yields b256 _ (to_be_bytes 32) (word-Takes 32) (λ x3 w3.
          field-Yields u64 _ (to_be_bytes 8) (word-Takes 8) (λ x4 w4.
            field-Yields b256 _ (to_be_bytes 32) (word-Takes 32) (λ x5 w5.
              field-Yields b256 _ (to_be_bytes 32) (word-Takes 32) (λ x6 w6.
                field-Yields b256 _ (to_be_bytes 32) (word-Takes 32) (λ x7 w7.
                  field-Yields b256 _ (to_be_bytes 32) (word-Takes 32) (λ x8 w8.
                    field-Yields b256 _ (to_be_bytes 32) (word-Takes 32) (λ x9 w9.
                      field-Yields address _ (to_be_bytes 20) (word-Takes 20) (λ x10 w10.
                        pure-Yields _ _ (
                          refl,
                          record {
                            protocol_version = w0;
                            network_id = w1;
                            height = w2;
                            parent_hash = w3;
                            timestamp = w4;
                            batches_root = w5;
                            domain_results_root = w6;
                            domain_heads_root = w7;
                            validator_set_hash = w8;
                            next_validator_set_hash = w9;
                            proposer = w10;
                          },
                        ))))))))))))

-- If bytes decode to a consensus header, then they are what it encodes to, and its fields are in the
-- range of their types.
pub encode-decode_consensus_header :
    (bs : List ℕ) {v : ConsensusBlockHeader}
    → IsBytes bs
    → decode_consensus_header bs ≡ ok v
    → (encode_consensus_header v ≡ ok bs) × IsConsensusBlockHeader v
unfolding encode_consensus_header decode_consensus_header check_limit
encode-decode_consensus_header bs {v} h e =
    let (done, valid) =
      finish-decode_object consensus_header_tag consensus_header_fields write_consensus_header
        consensus_header_fields-Yields h e in
    (done, valid)
