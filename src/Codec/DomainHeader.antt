-- ===== src/Codec/DomainHeader.antt =====
-- `encode_domain_header` and `decode_domain_header` of crates/arbor-codec/src/canonical.rs.
use arbor.Base.{
  ℕ, ◌≡◌, refl, List, ◌++◌, ◌∷◌, [], Result, ok, arith, append_assoc, length, length-append,
}
use arbor.Base.Bytes.{IsBytes, to_be_bytes, length-to_be_bytes}
use arbor.Primitives.{DomainBlockHeader, IsDomainBlockHeader}
use arbor.Codec.Limits.{CodecError, ascii, check_limit}
use arbor.Codec.Encoder
use arbor.Codec.Encoder.{Encoder, ◌▷◌}
use arbor.Codec.Decoder.{Parse, pure, ◌>>=◌, u32, u64, u128, b256, bloom, decode_object}
use arbor.Codec.Reads.{Reads, bind-Reads, map-Reads, word-Reads}
use arbor.Codec.Yields.{Yields, field-Yields, pure-Yields, word-Takes}
use arbor.Codec.Frame.{frame, length-frame, finish_fits, decode_object-finish, finish-decode_object}

abbrev pub domain_header_tag : List ℕ
domain_header_tag = ascii "ARBOR_DOMAIN_HEADER_V1"

unfoldable pub write_domain_header : DomainBlockHeader → Encoder
unfolding Encoder.tagged Encoder.u32 Encoder.b256 Encoder.u64 Encoder.bloom Encoder.u128
write_domain_header value =
    Encoder.tagged domain_header_tag
    ▷ Encoder.u32 value.protocol_version
    ▷ Encoder.b256 value.domain_id
    ▷ Encoder.u64 value.number
    ▷ Encoder.b256 value.parent_hash
    ▷ Encoder.u64 value.consensus_height
    ▷ Encoder.b256 value.transactions_root
    ▷ Encoder.b256 value.state_root
    ▷ Encoder.b256 value.receipts_root
    ▷ Encoder.bloom value.logs_bloom
    ▷ Encoder.u64 value.gas_limit
    ▷ Encoder.u64 value.gas_used
    ▷ Encoder.u128 value.base_fee_per_gas

unfoldable pub encode_domain_header : DomainBlockHeader → Result CodecError (List ℕ)
encode_domain_header value = Encoder.finish (write_domain_header value)

unfoldable pub domain_header_fields : Parse DomainBlockHeader
domain_header_fields = do
  protocol_version ← u32
  domain_id ← b256
  number ← u64
  parent_hash ← b256
  consensus_height ← u64
  transactions_root ← b256
  state_root ← b256
  receipts_root ← b256
  logs_bloom ← bloom
  gas_limit ← u64
  gas_used ← u64
  base_fee_per_gas ← u128
  pure (record {
    protocol_version = protocol_version;
    domain_id = domain_id;
    number = number;
    parent_hash = parent_hash;
    consensus_height = consensus_height;
    transactions_root = transactions_root;
    state_root = state_root;
    receipts_root = receipts_root;
    logs_bloom = logs_bloom;
    gas_limit = gas_limit;
    gas_used = gas_used;
    base_fee_per_gas = base_fee_per_gas;
  })

unfoldable pub decode_domain_header : List ℕ → Result CodecError DomainBlockHeader
decode_domain_header input = decode_object domain_header_tag domain_header_fields input

-- The encoding behind the tag and the version.
abbrev pub domain_header_bytes : DomainBlockHeader → List ℕ
domain_header_bytes v =
    to_be_bytes 4 v.protocol_version
    ++ (to_be_bytes 32 v.domain_id
        ++ (to_be_bytes 8 v.number
            ++ (to_be_bytes 32 v.parent_hash
                ++ (to_be_bytes 8 v.consensus_height
                    ++ (to_be_bytes 32 v.transactions_root
                        ++ (to_be_bytes 32 v.state_root
                            ++ (to_be_bytes 32 v.receipts_root
                                ++ (to_be_bytes 256 v.logs_bloom
                                    ++ (to_be_bytes 8 v.gas_limit
                                        ++ (to_be_bytes 8 v.gas_used
                                            ++ (to_be_bytes 16 v.base_fee_per_gas)))))))))))

domain_header_fields-Reads :
    (v : DomainBlockHeader)
    → IsDomainBlockHeader v
    → Reads domain_header_fields (domain_header_bytes v) v
unfolding domain_header_fields
domain_header_fields-Reads v h = bind-Reads _ _ (word-Reads 4 _ h.protocol_version) (
    bind-Reads _ _ (word-Reads 32 _ h.domain_id) (
      bind-Reads _ _ (word-Reads 8 _ h.number) (
        bind-Reads _ _ (word-Reads 32 _ h.parent_hash) (
          bind-Reads _ _ (word-Reads 8 _ h.consensus_height) (
            bind-Reads _ _ (word-Reads 32 _ h.transactions_root) (
              bind-Reads _ _ (word-Reads 32 _ h.state_root) (
                bind-Reads _ _ (word-Reads 32 _ h.receipts_root) (
                  bind-Reads _ _ (word-Reads 256 _ h.logs_bloom) (
                    bind-Reads _ _ (word-Reads 8 _ h.gas_limit) (
                      bind-Reads _ _ (word-Reads 8 _ h.gas_used)
                        (map-Reads _ _ (word-Reads 16 _ h.base_fee_per_gas))))))))))))

write_domain_header_lem :
    (v : DomainBlockHeader)
    → (write_domain_header v).bytes ≡ frame domain_header_tag (domain_header_bytes v)
unfolding write_domain_header frame
write_domain_header_lem v = simp append_assoc

length-domain_header_bytes : (v : DomainBlockHeader) → length (domain_header_bytes v) ≡ 468
length-domain_header_bytes v = simp (length-append, length-to_be_bytes)

length-write_domain_header : (v : DomainBlockHeader) → length (write_domain_header v).bytes ≡ 491
length-write_domain_header v = rw (write_domain_header_lem v) (
    omega
      (arith, length-frame domain_header_tag (domain_header_bytes v), length-domain_header_bytes v))

-- Every domain header whose fields are in the range of their types encodes, to 491 bytes, and they
-- decode to that header.
pub decode-encode_domain_header :
    (v : DomainBlockHeader)
    → IsDomainBlockHeader v
    → (bs : List ℕ) × (encode_domain_header v ≡ ok bs)
      × (length bs ≡ 491)
      × (decode_domain_header bs ≡ ok v)
unfolding encode_domain_header decode_domain_header check_limit
decode-encode_domain_header v h =
    let size : length (write_domain_header v).bytes ≡ 491 = length-write_domain_header v in
    let done : Encoder.finish (write_domain_header v) ≡ ok (write_domain_header v).bytes =
      finish_fits (write_domain_header v) (omega arith) in
    (
      (write_domain_header v).bytes,
      done,
      size,
      decode_object-finish domain_header_tag domain_header_fields (write_domain_header v)
          (domain_header_fields-Reads v h) (write_domain_header_lem v) done,
    )

domain_header_fields-Yields :
    Yields
      (domain_header_tag ++ (Encoder.canonical_codec_version ∷ []))
      domain_header_fields
      (λ all v. (all ≡ (write_domain_header v).bytes) × (IsDomainBlockHeader v))
unfolding domain_header_fields write_domain_header
domain_header_fields-Yields = field-Yields u32 _ (to_be_bytes 4) (word-Takes 4) (λ x0 w0.
    field-Yields b256 _ (to_be_bytes 32) (word-Takes 32) (λ x1 w1.
      field-Yields u64 _ (to_be_bytes 8) (word-Takes 8) (λ x2 w2.
        field-Yields b256 _ (to_be_bytes 32) (word-Takes 32) (λ x3 w3.
          field-Yields u64 _ (to_be_bytes 8) (word-Takes 8) (λ x4 w4.
            field-Yields b256 _ (to_be_bytes 32) (word-Takes 32) (λ x5 w5.
              field-Yields b256 _ (to_be_bytes 32) (word-Takes 32) (λ x6 w6.
                field-Yields b256 _ (to_be_bytes 32) (word-Takes 32) (λ x7 w7.
                  field-Yields bloom _ (to_be_bytes 256) (word-Takes 256) (λ x8 w8.
                    field-Yields u64 _ (to_be_bytes 8) (word-Takes 8) (λ x9 w9.
                      field-Yields u64 _ (to_be_bytes 8) (word-Takes 8) (λ x10 w10.
                        field-Yields u128 _ (to_be_bytes 16) (word-Takes 16) (λ x11 w11.
                          pure-Yields _ _ (
                            refl,
                            record {
                              protocol_version = w0;
                              domain_id = w1;
                              number = w2;
                              parent_hash = w3;
                              consensus_height = w4;
                              transactions_root = w5;
                              state_root = w6;
                              receipts_root = w7;
                              logs_bloom = w8;
                              gas_limit = w9;
                              gas_used = w10;
                              base_fee_per_gas = w11;
                            },
                          )))))))))))))

-- If bytes decode to a domain header, then they are what it encodes to, and its fields are in the
-- range of their types.
pub encode-decode_domain_header :
    (bs : List ℕ) {v : DomainBlockHeader}
    → IsBytes bs
    → decode_domain_header bs ≡ ok v
    → (encode_domain_header v ≡ ok bs) × IsDomainBlockHeader v
unfolding encode_domain_header decode_domain_header check_limit
encode-decode_domain_header bs {v} h e =
    let (done, valid) =
      finish-decode_object domain_header_tag domain_header_fields write_domain_header
        domain_header_fields-Yields h e in
    (done, valid)
