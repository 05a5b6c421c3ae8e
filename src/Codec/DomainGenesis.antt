-- ===== src/Codec/DomainGenesis.antt =====
-- `encode_domain_genesis` and `decode_domain_genesis` of crates/arbor-codec/src/canonical.rs.
use arbor.Base.{
  ℕ, ◌≡◌, ◌≢◌, ◌≤◌, ◌+◌, List, ◌++◌, ◌∷◌, [], Result, ok, err, ◌⨾◌, ◌==◌, if◌then◌else◌, arith,
  append_assoc, length, length-append,
}
use arbor.Base.Bytes.{IsBytes, to_be_bytes, length-to_be_bytes}
use arbor.Primitives.{DomainGenesis, IsDomainGenesis}
use arbor.Codec.Limits.{CodecError, ascii, invalid_value, check_limit}
use arbor.Codec.Encoder
use arbor.Codec.Encoder.{Encoder, ◌▷◌}
use arbor.Codec.Decoder.{
  Parse, pure, ◌>>=◌, ◌>>◌, reject_if, text, u32, u64, u128, b256, u256, address, decode_object,
}
use arbor.Codec.Reads.{
  Reads, bind-Reads, map-Reads, before-Reads, reject_if-Reads, word-Reads, text-Reads,
}
use arbor.Codec.Yields.{
  Yields, field-Yields, reject_if-Yields, pure-Yields, word-Takes, text-Takes, sized,
}
use arbor.Codec.Frame.{frame, length-frame, finish_fits, decode_object-finish, finish-decode_object}

abbrev pub domain_genesis_tag : List ℕ
domain_genesis_tag = ascii "ARBOR_DOMAIN_GENESIS_V1"

unfoldable pub write_domain_genesis : DomainGenesis → Encoder
unfolding Encoder.tagged Encoder.b256 Encoder.put_bytes Encoder.u64 Encoder.address Encoder.u32
    Encoder.u128 Encoder.u256
write_domain_genesis value =
    Encoder.tagged domain_genesis_tag
    ▷ Encoder.b256 value.domain_id
    ▷ Encoder.b256 value.parent_domain_id
    ▷ Encoder.b256 value.joint_domain_block_hash
    ▷ Encoder.b256 value.create_tx_hash
    ▷ Encoder.put_bytes value.name
    ▷ Encoder.put_bytes value.symbol
    ▷ Encoder.u64 value.evm_chain_id
    ▷ Encoder.address value.owner
    ▷ Encoder.u32 value.protocol_revision
    ▷ Encoder.u64 value.gas_limit
    ▷ Encoder.u128 value.initial_base_fee
    ▷ Encoder.u256 value.initial_supply
    ▷ Encoder.b256 value.initial_state_root

unfoldable pub encode_domain_genesis : DomainGenesis → Result CodecError (List ℕ)
encode_domain_genesis value =
    check_limit "domain name" (length value.name) 64
    ⨾ check_limit "domain symbol" (length value.symbol) 16
    ⨾ (if value.evm_chain_id == 0
        then err (invalid_value "evm chain id")
        else Encoder.finish (write_domain_genesis value))

unfoldable pub domain_genesis_fields : Parse DomainGenesis
domain_genesis_fields = do
  domain_id ← b256
  parent_domain_id ← b256
  joint_domain_block_hash ← b256
  create_tx_hash ← b256
  name ← text "domain name" 64
  symbol ← text "domain symbol" 16
  evm_chain_id ← u64
  reject_if (evm_chain_id == 0) (invalid_value "evm chain id")
  owner ← address
  protocol_revision ← u32
  gas_limit ← u64
  initial_base_fee ← u128
  initial_supply ← u256
  initial_state_root ← b256
  pure (record {
    domain_id = domain_id;
    parent_domain_id = parent_domain_id;
    joint_domain_block_hash = joint_domain_block_hash;
    create_tx_hash = create_tx_hash;
    name = name;
    symbol = symbol;
    evm_chain_id = evm_chain_id;
    owner = owner;
    protocol_revision = protocol_revision;
    gas_limit = gas_limit;
    initial_base_fee = initial_base_fee;
    initial_supply = initial_supply;
    initial_state_root = initial_state_root;
  })

unfoldable pub decode_domain_genesis : List ℕ → Result CodecError DomainGenesis
decode_domain_genesis input = decode_object domain_genesis_tag domain_genesis_fields input

-- The encoding behind the tag and the version.
abbrev pub domain_genesis_bytes : DomainGenesis → List ℕ
domain_genesis_bytes v =
    to_be_bytes 32 v.domain_id
    ++ (to_be_bytes 32 v.parent_domain_id
        ++ (to_be_bytes 32 v.joint_domain_block_hash
            ++ (to_be_bytes 32 v.create_tx_hash
                ++ ((sized v.name)
                    ++ ((sized v.symbol)
                        ++ (to_be_bytes 8 v.evm_chain_id
                            ++ (to_be_bytes 20 v.owner
                                ++ (to_be_bytes 4 v.protocol_revision
                                    ++ (to_be_bytes 8 v.gas_limit
                                        ++ (to_be_bytes 16 v.initial_base_fee
                                            ++ (to_be_bytes 32 v.initial_supply
                                                ++ (to_be_bytes 32 v.initial_state_root))))))))))))

domain_genesis_fields-Reads :
    (v : DomainGenesis)
    → IsDomainGenesis v
    → length v.name ≤ 64
    → length v.symbol ≤ 16
    → v.evm_chain_id ≢ 0
    → Reads domain_genesis_fields (domain_genesis_bytes v) v
unfolding domain_genesis_fields
domain_genesis_fields-Reads v h name_fits symbol_fits nz =
    bind-Reads _ _ (word-Reads 32 _ h.domain_id) (
      bind-Reads _ _ (word-Reads 32 _ h.parent_domain_id) (
        bind-Reads _ _ (word-Reads 32 _ h.joint_domain_block_hash) (
          bind-Reads _ _ (word-Reads 32 _ h.create_tx_hash) (
            bind-Reads _ _ (text-Reads _ 64 v.name (omega arith) name_fits h.name.1) (
              bind-Reads _ _ (text-Reads _ 16 v.symbol (omega arith) symbol_fits h.symbol.1) (
                bind-Reads _ _ (word-Reads 8 _ h.evm_chain_id) (
                  before-Reads _ _ (reject_if-Reads _ (ground arith)) (
                    bind-Reads _ _ (word-Reads 20 _ h.owner) (
                      bind-Reads _ _ (word-Reads 4 _ h.protocol_revision) (
                        bind-Reads _ _ (word-Reads 8 _ h.gas_limit) (
                          bind-Reads _ _ (word-Reads 16 _ h.initial_base_fee) (
                            bind-Reads _ _ (word-Reads 32 _ h.initial_supply)
                              (map-Reads _ _ (word-Reads 32 _ h.initial_state_root))))))))))))))

write_domain_genesis_lem :
    (v : DomainGenesis)
    → (write_domain_genesis v).bytes ≡ frame domain_genesis_tag (domain_genesis_bytes v)
unfolding write_domain_genesis frame
write_domain_genesis_lem v = simp append_assoc

length-domain_genesis_bytes :
    (v : DomainGenesis) → length (domain_genesis_bytes v) ≡ 256 + length v.name + length v.symbol
length-domain_genesis_bytes v = simp (length-append, length-to_be_bytes) (omega arith)

length-write_domain_genesis :
    (v : DomainGenesis)
    → length (write_domain_genesis v).bytes ≡ 280 + length v.name + length v.symbol
length-write_domain_genesis v = rw (write_domain_genesis_lem v) (
    omega (
      arith,
      length-frame domain_genesis_tag (domain_genesis_bytes v),
      length-domain_genesis_bytes v,
    ))

-- Encoding fails only for a name or a symbol that is too long, or for the chain ID zero.
pub encode_domain_genesis_total :
    (v : DomainGenesis)
    → length v.name ≤ 64
    → length v.symbol ≤ 16
    → v.evm_chain_id ≢ 0
    → (bs : List ℕ) × (encode_domain_genesis v ≡ ok bs)
unfolding encode_domain_genesis check_limit
encode_domain_genesis_total v name_fits symbol_fits nz =
    let size : length (write_domain_genesis v).bytes ≡ 280 + length v.name + length v.symbol =
      length-write_domain_genesis v in
    let done : Encoder.finish (write_domain_genesis v) ≡ ok (write_domain_genesis v).bytes =
      finish_fits (write_domain_genesis v) (omega arith) in
    ((write_domain_genesis v).bytes, ground (arith, done))

-- A genesis whose fields are in the range of their types, with a name of at most 64 bytes, a symbol
-- of at most 16 and a non-zero chain ID, encodes, and what it encodes to decodes to that genesis. The
-- size is 280 bytes and those of the two texts.
pub decode-encode_domain_genesis :
    (v : DomainGenesis)
    → IsDomainGenesis v
    → length v.name ≤ 64
    → length v.symbol ≤ 16
    → v.evm_chain_id ≢ 0
    → (bs : List ℕ) × (encode_domain_genesis v ≡ ok bs)
      × (length bs ≡ 280 + length v.name + length v.symbol)
      × (decode_domain_genesis bs ≡ ok v)
unfolding encode_domain_genesis decode_domain_genesis check_limit
decode-encode_domain_genesis v h name_fits symbol_fits nz =
    let size : length (write_domain_genesis v).bytes ≡ 280 + length v.name + length v.symbol =
      length-write_domain_genesis v in
    let done : Encoder.finish (write_domain_genesis v) ≡ ok (write_domain_genesis v).bytes =
      finish_fits (write_domain_genesis v) (omega arith) in
    (
      (write_domain_genesis v).bytes,
      ground (arith, done),
      size,
      decode_object-finish domain_genesis_tag domain_genesis_fields (write_domain_genesis v)
          (domain_genesis_fields-Reads v h name_fits symbol_fits nz) (write_domain_genesis_lem v)
          done,
    )

domain_genesis_fields-Yields :
    Yields
      (domain_genesis_tag ++ (Encoder.canonical_codec_version ∷ []))
      domain_genesis_fields
      (λ all v.
        (all ≡ (write_domain_genesis v).bytes)
        × (IsDomainGenesis v
            × (length v.name ≤ 64)
            × (length v.symbol ≤ 16)
            × (v.evm_chain_id ≢ 0)))
unfolding domain_genesis_fields write_domain_genesis
domain_genesis_fields-Yields = field-Yields b256 _ (to_be_bytes 32) (word-Takes 32) (λ x0 w0.
    field-Yields b256 _ (to_be_bytes 32) (word-Takes 32) (λ x1 w1.
      field-Yields b256 _ (to_be_bytes 32) (word-Takes 32) (λ x2 w2.
        field-Yields b256 _ (to_be_bytes 32) (word-Takes 32) (λ x3 w3.
          field-Yields (text _ 64) _ sized (text-Takes _ 64) (λ x4 w4.
            field-Yields (text _ 16) _ sized (text-Takes _ 16) (λ x5 w5.
              field-Yields u64 _ (to_be_bytes 8) (word-Takes 8) (λ x6 w6.
                reject_if-Yields _ _ _ (λ nz.
                  field-Yields address _ (to_be_bytes 20) (word-Takes 20) (λ x7 w7.
                    field-Yields u32 _ (to_be_bytes 4) (word-Takes 4) (λ x8 w8.
                      field-Yields u64 _ (to_be_bytes 8) (word-Takes 8) (λ x9 w9.
                        field-Yields u128 _ (to_be_bytes 16) (word-Takes 16) (λ x10 w10.
                          field-Yields u256 _ (to_be_bytes 32) (word-Takes 32) (λ x11 w11.
                            field-Yields b256 _ (to_be_bytes 32) (word-Takes 32) (λ x12 w12.
                              pure-Yields _ _ (
                                simp append_assoc,
                                (
                                  record {
                                    domain_id = w0;
                                    parent_domain_id = w1;
                                    joint_domain_block_hash = w2;
                                    create_tx_hash = w3;
                                    name = (w4.0.1, w4.1);
                                    symbol = (w5.0.1, w5.1);
                                    evm_chain_id = w6;
                                    owner = w7;
                                    protocol_revision = w8;
                                    gas_limit = w9;
                                    initial_base_fee = w10;
                                    initial_supply = w11;
                                    initial_state_root = w12;
                                  },
                                  w4.0.0,
                                  w5.0.0,
                                  ground arith,
                                ),
                              )))))))))))))))

-- If bytes decode to a domain genesis, then they are what it encodes to, and its fields are in the
-- range of their types.
pub encode-decode_domain_genesis :
    (bs : List ℕ) {v : DomainGenesis}
    → IsBytes bs
    → decode_domain_genesis bs ≡ ok v
    → (encode_domain_genesis v ≡ ok bs) × IsDomainGenesis v
unfolding encode_domain_genesis decode_domain_genesis check_limit
encode-decode_domain_genesis bs {v} h e =
    let (done, valid) =
      finish-decode_object domain_genesis_tag domain_genesis_fields write_domain_genesis
        domain_genesis_fields-Yields h e in
    (ground (arith, done, valid), valid.0)
