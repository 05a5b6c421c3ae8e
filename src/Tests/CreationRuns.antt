-- ===== src/Tests/CreationRuns.antt =====
-- A chain that is prepared, with the length of what is hashed as its hash, and texts that are normalized.
use arbor.Base.{◌+◌, ◌^◌, ◌≤◌, ◌<◌, ◌≡◌, ◌↔◌, refl, [], ◌∷◌, ok, err}
use arbor.Base.Bytes.{to_be_bytes}
use arbor.Base.Utf8.{is_utf8}
use arbor.Codec.Limits.{ascii, check_limit}
use arbor.Codec.Encoder
use arbor.Codec.Status.{status_code}
use arbor.Codec.DomainGenesis.{encode_domain_genesis, write_domain_genesis}
use arbor.Codec.DomainDescriptor.{encode_domain_descriptor, write_domain_descriptor}
use arbor.Crypto.{derive_domain_id, domain_genesis_hash, hash_encoded}
use arbor.Primitives.{active}
use arbor.System.{CreateChainRequest, PreparedChainCreation, validate_request, invalid_metadata}
use arbor.System.Names.{
  normalize_name, normalize_symbol, is_ascii_whitespace, is_ascii_alphanumeric, to_ascii_uppercase,
  all_bytes, add_word, split_ascii_whitespace, join, is_empty, whitespace_width, trim_start,
  trim_end,
}
use arbor.System.Creation.{normalize_request, genesis_of, descriptor_of, prepare_chain_creation}
use arbor.System.Prepare.{prepare_chain_creation_iff}
use arbor.Chain.Limits.{validate_config}
use arbor.Chain.Domains.{config_of}
use arbor.Chain.Checkpoint.{validate_checkpoint_descriptor}
use arbor.Chain.Created.{validate_checkpoint-prepare_chain_creation}
use arbor.Tests.SystemRuns.{request}
use arbor.Tests.ChainRuns.{keccak}

name_normalized : normalize_name (ascii "  My \t chain ") ≡ ok (ascii "My chain")
unfolding normalize_name is_utf8 is_ascii_whitespace is_ascii_alphanumeric all_bytes add_word
    split_ascii_whitespace join is_empty
name_normalized = refl

-- Around the symbol stand a no-break space and an em space.
symbol_normalized :
    normalize_symbol (0xC2 ∷ 0xA0 ∷ 97 ∷ 98 ∷ 49 ∷ 0xE2 ∷ 0x80 ∷ 0x83 ∷ []) ≡ ok (65 ∷ 66 ∷ 49 ∷ [])
unfolding normalize_symbol is_utf8 is_ascii_alphanumeric to_ascii_uppercase all_bytes is_empty
    whitespace_width trim_start trim_end
symbol_normalized = refl

blank_refused : normalize_name (32 ∷ 9 ∷ []) ≡ err invalid_metadata
unfolding normalize_name is_utf8 is_ascii_whitespace is_ascii_alphanumeric all_bytes add_word
    split_ascii_whitespace join is_empty
blank_refused = refl

abbrev prepared_sample : PreparedChainCreation
prepared_sample = record {
  request = request;
  descriptor = record {
    domain_id = 112;
    parent_domain_id = 17;
    joint_domain_block_hash = 6;
    create_tx_hash = 5;
    origin_hash = 282;
    name = 68 ∷ [];
    symbol = 68 ∷ [];
    evm_chain_id = 2049;
    owner = 170;
    protocol_revision = 1;
    gas_limit = 20000000;
    initial_base_fee = 10;
    initial_supply = 1000000;
    creation_deposit = 1000000000000000000;
    status = active;
  };
  descriptor_hash = 318;
  creation_height = 3;
  deposit_unlock_height = 103;
}

prepared_sample-prepared :
    prepare_chain_creation keccak request 1 5 6 7 1000000000000000000 3 ≡ ok prepared_sample
unfolding prepare_chain_creation normalize_request genesis_of descriptor_of validate_request
    normalize_name normalize_symbol is_utf8 is_ascii_whitespace is_ascii_alphanumeric
    to_ascii_uppercase all_bytes add_word split_ascii_whitespace join is_empty whitespace_width
    trim_start trim_end derive_domain_id domain_genesis_hash hash_encoded encode_domain_genesis
    encode_domain_descriptor write_domain_genesis write_domain_descriptor check_limit status_code
    to_be_bytes Encoder.tagged Encoder.u8 Encoder.u32 Encoder.u64 Encoder.u128 Encoder.u256
    Encoder.b256 Encoder.address Encoder.put_bytes Encoder.finish Encoder.count
prepared_sample-prepared = refl

prepare_chain_creation_iff_example :
    ((p : PreparedChainCreation) × (prepare_chain_creation keccak request 1 5 6 7
          1000000000000000000 3
        ≡ ok p))
    ↔ ((normalized : CreateChainRequest) × (normalize_request request ≡ ok normalized)
        × (1000000000000000000 ≤ 1000000000000000000)
        × (3 + 100 < 2 ^ 64))
prepare_chain_creation_iff_example =
    prepare_chain_creation_iff keccak request 1 5 6 7 1000000000000000000 3

validate_checkpoint-prepare_chain_creation_example :
    (validate_checkpoint_descriptor keccak 1 112
        (config_of prepared_sample.descriptor)
        prepared_sample.descriptor
      ≡ ok tt)
    × (validate_config (config_of prepared_sample.descriptor) ≡ ok tt)
validate_checkpoint-prepare_chain_creation_example =
    validate_checkpoint-prepare_chain_creation keccak request 1 5 6 7 1000000000000000000 3
      prepared_sample-prepared
