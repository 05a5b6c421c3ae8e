-- ===== src/Tests/CheckpointRuns.antt =====
-- A checkpoint of a root domain and one created domain, hashed by the length of what is hashed.
use arbor.Base.{ℕ, ◌≡◌, refl, Option, none, some, List, [], ◌∷◌, All, ok, length}
use arbor.Base.Ord.{nat_ord}
use arbor.Base.Bytes.{to_be_bytes}
use arbor.Base.BTreeMap.{get, insert, contains_key}
use arbor.Base.BTreeMap.Keys.{Every}
use arbor.Primitives.{DomainBlockHeader, DomainDescriptor, DomainStatus, DomainId}
use arbor.Codec.Limits.{ascii, strictly_sorted, check_limit}
use arbor.Codec.Encoder
use arbor.Codec.DomainHeader.{encode_domain_header, write_domain_header}
use arbor.Codec.Status.{status_code}
use arbor.Codec.DomainDescriptor.{encode_domain_descriptor, write_domain_descriptor}
use arbor.Crypto.{derive_domain_id, domain_header_hash, hash_encoded}
use arbor.State.DomainHeads
use arbor.System.Slots.{descriptor_slot, tagged_slot}
use arbor.Evm.{resolve}
use arbor.Executor.{ExecutionCalls}
use arbor.Chain.{
  DomainConfig, FinalizedChainState, FinalizedDomain, FinalizedDomainCheckpoint,
  FinalizedChainCheckpoint,
}
use arbor.Chain.Limits.{validate_config}
use arbor.Chain.Domains.{
  genealogy, walk_genealogy, domain_heads_root, heads_commitment, commit_heads,
}
use arbor.Chain.Checkpoint.{
  domain_of, check_genealogies, materialize, validate_checkpoint_descriptor, insert_descriptor,
  check_entry, reconstruct_checkpoint_domains, validate_checkpoint_descriptors, state_of,
  from_checkpoint,
}
use arbor.Chain.Checkpoint.Restore.{materialize-from_checkpoint}
use arbor.Chain.Checkpoint.Authentic.{Distinct, IsChecked, IsCommitted, from_checkpoint-IsChecked}

abbrev keccak : List ℕ → ℕ
keccak bytes = length bytes

-- Every slot of the registry holds the length of the encoded descriptor.
abbrev registry_calls : ExecutionCalls ℕ
registry_calls = record {
  state_root = λ s. s;
  balance_of = λ s a. ok none;
  storage = λ s a i. ok 323;
  execute_batch_with_registry = λ spec env s envelopes context. ok (record {
    state = s;
    transactions_root = 0;
    receipts_root = 0;
    logs_bloom = 0;
    gas_used = 0;
    receipts = [];
    encoded_receipts = [];
    transactions = [];
    created_domains = [];
  });
  transactions_root = λ envelopes. length envelopes;
}

abbrev config_with : ℕ → DomainConfig
config_with chain_id = record {
  chain_id = chain_id;
  protocol_revision = 1;
  gas_limit = 30000000;
  initial_base_fee_per_gas = 1000;
}

abbrev header_of : ℕ → DomainBlockHeader
header_of id = record {
  protocol_version = 1;
  domain_id = id;
  number = 1;
  parent_hash = 491;
  consensus_height = 1;
  transactions_root = 2;
  state_root = 8;
  receipts_root = 2;
  logs_bloom = 0;
  gas_limit = 30000000;
  gas_used = 42000;
  base_fee_per_gas = 875;
}

abbrev created_descriptor : DomainDescriptor
created_descriptor = record {
  domain_id = 112;
  parent_domain_id = 4;
  joint_domain_block_hash = 3;
  create_tx_hash = 4;
  origin_hash = 5;
  name = ascii "Demo";
  symbol = ascii "DMO";
  evm_chain_id = 8;
  owner = 7;
  protocol_revision = 1;
  gas_limit = 30000000;
  initial_base_fee = 1000;
  initial_supply = 1000;
  creation_deposit = 8;
  status = DomainStatus.active;
}

abbrev entry : ℕ → ℕ → Option DomainDescriptor → FinalizedDomainCheckpoint ℕ
entry id chain_id descriptor = record {
  domain_id = id;
  config = config_with chain_id;
  header = header_of id;
  block_hash = 491;
  state = 8;
  descriptor = descriptor;
}

abbrev checkpoint_sample : FinalizedChainCheckpoint ℕ
checkpoint_sample = record {
  network_id = 1;
  height = 3;
  consensus_hash = 290;
  timestamp = 110;
  validator_set_hash = 3;
  next_validator_set_hash = 3;
  root_domain_id = 4;
  governance_address = 5;
  domain_heads_root = 85;
  domains = entry 4 7 none ∷ entry 112 8 (some created_descriptor) ∷ [];
}

abbrev domain_with : ℕ → ℕ → FinalizedDomain ℕ
domain_with id chain_id = record {
  config = config_with chain_id;
  header = header_of id;
  block_hash = 491;
  state = 8;
}

abbrev restored : FinalizedChainState ℕ
restored = record {
  network_id = 1;
  height = 3;
  consensus_hash = 290;
  timestamp = 110;
  validator_set_hash = 3;
  next_validator_set_hash = 3;
  root_domain_id = 4;
  governance_address = 5;
  domains = (4, domain_with 4 7) ∷ (112, domain_with 112 8) ∷ [];
  descriptors = (112, created_descriptor) ∷ [];
}

restored-accepted : from_checkpoint keccak registry_calls checkpoint_sample ≡ ok restored
unfolding from_checkpoint reconstruct_checkpoint_domains check_entry insert_descriptor
    validate_checkpoint_descriptor validate_checkpoint_descriptors state_of domain_of
    check_genealogies genealogy walk_genealogy domain_heads_root heads_commitment commit_heads
    validate_config resolve get insert contains_key strictly_sorted to_be_bytes check_limit
    derive_domain_id domain_header_hash hash_encoded descriptor_slot tagged_slot
    encode_domain_header write_domain_header encode_domain_descriptor write_domain_descriptor
    status_code DomainHeads.insert DomainHeads.new DomainHeads.root DomainHeads.entries
    DomainHeads.leaf_of DomainHeads.subtree_root DomainHeads.branch_hash DomainHeads.leaf_hash
    DomainHeads.empty_hash DomainHeads.domain_head_key DomainHeads.domain_head_value
    DomainHeads.left_part DomainHeads.right_part DomainHeads.bit DomainHeads.byte_at Encoder.tagged
    Encoder.u8 Encoder.u32 Encoder.u64 Encoder.u128 Encoder.b256 Encoder.u256 Encoder.address
    Encoder.bloom Encoder.finish Encoder.count Encoder.put_bytes
restored-accepted = refl

materialize-from_checkpoint_example : materialize keccak restored ≡ checkpoint_sample
materialize-from_checkpoint_example =
    materialize-from_checkpoint keccak registry_calls checkpoint_sample restored-accepted

from_checkpoint-IsChecked_example :
    All (IsChecked keccak registry_calls 3) checkpoint_sample.domains
    × Distinct (7 ∷ 8 ∷ [])
    × ((root : FinalizedDomain ℕ) × (get 4 restored.domains ≡ some root)
        × Every
            (IsCommitted keccak registry_calls root.state restored.domains)
            restored.descriptors)
    × Every
        (λ id d. (path : List DomainId) × (genealogy id restored ≡ ok path))
        restored.descriptors
from_checkpoint-IsChecked_example =
    from_checkpoint-IsChecked keccak registry_calls checkpoint_sample restored-accepted
