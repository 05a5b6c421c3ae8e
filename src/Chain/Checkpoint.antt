-- ===== src/Chain/Checkpoint.antt =====
-- Checkpoints of the finalized view, crates/arbor-chain/src/lib.rs: what `checkpoint` materializes and
-- what `from_checkpoint` accepts.
pub mod Restore
pub mod Authentic
use arbor.Base.{
  ℕ, zero, Bool, true, false, not, Option, none, some, List, [], ◌∷◌, map, Result, ok, err, ltb,
  ◌==◌, ◌||◌, if◌then◌else◌,
}
use arbor.Base.Ord.{nat_ord}
use arbor.Base.BTreeMap.{BTreeMap, get, insert as map_insert, contains_key}
use arbor.Base.Outcome.{◌>>=◌, ◌>>◌, fail_if, ok_or, map_err}
use arbor.Primitives.{B256, DomainId, NetworkId, DomainDescriptor}
use arbor.Codec.Limits.{strictly_sorted}
use arbor.Codec.DomainDescriptor.{encode_domain_descriptor}
use arbor.Crypto.{derive_domain_id, domain_header_hash}
use arbor.System.Slots.{chain_registry_address, descriptor_slot}
use arbor.Executor.{ExecutionCalls}
use arbor.Chain.{
  DomainConfig, FinalizedDomain, FinalizedChainState, FinalizedDomainCheckpoint,
  FinalizedChainCheckpoint, ChainError, checkpoint, encoding, from_codec, from_crypto, from_evm,
}
use arbor.Chain.Limits.{validate_config}
use arbor.Chain.Domains.{is_active, contains, genealogy, domain_heads_root}

-- `FinalizedDomain` of an entry.
unfoldable pub domain_of : {S : Type 0} → FinalizedDomainCheckpoint S → FinalizedDomain S
domain_of e = record {
  config = e.config;
  header = e.header;
  block_hash = e.block_hash;
  state = e.state;
}

unfoldable pub entry_of :
    {S : Type 0}
    → BTreeMap DomainId DomainDescriptor
    → DomainId × FinalizedDomain S
    → FinalizedDomainCheckpoint S
entry_of descriptors (domain_id, domain) = record {
  domain_id = domain_id;
  config = domain.config;
  header = domain.header;
  block_hash = domain.block_hash;
  state = domain.state;
  descriptor = get domain_id descriptors;
}

-- `for domain_id in state.descriptors.keys() { state.genealogy(domain_id)? }`
unfoldable pub check_genealogies :
    {S : Type 0}
    → FinalizedChainState S
    → BTreeMap DomainId DomainDescriptor
    → Result ChainError (Unit {0})
check_genealogies state [] = ok tt
check_genealogies state ((domain_id, _) ∷ descriptors) = do
  _ ← genealogy domain_id state
  check_genealogies state descriptors

module _ (keccak256 : List ℕ → B256) where
  -- `FinalizedChainState::checkpoint`
  unfoldable pub materialize : {S : Type 0} → FinalizedChainState S → FinalizedChainCheckpoint S
  materialize state = record {
    network_id = state.network_id;
    height = state.height;
    consensus_hash = state.consensus_hash;
    timestamp = state.timestamp;
    validator_set_hash = state.validator_set_hash;
    next_validator_set_hash = state.next_validator_set_hash;
    root_domain_id = state.root_domain_id;
    governance_address = state.governance_address;
    domain_heads_root = domain_heads_root keccak256 state;
    domains = map (entry_of state.descriptors) state.domains;
  }

  unfoldable pub validate_checkpoint_descriptor :
      NetworkId → DomainId → DomainConfig → DomainDescriptor → Result ChainError (Unit {0})
  validate_checkpoint_descriptor network_id domain_id config d =
      fail_if
        (not (d.domain_id == domain_id)
          || not (is_active d.status)
          || not (d.evm_chain_id == config.chain_id)
          || not (d.protocol_revision == config.protocol_revision)
          || not (d.gas_limit == config.gas_limit)
          || not (d.initial_base_fee == config.initial_base_fee_per_gas)
          || not (
              derive_domain_id keccak256 network_id d.parent_domain_id d.create_tx_hash
              == domain_id))
        (checkpoint "runtime domain descriptor mismatch")

  -- The `match` on whether an entry is the root's and on its descriptor: the descriptors with its own.
  unfoldable pub insert_descriptor :
      {S : Type 0}
      → NetworkId
      → DomainId
      → FinalizedDomainCheckpoint S
      → BTreeMap DomainId DomainDescriptor
      → Result ChainError (BTreeMap DomainId DomainDescriptor)
  insert_descriptor network_id root_domain_id e descriptors = elim e.descriptor [
    | none ↦
        if e.domain_id == root_domain_id
        then ok descriptors
        else err (checkpoint "runtime domain descriptor is missing")
    | some d ↦
        if e.domain_id == root_domain_id
        then err (checkpoint "root domain must not have a runtime descriptor")
        else (do
          validate_checkpoint_descriptor network_id e.domain_id e.config d
          ok (map_insert e.domain_id d descriptors))
  ]

  module _ {S : Type 0} (calls : ExecutionCalls S) where
    -- The checks on one entry before its descriptor.
    unfoldable pub check_entry :
        ℕ → FinalizedDomainCheckpoint S → List ℕ → Result ChainError (Unit {0})
    check_entry height e chain_ids = do
      validate_config e.config
      fail_if
          (not (e.header.domain_id == e.domain_id)
            || not (e.header.state_root == calls.state_root e.state)
            || ltb height e.header.consensus_height
            || not (e.header.gas_limit == e.config.gas_limit))
          (checkpoint "domain header, state, config, or hash mismatch")
      hash ← map_err (λ x. encoding (from_crypto x)) (domain_header_hash keccak256 e.header)
      fail_if (not (hash == e.block_hash))
          (checkpoint "domain header, state, config, or hash mismatch")
      fail_if (contains e.config.chain_id chain_ids) (checkpoint "duplicate checkpoint chain ID")

    -- The loop of `reconstruct_checkpoint_domains`.
    unfoldable pub reconstruct_checkpoint_domains :
        NetworkId
        → DomainId
        → ℕ
        → List (FinalizedDomainCheckpoint S)
        → BTreeMap DomainId (FinalizedDomain S)
        → BTreeMap DomainId DomainDescriptor
        → List ℕ
        → Result ChainError
            (BTreeMap DomainId (FinalizedDomain S) × BTreeMap DomainId DomainDescriptor)
    reconstruct_checkpoint_domains network_id root_domain_id height [] domains descriptors
          chain_ids =
        ok (domains, descriptors)
    reconstruct_checkpoint_domains network_id root_domain_id height (e ∷ entries) domains
          descriptors chain_ids =
        do
          check_entry height e chain_ids
          next ← insert_descriptor network_id root_domain_id e descriptors
          reconstruct_checkpoint_domains network_id root_domain_id height entries
              (map_insert e.domain_id (domain_of e) domains) next (e.config.chain_id ∷ chain_ids)

    unfoldable pub validate_checkpoint_descriptors :
        FinalizedDomain S
        → BTreeMap DomainId (FinalizedDomain S)
        → BTreeMap DomainId DomainDescriptor
        → Result ChainError (Unit {0})
    validate_checkpoint_descriptors root domains [] = ok tt
    validate_checkpoint_descriptors root domains ((domain_id, descriptor) ∷ descriptors) = do
      fail_if (not (contains_key descriptor.parent_domain_id domains))
          (checkpoint "descriptor parent is missing")
      encoded ← map_err (λ x. encoding (from_codec x)) (encode_domain_descriptor descriptor)
      committed ←
          map_err (λ x. encoding (from_evm x))
            (calls.storage root.state chain_registry_address (descriptor_slot keccak256 domain_id))
      fail_if (not (committed == keccak256 encoded))
          (checkpoint "descriptor is not committed by root ChainRegistry")
      validate_checkpoint_descriptors root domains descriptors

    unfoldable pub state_of :
        FinalizedChainCheckpoint S
        → BTreeMap DomainId (FinalizedDomain S)
        → BTreeMap DomainId DomainDescriptor
        → FinalizedChainState S
    state_of c domains descriptors = record {
      network_id = c.network_id;
      height = c.height;
      consensus_hash = c.consensus_hash;
      timestamp = c.timestamp;
      validator_set_hash = c.validator_set_hash;
      next_validator_set_hash = c.next_validator_set_hash;
      root_domain_id = c.root_domain_id;
      governance_address = c.governance_address;
      domains = domains;
      descriptors = descriptors;
    }

    unfoldable pub from_checkpoint :
        FinalizedChainCheckpoint S → Result ChainError (FinalizedChainState S)
    from_checkpoint c = do
      fail_if (c.height == 0) (checkpoint "checkpoint height must be non-zero")
      fail_if (elim c.domains [ [] ↦ true | ◌∷◌ _ _ ↦ false ])
          (checkpoint "checkpoint has no domains")
      fail_if (not (strictly_sorted (map (λ e. e.domain_id) c.domains)))
          (checkpoint "checkpoint domains are not strictly sorted")
      (domains, descriptors) ←
          reconstruct_checkpoint_domains c.network_id c.root_domain_id c.height c.domains [] [] []
      root ← ok_or (get c.root_domain_id domains) (checkpoint "root domain is missing")
      validate_checkpoint_descriptors root domains descriptors
      fail_if
          (not
            (domain_heads_root keccak256 (state_of c domains descriptors) == c.domain_heads_root))
          (checkpoint "domain-head root mismatch")
      check_genealogies (state_of c domains descriptors) descriptors
      ok (state_of c domains descriptors)
