-- ===== src/Chain/Domains.antt =====
-- Domains of the finalized view, crates/arbor-chain/src/lib.rs: height-zero state, domains created at
-- run time, the commitment to all heads, and genealogies. `keccak256` and the execution crates are
-- parameters.
use arbor.Base.{
  ℕ, zero, suc, ◌+◌, Bool, true, false, not, Option, none, some, List, [], ◌∷◌, Result, ok, err,
  ◌==◌, ◌||◌, if◌then◌else◌, length,
}
use arbor.Base.Ord.{nat_ord}
use arbor.Base.BTreeMap.{BTreeMap, get, insert as map_insert, contains_key}
use arbor.Base.Outcome.{◌>>=◌, ◌>>◌, fail_if, ok_or, map_err}
use arbor.Primitives.{
  B256, DomainId, DomainBlockHeader, DomainDescriptor, DomainStatus, protocol_version,
}
use arbor.State.DomainHeads
use arbor.Crypto.{derive_domain_id, domain_header_hash, domain_genesis_hash}
use arbor.Executor.{CreatedDomain, ExecutionCalls}
use arbor.Chain.{
  DomainConfig, FinalizedDomain, FinalizedChainGenesis, FinalizedChainState, ChainError, encoding,
  from_crypto, from_evm, registry_invariant, duplicate_created_domain, duplicate_genesis_domain,
  unknown_domain,
}
use arbor.Chain.Limits.{validate_config}

-- `descriptor.status != DomainStatus::Active`
abbrev pub is_active : DomainStatus → Bool
is_active DomainStatus.pending = false
is_active DomainStatus.active = true
is_active DomainStatus.frozen = false

abbrev pub contains : ℕ → List ℕ → Bool
contains x [] = false
contains x (y ∷ ys) = x == y || contains x ys

unfoldable pub config_of : DomainDescriptor → DomainConfig
config_of d = record {
  chain_id = d.evm_chain_id;
  protocol_revision = d.protocol_revision;
  gas_limit = d.gas_limit;
  initial_base_fee_per_gas = d.initial_base_fee;
}

module _ {S : Type 0} where
  -- `self.domains.values().any(|domain| domain.config.chain_id == chain_id)`
  unfoldable pub has_chain_id : ℕ → BTreeMap DomainId (FinalizedDomain S) → Bool
  has_chain_id chain_id [] = false
  has_chain_id chain_id ((_, domain) ∷ domains) =
      domain.config.chain_id == chain_id || has_chain_id chain_id domains

  -- The round of the loop of `genealogy` at `current`, with at most `fuel` rounds to go. The IDs seen
  -- so far are those of `reversed`, of which the last comes first.
  unfoldable pub walk_genealogy :
      ℕ → FinalizedChainState S → DomainId → List DomainId → Result ChainError (List DomainId)
  walk_genealogy zero state current reversed = err (registry_invariant "cyclic domain genealogy")
  walk_genealogy (suc fuel) state current reversed =
      if current == state.root_domain_id then ok reversed else do
        descriptor ←
            ok_or (get current state.descriptors) (registry_invariant "missing parent descriptor")
        fail_if (contains descriptor.parent_domain_id reversed)
            (registry_invariant "cyclic domain genealogy")
        walk_genealogy fuel state descriptor.parent_domain_id
            (descriptor.parent_domain_id ∷ reversed)

  -- Every round but the last looks up another descriptor, so that their number bounds the rounds.
  unfoldable pub genealogy : DomainId → FinalizedChainState S → Result ChainError (List DomainId)
  genealogy domain_id state = do
    fail_if (not (contains_key domain_id state.domains)) (unknown_domain domain_id)
    walk_genealogy (length state.descriptors + 2) state domain_id (domain_id ∷ [])

module _ (keccak256 : List ℕ → B256) where
  -- `heads_commitment`
  unfoldable pub commit_heads :
      {S : Type 0}
      → BTreeMap DomainId (FinalizedDomain S)
      → DomainHeads.DomainHeadsCommitment
      → DomainHeads.DomainHeadsCommitment
  commit_heads [] heads = heads
  commit_heads ((domain_id, domain) ∷ domains) heads = commit_heads domains (
      DomainHeads.insert keccak256 domain_id
        (record { domain_block_hash = domain.block_hash; state_root = domain.header.state_root })
        heads)

  unfoldable pub heads_commitment :
      {S : Type 0} → BTreeMap DomainId (FinalizedDomain S) → DomainHeads.DomainHeadsCommitment
  heads_commitment domains = commit_heads domains DomainHeads.new

  unfoldable pub domain_heads_root : {S : Type 0} → FinalizedChainState S → B256
  domain_heads_root state = DomainHeads.root keccak256 (heads_commitment state.domains)

  unfoldable pub domain_head_proof :
      {S : Type 0} → DomainId → FinalizedChainState S → Option DomainHeads.DomainHeadProof
  domain_head_proof domain_id state =
      if contains_key domain_id state.domains
      then some (DomainHeads.proof keccak256 domain_id (heads_commitment state.domains))
      else none

  module _ {S : Type 0} (calls : ExecutionCalls S) where
    -- The header of block zero of a domain.
    unfoldable pub genesis_header : DomainId → ℕ → DomainConfig → S → DomainBlockHeader
    genesis_header domain_id height config state = record {
      protocol_version = protocol_version;
      domain_id = domain_id;
      number = 0;
      parent_hash = 0;
      consensus_height = height;
      transactions_root = calls.transactions_root [];
      state_root = calls.state_root state;
      receipts_root = calls.transactions_root [];
      logs_bloom = 0;
      gas_limit = config.gas_limit;
      gas_used = 0;
      base_fee_per_gas = config.initial_base_fee_per_gas;
    }

    unfoldable pub genesis_domain :
        DomainId → ℕ → DomainConfig → S → Result ChainError (FinalizedDomain S)
    genesis_domain domain_id height config state = do
      block_hash ←
          map_err (λ e. encoding (from_crypto e))
            (domain_header_hash keccak256 (genesis_header domain_id height config state))
      ok (record {
        config = config;
        header = genesis_header domain_id height config state;
        block_hash = block_hash;
        state = state;
      })

    unfoldable pub genesis : FinalizedChainGenesis S → Result ChainError (FinalizedChainState S)
    genesis g = do
      validate_config g.config
      domain ← genesis_domain g.root_domain_id 0 g.config g.state
      ok (record {
        network_id = g.network_id;
        height = 0;
        consensus_hash = g.consensus_hash;
        timestamp = g.timestamp;
        validator_set_hash = g.validator_set_hash;
        next_validator_set_hash = g.validator_set_hash;
        root_domain_id = g.root_domain_id;
        governance_address = g.governance_address;
        domains = (g.root_domain_id, domain) ∷ [];
        descriptors = [];
      })

    unfoldable pub insert_genesis_domain :
        DomainId
        → DomainConfig
        → S
        → FinalizedChainState S
        → Result ChainError (FinalizedChainState S)
    insert_genesis_domain domain_id config execution_state state = do
      validate_config config
      fail_if (contains_key domain_id state.domains) (duplicate_genesis_domain domain_id)
      domain ← genesis_domain domain_id 0 config execution_state
      ok (record state { domains = map_insert domain_id domain state.domains })

    unfoldable pub validate_domain_genesis : DomainDescriptor → S → Result ChainError (Unit {0})
    validate_domain_genesis d state = do
      balance ← map_err (λ e. encoding (from_evm e)) (calls.balance_of state d.owner)
      fail_if (not (elim balance [ none ↦ 0 | some amount ↦ amount ] == d.initial_supply))
          (registry_invariant "owner allocation differs from initial supply")
      origin ←
          map_err (λ e. encoding (from_crypto e))
            (domain_genesis_hash keccak256 (record {
              domain_id = d.domain_id;
              parent_domain_id = d.parent_domain_id;
              joint_domain_block_hash = d.joint_domain_block_hash;
              create_tx_hash = d.create_tx_hash;
              name = d.name;
              symbol = d.symbol;
              evm_chain_id = d.evm_chain_id;
              owner = d.owner;
              protocol_revision = d.protocol_revision;
              gas_limit = d.gas_limit;
              initial_base_fee = d.initial_base_fee;
              initial_supply = d.initial_supply;
              initial_state_root = calls.state_root state;
            }))
      fail_if (not (origin == d.origin_hash)) (registry_invariant "domain origin hash mismatch")

    unfoldable pub insert_created_domain :
        CreatedDomain S → ℕ → FinalizedChainState S → Result ChainError (FinalizedChainState S)
    insert_created_domain created height state = do
      fail_if
          (contains_key created.descriptor.domain_id state.domains
            || contains_key created.descriptor.domain_id state.descriptors)
          (duplicate_created_domain created.descriptor.domain_id)
      fail_if (not (contains_key created.descriptor.parent_domain_id state.domains))
          (registry_invariant "created domain parent is absent")
      fail_if
          (not (is_active created.descriptor.status)
            || not (
                derive_domain_id keccak256 state.network_id created.descriptor.parent_domain_id
                  created.descriptor.create_tx_hash
                == created.descriptor.domain_id))
          (registry_invariant "created domain identity/status mismatch")
      fail_if (has_chain_id created.descriptor.evm_chain_id state.domains)
          (registry_invariant "duplicate EVM chain ID")
      validate_config (config_of created.descriptor)
      validate_domain_genesis created.descriptor created.genesis_state
      domain ←
          genesis_domain created.descriptor.domain_id height (config_of created.descriptor)
            created.genesis_state
      ok (record state {
        domains = map_insert created.descriptor.domain_id domain state.domains;
        descriptors = map_insert created.descriptor.domain_id created.descriptor state.descriptors;
      })

    -- The loop over the domains that one execution created.
    unfoldable pub insert_created_domains :
        List (CreatedDomain S)
        → ℕ
        → FinalizedChainState S
        → Result ChainError (FinalizedChainState S)
    insert_created_domains [] height state = ok state
    insert_created_domains (created ∷ rest) height state = do
      next ← insert_created_domain created height state
      insert_created_domains rest height next
