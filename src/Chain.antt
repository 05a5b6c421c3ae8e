-- ===== src/Chain.antt =====
-- The finalized view, blocks and errors of crates/arbor-chain/src/lib.rs. `S` is `ExecutionState` of
-- crates/arbor-evm.
pub mod Limits
pub mod Fee
pub mod Collections
pub mod Created
pub mod Body
pub mod Domains
pub mod Machine
pub mod Compare
pub mod Checkpoint
pub mod Replay
pub mod Progress
pub mod GasLimit
use arbor.Base.{ℕ, String, ◌*◌, Option, List}
use arbor.Base.BTreeMap.{BTreeMap}
use arbor.Primitives.{
  B256, Address, NetworkId, DomainId, ConsensusBlockHeader, DomainBatch, DomainBlockHeader,
  DomainDescriptor,
}
use arbor.Codec.Limits.{CodecError}
use arbor.Crypto.{CryptoError}
use arbor.Evm.{EvmError}
use arbor.Executor.{DomainExecutionResult, ExecutorError}

abbrev pub max_consensus_block_gas : ℕ
max_consensus_block_gas = 120000000

abbrev pub max_domain_block_gas : ℕ
max_domain_block_gas = 30000000

abbrev pub max_consensus_block_bytes : ℕ
max_consensus_block_bytes = 16 * 1024 * 1024

abbrev pub max_timestamp_step_seconds : ℕ
max_timestamp_step_seconds = 30

-- crates/arbor-codec/src/lib.rs
abbrev pub max_batches_per_block : ℕ
max_batches_per_block = 256

pub record DomainConfig : Type 0 where
  pub chain_id : ℕ
  pub protocol_revision : ℕ
  pub gas_limit : ℕ
  pub initial_base_fee_per_gas : ℕ

pub record FinalizedDomain (S : Type 0) : Type 0 where
  pub config : DomainConfig
  pub header : DomainBlockHeader
  pub block_hash : B256
  pub state : S

pub record FinalizedChainGenesis (S : Type 0) : Type 0 where
  pub network_id : NetworkId
  pub consensus_hash : B256
  pub timestamp : ℕ
  pub validator_set_hash : B256
  pub root_domain_id : DomainId
  pub governance_address : Address
  pub config : DomainConfig
  pub state : S

pub record FinalizedChainState (S : Type 0) : Type 0 where
  pub network_id : NetworkId
  pub height : ℕ
  pub consensus_hash : B256
  pub timestamp : ℕ
  pub validator_set_hash : B256
  pub next_validator_set_hash : B256
  pub root_domain_id : DomainId
  pub governance_address : Address
  pub domains : BTreeMap DomainId (FinalizedDomain S)
  pub descriptors : BTreeMap DomainId DomainDescriptor

pub record FinalizedDomainCheckpoint (S : Type 0) : Type 0 where
  pub domain_id : DomainId
  pub config : DomainConfig
  pub header : DomainBlockHeader
  pub block_hash : B256
  pub state : S
  -- only the root domain has none
  pub descriptor : Option DomainDescriptor

pub record FinalizedChainCheckpoint (S : Type 0) : Type 0 where
  pub network_id : NetworkId
  pub height : ℕ
  pub consensus_hash : B256
  pub timestamp : ℕ
  pub validator_set_hash : B256
  pub next_validator_set_hash : B256
  pub root_domain_id : DomainId
  pub governance_address : Address
  pub domain_heads_root : B256
  pub domains : List (FinalizedDomainCheckpoint S)

pub record ConsensusBlock : Type 0 where
  pub header : ConsensusBlockHeader
  pub batches : List DomainBatch
  pub domain_blocks : List DomainBlockHeader

pub record ValidatedProposal (S : Type 0) : Type 0 where
  pub block : ConsensusBlock
  pub resulting_state : FinalizedChainState S
  pub executions : List (DomainExecutionResult S)

pub data RootField : Type 0 where
  batches transactions state receipts domain_results domain_heads : RootField

-- The error whose text `ChainError::hash` keeps, or a text of its own.
pub data Cause : Type 0 where
  from_codec : CodecError → Cause
  from_crypto : CryptoError → Cause
  from_evm : EvmError → Cause
  text : String → Cause

pub data ChainError : Type 0 where
  invalid_domain_config registry_invariant checkpoint decode invalid_result_proof :
      String → ChainError
  duplicate_genesis_domain duplicate_created_domain unknown_domain wrong_domain_parent
        wrong_domain_number :
      DomainId → ChainError
  wrong_consensus_parent non_canonical_batches result_alignment header_mismatch : ChainError
  -- the smallest and the largest valid timestamp, and the proposed one
  invalid_timestamp : ℕ → ℕ → ℕ → ChainError
  root_mismatch : RootField → Option DomainId → ChainError
  -- the limit and what was observed
  too_many_batches aggregate_gas block_bytes : ℕ → ℕ → ChainError
  execution : DomainId → ExecutorError → ChainError
  encoding : Cause → ChainError
