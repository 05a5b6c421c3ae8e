-- ===== src/Executor.antt =====
-- The types of crates/arbor-executor/src/lib.rs, over the type `S` of `ExecutionState`.
pub mod Batch
pub mod Gas
use arbor.Base.{ℕ, String, Bool, Option, List, Result}
use arbor.Base.BTreeMap.{BTreeMap}
use arbor.Primitives.{B256, Address, Bytes, NetworkId, DomainId, DomainDescriptor, Receipt}
use arbor.Evm.{EvmError, DomainEnv, ProtocolSpec}

pub record ChainRegistryExecutionContext : Type 0 where
  pub network_id : NetworkId
  pub root_domain_id : DomainId
  pub executing_domain_id : DomainId
  pub creation_height : ℕ
  pub governance_address : Address
  pub finalized_heads : BTreeMap DomainId B256

pub record CreatedDomain (S : Type 0) : Type 0 where
  pub descriptor : DomainDescriptor
  pub genesis_state : S

pub record ExecutedTransaction : Type 0 where
  pub transaction_hash : B256
  pub sender : Address
  pub success : Bool
  pub gas_used : ℕ
  pub contract_address : Option Address
  pub output : Bytes

pub record DomainExecutionResult (S : Type 0) : Type 0 where
  pub state : S
  pub transactions_root : B256
  pub receipts_root : B256
  pub logs_bloom : ℕ
  pub gas_used : ℕ
  pub receipts : List Receipt
  pub encoded_receipts : List Bytes
  pub transactions : List ExecutedTransaction
  pub created_domains : List (CreatedDomain S)

-- Every error but the first starts with the position of the transaction.
pub data ExecutorError : Type 0 where
  -- the limit and the observed count
  too_many_transactions : ℕ → ℕ → ExecutorError
  invalid_envelope receipt_encoding system_preparation : ℕ → String → ExecutorError
  -- the expected and the actual chain ID
  wrong_chain_id : ℕ → ℕ → ℕ → ExecutorError
  transaction : ℕ → EvmError → ExecutorError
  -- the cumulative gas and the limit
  block_gas_overflow : ℕ → ℕ → ℕ → ExecutorError

-- What the chain crate calls of the execution crates: the state root, `account(address)` as far as its
-- balance goes, `storage(address, slot)`, `execute_batch_with_registry` of a service for the given
-- rules, and the ordered trie root of envelopes.
pub record ExecutionCalls (S : Type 0) : Type 0 where
  pub state_root : S → B256
  pub balance_of : S → Address → Result EvmError (Option ℕ)
  pub storage : S → Address → ℕ → Result EvmError ℕ
  pub execute_batch_with_registry :
      ProtocolSpec
      → DomainEnv
      → S
      → List Bytes
      → ChainRegistryExecutionContext
      → Result ExecutorError (DomainExecutionResult S)
  pub transactions_root : List Bytes → B256
