-- ===== src/System.antt =====
-- The request of `createChain` and its checks, crates/arbor-system/src/lib.rs.
pub mod Calls
pub mod Creation
pub mod DepositCalls
pub mod Names
pub mod Prepare
pub mod Requests
pub mod Slots
use arbor.Base.{ℕ, ◌*◌, ◌-◌, ◌^◌, ◌||◌, not, String, Option, Result, ltb, ◌==◌}
use arbor.Base.Outcome.{◌>>◌, fail_if}
use arbor.Crypto.{CryptoError}
use arbor.Primitives.{Address, Bytes, B256, DomainId, DomainDescriptor}

pub record CreateChainRequest : Type 0 where
  pub parent_domain_id : DomainId
  pub name : Bytes
  pub symbol : Bytes
  pub evm_chain_id : ℕ
  pub owner : Address
  pub gas_limit : ℕ
  pub initial_base_fee : ℕ
  pub initial_supply : ℕ
  pub protocol_revision : ℕ

pub data ChainRegistryError : Type 0 where
  invalid_calldata invalid_metadata height_overflow : ChainRegistryError
  invalid_parameter : String → ChainRegistryError
  -- `Encoding`, with the error whose text it keeps
  encoding_failed : CryptoError → ChainRegistryError
  -- the minimum and the actual deposit
  insufficient_deposit : ℕ → ℕ → ChainRegistryError

pub record PreparedChainCreation : Type 0 where
  pub request : CreateChainRequest
  pub descriptor : DomainDescriptor
  pub descriptor_hash : B256
  pub creation_height : ℕ
  pub deposit_unlock_height : ℕ

pub record ChainRegistryRuntime : Type 0 where
  pub root_domain_id : DomainId
  pub executing_domain_id : DomainId
  pub consensus_height : ℕ
  pub governance_address : Address
  pub prepared_creation : Option PreparedChainCreation

unfoldable pub validate_request : CreateChainRequest → Result ChainRegistryError (Unit {0})
validate_request request = do
  fail_if (request.parent_domain_id == 0) (invalid_parameter "zero parent domain")
  fail_if (request.evm_chain_id == 0) (invalid_parameter "zero EVM chain ID")
  fail_if (request.owner == 0) (invalid_parameter "zero owner")
  fail_if (request.gas_limit == 0 || ltb 30000000 request.gas_limit)
      (invalid_parameter "domain gas limit")
  fail_if (ltb (2 ^ 64 - 1) request.initial_base_fee) (invalid_parameter "initial base fee")
  fail_if (not (request.protocol_revision == 1)) (invalid_parameter "protocol revision")
