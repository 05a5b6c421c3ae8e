-- ===== src/Evm.antt =====
-- The environment of a block and the protocol revisions, crates/arbor-evm/src/spec.rs, and the errors
-- of crates/arbor-evm/src/lib.rs. Running transactions is left to the parameter `ExecutionCalls`.
use arbor.Base.{
  ℕ, String, ◌-◌, ◌^◌, Result, ok, err, ltb, ◌==◌, ◌||◌, if◌then◌else◌, Bool, Option, List,
}
use arbor.Primitives.{B256, Address, Bytes, Log, DomainDescriptor}

pub data EvmError : Type 0 where
  unsupported_protocol_revision : ℕ → EvmError
  invalid_environment state invalid_transaction invalid_header system : String → EvmError

pub record DomainEnv : Type 0 where
  pub chain_id : ℕ
  pub block_number : ℕ
  pub timestamp : ℕ
  pub beneficiary : Address
  pub gas_limit : ℕ
  pub base_fee_per_gas : ℕ
  pub prevrandao : B256

pub data EvmRevision : Type 0 where
  shanghai : EvmRevision

pub record ProtocolSpec : Type 0 where
  pub protocol_revision : ℕ
  pub evm_revision : EvmRevision
  pub max_code_bytes : ℕ
  pub max_initcode_bytes : ℕ
  pub max_logs_per_transaction : ℕ

-- `ProtocolSpec::V1`
abbrev pub spec_v1 : ProtocolSpec
spec_v1 = record {
  protocol_revision = 1;
  evm_revision = shanghai;
  max_code_bytes = 24576;
  max_initcode_bytes = 49152;
  max_logs_per_transaction = 1024;
}

unfoldable pub resolve : ℕ → Result EvmError ProtocolSpec
resolve protocol_revision =
    if protocol_revision == 1
    then ok spec_v1
    else err (unsupported_protocol_revision protocol_revision)

-- `DomainEnv::validate`
unfoldable pub validate_env : DomainEnv → Result EvmError (Unit {0})
validate_env env =
    if env.chain_id == 0
    then err (invalid_environment "chain ID must be non-zero")
    else if env.gas_limit == 0 || ltb 30000000 env.gas_limit
    then err (invalid_environment "domain gas limit must be in 1..=30,000,000")
    else if ltb (2 ^ 64 - 1) env.base_fee_per_gas
    then err (invalid_environment "base fee exceeds the fixed revm block field")
    else ok tt

-- crates/arbor-evm/src/execute.rs
pub record EvmExecution : Type 0 where
  pub success : Bool
  pub gas_used : ℕ
  pub logs : List Log
  pub output : Bytes
  pub created_address : Option Address
  pub created_domain : Option DomainDescriptor
