-- ===== src/Chain/Limits.antt =====
-- The checks of crates/arbor-chain/src/lib.rs on configurations, batch orders, timestamps and gas.
use arbor.Base.{
  ℕ, ◌+◌, ◌-◌, ◌^◌, ◌≤◌, ◌<◌, ◌≡◌, none, some, List, map, Result, ok, err, ltb, ◌==◌, ◌||◌,
  if◌then◌else◌, arith,
}
use arbor.Base.Checked.{checked_add, saturating_add}
use arbor.Base.Outcome.{◌>>◌, fail_if}
use arbor.Primitives.{DomainBatch}
use arbor.Codec.Limits.{strictly_sorted}
use arbor.Evm.{resolve}
use arbor.Chain.{
  DomainConfig, ChainError, invalid_domain_config, non_canonical_batches, invalid_timestamp,
  aggregate_gas, max_domain_block_gas, max_timestamp_step_seconds, max_consensus_block_gas,
}

-- `DomainConfig::validate`
unfoldable pub validate_config : DomainConfig → Result ChainError (Unit {0})
validate_config config = do
  fail_if (config.chain_id == 0) (invalid_domain_config "chain ID must be non-zero")
  fail_if (config.gas_limit == 0 || ltb max_domain_block_gas config.gas_limit)
      (invalid_domain_config "gas limit must be in 1..=30,000,000")
  fail_if (ltb (2 ^ 64 - 1) config.initial_base_fee_per_gas)
      (invalid_domain_config "base fee exceeds the fixed EVM block field")
  elim (resolve config.protocol_revision) [
    | ok _ ↦ ok tt
    | err _ ↦ err (invalid_domain_config "unknown protocol revision")
  ]

unfoldable pub ensure_batch_order : List DomainBatch → Result ChainError (Unit {0})
ensure_batch_order batches =
    if strictly_sorted (map (λ batch. batch.domain_id) batches)
    then ok tt
    else err non_canonical_batches

unfoldable pub validate_timestamp : ℕ → ℕ → Result ChainError (Unit {0})
validate_timestamp parent actual = elim (checked_add 64 parent 1) [
  | none ↦ err (invalid_timestamp (2 ^ 64 - 1) (2 ^ 64 - 1) actual)
  | some minimum ↦
      let maximum = saturating_add 64 parent max_timestamp_step_seconds in
      if ltb actual minimum || ltb maximum actual
      then err (invalid_timestamp minimum maximum actual)
      else ok tt
]

unfoldable pub validate_aggregate_gas : ℕ → Result ChainError (Unit {0})
validate_aggregate_gas actual =
    if ltb max_consensus_block_gas actual
    then err (aggregate_gas max_consensus_block_gas actual)
    else ok tt

pub validate_timestamp-eq_ok :
    (parent actual : ℕ)
    → validate_timestamp parent actual ≡ ok tt
    → (parent < actual) × (actual ≤ parent + max_timestamp_step_seconds) × (actual < 2 ^ 64)
unfolding validate_timestamp
validate_timestamp-eq_ok parent actual h = ground (arith, h)

pub validate_aggregate_gas-eq_ok :
    (actual : ℕ) → validate_aggregate_gas actual ≡ ok tt → actual ≤ max_consensus_block_gas
unfolding validate_aggregate_gas
validate_aggregate_gas-eq_ok actual h = ground (arith, h)
