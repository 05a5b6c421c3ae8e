-- ===== src/Chain/Created.antt =====
-- Chains that crates/arbor-system/src/lib.rs prepares, checked again by checkpoints of
-- crates/arbor-chain/src/lib.rs.
use arbor.Base.{ℕ, ◌≡◌, List, Result-cases, inl, inr, ok, arith}
use arbor.Primitives.{B256, NetworkId}
use arbor.System.{CreateChainRequest, PreparedChainCreation}
use arbor.System.Creation.{normalize_request, prepare_chain_creation, descriptor_of}
use arbor.System.Prepare.{normalize_request_lem}
use arbor.Chain.Limits.{validate_config}
use arbor.Chain.Domains.{config_of}
use arbor.Evm.{resolve}
use arbor.Chain.Checkpoint.{validate_checkpoint_descriptor}

module _ (keccak256 : List ℕ → B256) where
  -- The descriptor of a chain that was prepared passes the check that restoring a checkpoint makes of a
  -- descriptor, for the configuration that the chain takes from it, and so does that configuration.
  pub validate_checkpoint-prepare_chain_creation :
      (given : CreateChainRequest) (network_id : NetworkId)
      (create_tx_hash joint initial_state_root : B256) (deposit height : ℕ)
      {p : PreparedChainCreation}
      → prepare_chain_creation keccak256 given network_id create_tx_hash joint initial_state_root
          deposit height
        ≡ ok p
      → (validate_checkpoint_descriptor keccak256 network_id p.descriptor.domain_id
            (config_of p.descriptor)
            p.descriptor
          ≡ ok tt)
        × (validate_config (config_of p.descriptor) ≡ ok tt)
  unfolding prepare_chain_creation descriptor_of validate_checkpoint_descriptor validate_config
      config_of resolve
  validate_checkpoint-prepare_chain_creation given network_id create_tx_hash joint
        initial_state_root deposit height {p} h =
      elim (Result-cases (normalize_request given)) [
        | inr (x, e) ↦ absurd (ground (arith, e, h))
        | inl (request, e) ↦
            let (_, _, valid) = normalize_request_lem given e in
            (
              ground (arith, e, h),
              ground (
                arith, e, h, valid.gas_positive, valid.gas_bounded, valid.protocol_revision,
                valid.evm_chain_id,
              ),
            )
      ]
