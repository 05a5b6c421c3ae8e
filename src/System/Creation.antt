-- ===== src/System/Creation.antt =====
-- `prepare_chain_creation` and the storage writes of a new chain, crates/arbor-system/src/lib.rs. The hash
-- is the parameter `keccak256`.
use arbor.Base.{ℕ, List, [], ◌∷◌, Result, ltb}
use arbor.Base.Bytes.{to_be_bytes}
use arbor.Base.Checked.{checked_add}
use arbor.Base.Outcome.{◌>>=◌, ◌>>◌, fail_if, ok_or, map_err}
use arbor.Base.{ok}
use arbor.Codec.Limits.{ascii}
use arbor.Codec.DomainDescriptor.{encode_domain_descriptor}
use arbor.Crypto.{derive_domain_id, domain_genesis_hash, hash_encoded}
use arbor.Primitives.{Bytes, B256, NetworkId, DomainId, DomainGenesis, DomainDescriptor, active}
use arbor.System.{
  CreateChainRequest, PreparedChainCreation, ChainRegistryError, encoding_failed,
  insufficient_deposit, height_overflow, validate_request,
}
use arbor.System.Names.{normalize_name, normalize_symbol}
use arbor.System.Slots.{tagged_slot, descriptor_slot, chain_id_slot}

abbrev pub min_creation_deposit : ℕ
min_creation_deposit = 1000000000000000000

abbrev pub creation_deposit_lock_blocks : ℕ
creation_deposit_lock_blocks = 100

abbrev pub registry_creation_height_tag : Bytes
registry_creation_height_tag = ascii "ARBOR_CHAIN_REGISTRY_CREATION_HEIGHT_V1"

abbrev pub registry_deposit_tag : Bytes
registry_deposit_tag = ascii "ARBOR_CHAIN_REGISTRY_DEPOSIT_V1"

abbrev pub registry_deposit_unlock_tag : Bytes
registry_deposit_unlock_tag = ascii "ARBOR_CHAIN_REGISTRY_DEPOSIT_UNLOCK_V1"

abbrev pub registry_owner_tag : Bytes
registry_owner_tag = ascii "ARBOR_CHAIN_REGISTRY_OWNER_V1"

abbrev pub registry_deposit_status_tag : Bytes
registry_deposit_status_tag = ascii "ARBOR_CHAIN_REGISTRY_DEPOSIT_STATUS_V1"

pub data CreationDepositStatus : Type 0 where
  locked refunded burned : CreationDepositStatus

-- `status as u8`
unfoldable pub deposit_status_code : CreationDepositStatus → ℕ
deposit_status_code locked = 1
deposit_status_code refunded = 2
deposit_status_code burned = 3

-- `request.name = normalize_name(..)?; request.symbol = normalize_symbol(..)?; validate_request(..)?`
unfoldable pub normalize_request : CreateChainRequest → Result ChainRegistryError CreateChainRequest
normalize_request request = do
  name ← normalize_name request.name
  symbol ← normalize_symbol request.symbol
  let normalized : CreateChainRequest = record request { name = name; symbol = symbol } in
      do validate_request normalized; ok normalized

unfoldable pub genesis_of : CreateChainRequest → DomainId → B256 → B256 → B256 → DomainGenesis
genesis_of request domain_id create_tx_hash joint initial_state_root = record {
  domain_id = domain_id;
  parent_domain_id = request.parent_domain_id;
  joint_domain_block_hash = joint;
  create_tx_hash = create_tx_hash;
  name = request.name;
  symbol = request.symbol;
  evm_chain_id = request.evm_chain_id;
  owner = request.owner;
  protocol_revision = request.protocol_revision;
  gas_limit = request.gas_limit;
  initial_base_fee = request.initial_base_fee;
  initial_supply = request.initial_supply;
  initial_state_root = initial_state_root;
}

unfoldable pub descriptor_of :
    CreateChainRequest → DomainId → B256 → B256 → B256 → ℕ → DomainDescriptor
descriptor_of request domain_id create_tx_hash joint origin_hash creation_deposit = record {
  domain_id = domain_id;
  parent_domain_id = request.parent_domain_id;
  joint_domain_block_hash = joint;
  create_tx_hash = create_tx_hash;
  origin_hash = origin_hash;
  name = request.name;
  symbol = request.symbol;
  evm_chain_id = request.evm_chain_id;
  owner = request.owner;
  protocol_revision = request.protocol_revision;
  gas_limit = request.gas_limit;
  initial_base_fee = request.initial_base_fee;
  initial_supply = request.initial_supply;
  creation_deposit = creation_deposit;
  status = active;
}

module _ (keccak256 : List ℕ → B256) where
  unfoldable pub creation_height_slot : DomainId → ℕ
  creation_height_slot domain_id =
      tagged_slot keccak256 registry_creation_height_tag (to_be_bytes 32 domain_id)

  unfoldable pub deposit_slot : DomainId → ℕ
  deposit_slot domain_id = tagged_slot keccak256 registry_deposit_tag (to_be_bytes 32 domain_id)

  unfoldable pub deposit_unlock_slot : DomainId → ℕ
  deposit_unlock_slot domain_id =
      tagged_slot keccak256 registry_deposit_unlock_tag (to_be_bytes 32 domain_id)

  unfoldable pub owner_slot : DomainId → ℕ
  owner_slot domain_id = tagged_slot keccak256 registry_owner_tag (to_be_bytes 32 domain_id)

  unfoldable pub deposit_status_slot : DomainId → ℕ
  deposit_status_slot domain_id =
      tagged_slot keccak256 registry_deposit_status_tag (to_be_bytes 32 domain_id)

  unfoldable pub creation_storage_writes : PreparedChainCreation → List (ℕ × ℕ)
  creation_storage_writes prepared =
      (descriptor_slot keccak256 prepared.descriptor.domain_id, prepared.descriptor_hash)
      ∷ (chain_id_slot keccak256 prepared.descriptor.evm_chain_id, prepared.descriptor.domain_id)
      ∷ (creation_height_slot prepared.descriptor.domain_id, prepared.creation_height)
      ∷ (deposit_slot prepared.descriptor.domain_id, prepared.descriptor.creation_deposit)
      ∷ (deposit_unlock_slot prepared.descriptor.domain_id, prepared.deposit_unlock_height)
      ∷ (owner_slot prepared.descriptor.domain_id, prepared.descriptor.owner)
      ∷ (deposit_status_slot prepared.descriptor.domain_id, deposit_status_code locked)
      ∷ []

  unfoldable pub prepare_chain_creation :
      CreateChainRequest
      → NetworkId
      → B256
      → B256
      → B256
      → ℕ
      → ℕ
      → Result ChainRegistryError PreparedChainCreation
  prepare_chain_creation given network_id create_tx_hash joint initial_state_root creation_deposit
        creation_height =
      do
        request ← normalize_request given
        fail_if (ltb creation_deposit min_creation_deposit)
            (insufficient_deposit min_creation_deposit creation_deposit)
        let domain_id =
              derive_domain_id keccak256 network_id request.parent_domain_id create_tx_hash in
            do
              origin_hash ← map_err encoding_failed (
                  domain_genesis_hash keccak256
                    (genesis_of request domain_id create_tx_hash joint initial_state_root))
              let descriptor =
                    descriptor_of request domain_id create_tx_hash joint origin_hash
                      creation_deposit in
                  do
                    descriptor_hash ←
                        map_err encoding_failed
                          (hash_encoded keccak256 (encode_domain_descriptor descriptor))
                    deposit_unlock_height ←
                        ok_or (checked_add 64 creation_height creation_deposit_lock_blocks)
                          height_overflow
                    ok (record {
                      request = request;
                      descriptor = descriptor;
                      descriptor_hash = descriptor_hash;
                      creation_height = creation_height;
                      deposit_unlock_height = deposit_unlock_height;
                    })
