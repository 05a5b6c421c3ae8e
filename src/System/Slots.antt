-- ===== src/System/Slots.antt =====
-- The address of the chain registry and its storage slots, crates/arbor-system/src/lib.rs. The hash is
-- the parameter `keccak256`.
use arbor.Base.{ℕ, List, ◌++◌}
use arbor.Base.Bytes.{to_be_bytes}
use arbor.Codec.Limits.{ascii}
use arbor.Primitives.{Address, Bytes, B256, DomainId}

abbrev pub chain_registry_address : Address
chain_registry_address = 0x801

abbrev pub registry_descriptor_tag : Bytes
registry_descriptor_tag = ascii "ARBOR_CHAIN_REGISTRY_DESCRIPTOR_V1"

abbrev pub registry_chain_id_tag : Bytes
registry_chain_id_tag = ascii "ARBOR_CHAIN_REGISTRY_CHAIN_ID_V1"

module _ (keccak256 : List ℕ → B256) where
  unfoldable pub tagged_slot : Bytes → Bytes → ℕ
  tagged_slot tag key = keccak256 (tag ++ key)

  unfoldable pub descriptor_slot : DomainId → ℕ
  descriptor_slot domain_id = tagged_slot registry_descriptor_tag (to_be_bytes 32 domain_id)

  unfoldable pub chain_id_slot : ℕ → ℕ
  chain_id_slot chain_id = tagged_slot registry_chain_id_tag (to_be_bytes 8 chain_id)
