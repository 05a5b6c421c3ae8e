-- ===== src/Primitives.antt =====
-- The consensus-facing data types of crates/arbor-primitives/src/lib.rs.
-- A fixed-size byte array (`B256`, `Address`, `Bloom`, keys, signatures) is the number that its
-- bytes spell big-endian; `Bytes` and `String` are lists of bytes; the newtypes over `B256` and
-- `u64` are synonyms. Beside each record stands the predicate that its fields have the values
-- which the Rust types can hold.
use arbor.Base.{ℕ, ◌<◌, ◌^◌, ◌≡◌, true, List, Option, Bool, All}
use arbor.Base.Bytes.{IsBytes}
use arbor.Base.Utf8.{is_utf8}

abbrev pub B256 : Type 0
B256 = ℕ

abbrev pub Address : Type 0
Address = ℕ

abbrev pub Bytes : Type 0
Bytes = List ℕ

abbrev pub protocol_version : ℕ
protocol_version = 1

abbrev pub NetworkId : Type 0
NetworkId = B256

abbrev pub DomainId : Type 0
DomainId = B256

abbrev pub ValidatorId : Type 0
ValidatorId = B256

-- A number of `n` bytes.
abbrev pub IsWord : ℕ → ℕ → Type 0
IsWord n v = v < 256 ^ n

-- The bytes of a `String`.
abbrev pub IsText : Bytes → Type 0
IsText bs = IsBytes bs × (is_utf8 bs ≡ true)

pub record ConsensusBlockHeader : Type 0 where
  pub protocol_version : ℕ
  pub network_id : NetworkId
  pub height : ℕ
  pub parent_hash : B256
  pub timestamp : ℕ
  pub batches_root : B256
  pub domain_results_root : B256
  pub domain_heads_root : B256
  pub validator_set_hash : B256
  pub next_validator_set_hash : B256
  pub proposer : Address

pub record IsConsensusBlockHeader (h : ConsensusBlockHeader) : Type 0 where
  pub protocol_version : IsWord 4 h.protocol_version
  pub network_id : IsWord 32 h.network_id
  pub height : IsWord 8 h.height
  pub parent_hash : IsWord 32 h.parent_hash
  pub timestamp : IsWord 8 h.timestamp
  pub batches_root : IsWord 32 h.batches_root
  pub domain_results_root : IsWord 32 h.domain_results_root
  pub domain_heads_root : IsWord 32 h.domain_heads_root
  pub validator_set_hash : IsWord 32 h.validator_set_hash
  pub next_validator_set_hash : IsWord 32 h.next_validator_set_hash
  pub proposer : IsWord 20 h.proposer

pub record DomainBatch : Type 0 where
  pub domain_id : DomainId
  pub parent_domain_block_hash : B256
  pub transactions : List Bytes

pub record IsDomainBatch (b : DomainBatch) : Type 0 where
  pub domain_id : IsWord 32 b.domain_id
  pub parent_domain_block_hash : IsWord 32 b.parent_domain_block_hash
  pub transactions : All IsBytes b.transactions

pub record DomainBlockHeader : Type 0 where
  pub protocol_version : ℕ
  pub domain_id : DomainId
  pub number : ℕ
  pub parent_hash : B256
  pub consensus_height : ℕ
  pub transactions_root : B256
  pub state_root : B256
  pub receipts_root : B256
  pub logs_bloom : ℕ
  pub gas_limit : ℕ
  pub gas_used : ℕ
  pub base_fee_per_gas : ℕ

pub record IsDomainBlockHeader (h : DomainBlockHeader) : Type 0 where
  pub protocol_version : IsWord 4 h.protocol_version
  pub domain_id : IsWord 32 h.domain_id
  pub number : IsWord 8 h.number
  pub parent_hash : IsWord 32 h.parent_hash
  pub consensus_height : IsWord 8 h.consensus_height
  pub transactions_root : IsWord 32 h.transactions_root
  pub state_root : IsWord 32 h.state_root
  pub receipts_root : IsWord 32 h.receipts_root
  pub logs_bloom : IsWord 256 h.logs_bloom
  pub gas_limit : IsWord 8 h.gas_limit
  pub gas_used : IsWord 8 h.gas_used
  pub base_fee_per_gas : IsWord 16 h.base_fee_per_gas

pub data DomainStatus : Type 0 where
  pending active frozen : DomainStatus

pub record DomainDescriptor : Type 0 where
  pub domain_id : DomainId
  pub parent_domain_id : DomainId
  pub joint_domain_block_hash : B256
  pub create_tx_hash : B256
  pub origin_hash : B256
  pub name : Bytes
  pub symbol : Bytes
  pub evm_chain_id : ℕ
  pub owner : Address
  pub protocol_revision : ℕ
  pub gas_limit : ℕ
  pub initial_base_fee : ℕ
  pub initial_supply : ℕ
  pub creation_deposit : ℕ
  pub status : DomainStatus

-- A `String` holds well-formed UTF-8.
pub record IsDomainDescriptor (d : DomainDescriptor) : Type 0 where
  pub domain_id : IsWord 32 d.domain_id
  pub parent_domain_id : IsWord 32 d.parent_domain_id
  pub joint_domain_block_hash : IsWord 32 d.joint_domain_block_hash
  pub create_tx_hash : IsWord 32 d.create_tx_hash
  pub origin_hash : IsWord 32 d.origin_hash
  pub name : IsText d.name
  pub symbol : IsText d.symbol
  pub evm_chain_id : IsWord 8 d.evm_chain_id
  pub owner : IsWord 20 d.owner
  pub protocol_revision : IsWord 4 d.protocol_revision
  pub gas_limit : IsWord 8 d.gas_limit
  pub initial_base_fee : IsWord 16 d.initial_base_fee
  pub initial_supply : IsWord 32 d.initial_supply
  pub creation_deposit : IsWord 32 d.creation_deposit

pub record DomainGenesis : Type 0 where
  pub domain_id : DomainId
  pub parent_domain_id : DomainId
  pub joint_domain_block_hash : B256
  pub create_tx_hash : B256
  pub name : Bytes
  pub symbol : Bytes
  pub evm_chain_id : ℕ
  pub owner : Address
  pub protocol_revision : ℕ
  pub gas_limit : ℕ
  pub initial_base_fee : ℕ
  pub initial_supply : ℕ
  pub initial_state_root : B256

pub record IsDomainGenesis (g : DomainGenesis) : Type 0 where
  pub domain_id : IsWord 32 g.domain_id
  pub parent_domain_id : IsWord 32 g.parent_domain_id
  pub joint_domain_block_hash : IsWord 32 g.joint_domain_block_hash
  pub create_tx_hash : IsWord 32 g.create_tx_hash
  pub name : IsText g.name
  pub symbol : IsText g.symbol
  pub evm_chain_id : IsWord 8 g.evm_chain_id
  pub owner : IsWord 20 g.owner
  pub protocol_revision : IsWord 4 g.protocol_revision
  pub gas_limit : IsWord 8 g.gas_limit
  pub initial_base_fee : IsWord 16 g.initial_base_fee
  pub initial_supply : IsWord 32 g.initial_supply
  pub initial_state_root : IsWord 32 g.initial_state_root

pub record Validator : Type 0 where
  pub id : ValidatorId
  pub public_key : ℕ
  pub power : ℕ

pub record IsValidator (v : Validator) : Type 0 where
  pub id : IsWord 32 v.id
  pub public_key : IsWord 33 v.public_key
  pub power : IsWord 8 v.power

pub record ValidatorSet : Type 0 where
  pub epoch : ℕ
  pub validators : List Validator

pub record IsValidatorSet (s : ValidatorSet) : Type 0 where
  pub epoch : IsWord 8 s.epoch
  pub validators : All IsValidator s.validators

pub record Vote : Type 0 where
  pub network_id : NetworkId
  pub height : ℕ
  pub round : ℕ
  pub phase : ℕ
  pub block_hash : B256
  pub validator_id : ValidatorId

pub record IsVote (v : Vote) : Type 0 where
  pub network_id : IsWord 32 v.network_id
  pub height : IsWord 8 v.height
  pub round : IsWord 8 v.round
  pub phase : IsWord 1 v.phase
  pub block_hash : IsWord 32 v.block_hash
  pub validator_id : IsWord 32 v.validator_id

pub record CommitSignature : Type 0 where
  pub validator_id : ValidatorId
  pub signature : ℕ

pub record IsCommitSignature (s : CommitSignature) : Type 0 where
  pub validator_id : IsWord 32 s.validator_id
  pub signature : IsWord 64 s.signature

pub record QuorumCertificate : Type 0 where
  pub network_id : NetworkId
  pub height : ℕ
  pub round : ℕ
  pub phase : ℕ
  pub block_hash : B256
  pub signatures : List CommitSignature

pub record IsQuorumCertificate (q : QuorumCertificate) : Type 0 where
  pub network_id : IsWord 32 q.network_id
  pub height : IsWord 8 q.height
  pub round : IsWord 8 q.round
  pub phase : IsWord 1 q.phase
  pub block_hash : IsWord 32 q.block_hash
  pub signatures : All IsCommitSignature q.signatures

pub record Log : Type 0 where
  pub address : Address
  pub topics : List B256
  pub data_bytes : Bytes

pub record Receipt : Type 0 where
  pub status : Bool
  pub cumulative_gas_used : ℕ
  pub logs_bloom : ℕ
  pub logs : List Log

pub record AccessListItem : Type 0 where
  pub address : Address
  pub storage_keys : List B256

pub record Eip1559Transaction : Type 0 where
  pub chain_id : ℕ
  pub nonce : ℕ
  pub max_priority_fee_per_gas : ℕ
  pub max_fee_per_gas : ℕ
  pub gas_limit : ℕ
  pub to : Option Address
  pub value : ℕ
  pub input : Bytes
  pub access_list : List AccessListItem
  pub y_parity : Bool
  pub r : ℕ
  pub s : ℕ
