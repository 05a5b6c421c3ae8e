-- ===== src/Lib.antt =====
-- Arbor, a multi-domain blockchain node in Rust: its protocol core, modelled and verified.
--
-- The program. A root chain of BFT consensus orders batches of transactions of many domains. Clients
-- send signed EIP-1559 envelopes, which wait in the transaction pool of their domain until a proposal
-- reserves them. Consensus objects (headers, batches, votes, certificates, validator sets, domain
-- descriptors) travel and are hashed in one canonical binary form. Every domain has an Ethereum state,
-- written through overlays, and the heads of all domains are committed by one sparse Merkle map. A
-- proposal executes its batches on the finalized view of its parent; every other node validates it by
-- executing it again, and a certificate of more than two thirds of the voting power finalizes it.
--
-- What models which part:
--   * Primitives: the data types of crates/arbor-primitives/src/lib.rs. A fixed-size byte array is the
--     number that its bytes spell big-endian, a machine word is a number, and beside each record stands
--     the predicate (IsVote, IsDomainBatch, ...) that its fields are in the range of their Rust types.
--   * Codec: crates/arbor-codec/src/canonical.rs, with the limits and errors of lib.rs (Limits), the
--     writer (Encoder), the cursor (Decoder) and one module for each object with `encode_*` and
--     `decode_*`. Reads carries round trips through decoders, Yields the converse, Frame whole objects.
--   * Crypto: the hashes, validator sets and certificates of crates/arbor-crypto/src/lib.rs, over the
--     parameters `keccak256` and Secp256k1. Power counts voting power, Search
--     treats the binary search for a signer, Quorum what certificates mean.
--   * Mempool: crates/arbor-mempool/src/lib.rs. The methods that take `&mut self` are functions from a
--     pool to a pool and an answer. Mempool holds the state, `new`, `register_domain` and `insert`;
--     Queue the other methods; Price the fee rule. Reachable is the step relation of all operations.
--     Decoding, sender recovery and hashing of an envelope are the record TransactionCodec, a parameter.
--   * State.DomainHeads: crates/arbor-state/src/domain_heads.rs over a parameter `keccak256`. Split
--     treats the division of a range by a bit, Complete the proofs that are produced, Binding those that
--     are checked. State.Overlay: crates/arbor-state/src/overlay.rs, over the record StateCalls for what
--     it calls of the rest of the crate.
--   * System: crates/arbor-system/src/lib.rs, the checks of a `createChain` request (Requests), the texts
--     in it (Names), `prepare_chain_creation` and the storage writes (Creation, Prepare), the refund and
--     burn calls (Calls, DepositCalls) and registry slots (Slots), over a parameter `keccak256`.
--   * Evm: the environment and revisions of crates/arbor-evm/src/spec.rs. Executor: the types of
--     crates/arbor-executor/src/lib.rs, and the record ExecutionCalls of what the chain calls of it.
--     Executor.Batch is its batch loop, over the record TransactionCalls of what it calls for one
--     transaction, and fills ExecutionCalls; Gas counts receipts and gas.
--   * Chain: crates/arbor-chain/src/lib.rs over ExecutionCalls and `keccak256`. Chain holds the types,
--     Limits the checks, Fee `next_base_fee`, Collections the Merkle roots of batches and results, Body
--     the codec of blocks, Domains genesis, created domains and genealogies, Machine `execute`,
--     `build_proposal` and `validate_proposal`, Checkpoint the checkpoints of the view. Compare and
--     Replay treat validation as building again, Progress what a proposal does to the view, GasLimit
--     its gas on the batch executor, Created the chains that System prepares, Inclusion the proofs of domain results, Restore and Authentic what
--     an accepted checkpoint is.
--   * Base: results, bytes, UTF-8, orders and ordered maps (`BTreeMap`) with their laws.
--   * Tests: runs of the definitions on concrete data, and each theorem applied to such data.
--
-- Bounds and fuel. Byte counts and positions are checked against 2^64 where the code uses checked
-- arithmetic. The fee rule saturates at 2^128 - 1. `ready` walks nonces on the fuel 2^64 -
-- state_nonce, one round for each 64-bit nonce left, which is enough. The Merkle functions recurse on
-- the 256 levels of the map. The Merkle roots of collections halve a level in each round, on its
-- length as fuel. The binary search halves the size on the size as fuel. `genealogy` visits a domain
-- once, on one round more than there are descriptors, and one to find that no parent follows. All
-- other loops are structural.
--
-- Not modelled: the RLP envelopes of arbor-codec/src/ethereum.rs, signing and sender recovery of
-- arbor-crypto, the Merkle Patricia trie, accounts and snapshots of arbor-state, the ABI codec of
-- `createChain` of arbor-system, the consensus and network crates, and the crates that are wiring or I/O
-- (the revm glue of arbor-evm, storage, keystore, rpc, node, cli, testkit).
pub mod Base
pub mod Primitives
pub mod Codec
pub mod Crypto
pub mod Mempool
pub mod State
pub mod System
pub mod Evm
pub mod Executor
pub mod Chain
pub mod Tests
