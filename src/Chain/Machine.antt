-- ===== src/Chain/Machine.antt =====
-- `ChainMachine` of crates/arbor-chain/src/lib.rs: proposals are built and validated by executing
-- their batches on the finalized view of their parent. `keccak256` and the execution crates are
-- parameters.
use arbor.Base.{
  ℕ, ◌-◌, ◌^◌, Bool, false, not, none, some, List, [], ◌∷◌, map, Result, ok, length, ltb, leb, ◌==◌,
  ◌&&◌, ◌||◌, if◌then◌else◌,
}
use arbor.Base.Checked.{checked_add, saturating_add}
use arbor.Base.Ord.{nat_ord}
use arbor.Base.BTreeMap.{get, insert as map_insert}
use arbor.Base.Outcome.{◌>>=◌, ◌>>◌, fail_if, ok_or, map_err}
use arbor.Primitives.{
  B256, Address, DomainId, ConsensusBlockHeader, DomainBatch, DomainBlockHeader, protocol_version,
}
use arbor.Crypto.{consensus_header_hash, domain_header_hash}
use arbor.Evm.{resolve}
use arbor.Executor.{ChainRegistryExecutionContext, DomainExecutionResult, ExecutionCalls}
use arbor.Chain.{
  FinalizedDomain, FinalizedChainState, ConsensusBlock, ValidatedProposal, RootField, ChainError,
  wrong_consensus_parent, result_alignment, too_many_batches, unknown_domain, wrong_domain_parent,
  wrong_domain_number, aggregate_gas, block_bytes, execution, encoding, from_crypto, from_evm,
  root_mismatch, header_mismatch, max_batches_per_block, max_consensus_block_gas,
  max_consensus_block_bytes,
}
use arbor.Chain.Limits.{ensure_batch_order, validate_timestamp, validate_aggregate_gas}
use arbor.Chain.Fee.{next_base_fee}
use arbor.Chain.Collections.{batches_root, domain_results_root, derived_prevrandao}
use arbor.Chain.Body.{encode_consensus_block}
use arbor.Chain.Domains.{domain_heads_root, insert_created_domains}

-- `actual == expected` of two domain headers.
unfoldable pub same_domain_header : DomainBlockHeader → DomainBlockHeader → Bool
same_domain_header a b =
    a.protocol_version == b.protocol_version
    && a.domain_id == b.domain_id
    && a.number == b.number
    && a.parent_hash == b.parent_hash
    && a.consensus_height == b.consensus_height
    && a.transactions_root == b.transactions_root
    && a.state_root == b.state_root
    && a.receipts_root == b.receipts_root
    && a.logs_bloom == b.logs_bloom
    && a.gas_limit == b.gas_limit
    && a.gas_used == b.gas_used
    && a.base_fee_per_gas == b.base_fee_per_gas

unfoldable pub same_consensus_header : ConsensusBlockHeader → ConsensusBlockHeader → Bool
same_consensus_header a b =
    a.protocol_version == b.protocol_version
    && a.network_id == b.network_id
    && a.height == b.height
    && a.parent_hash == b.parent_hash
    && a.timestamp == b.timestamp
    && a.batches_root == b.batches_root
    && a.domain_results_root == b.domain_results_root
    && a.domain_heads_root == b.domain_heads_root
    && a.validator_set_hash == b.validator_set_hash
    && a.next_validator_set_hash == b.next_validator_set_hash
    && a.proposer == b.proposer

-- One round of the loop of `compare_candidate`.
unfoldable pub compare_domain_block :
    DomainBlockHeader → DomainBlockHeader → Result ChainError (Unit {0})
compare_domain_block actual expected = do
  fail_if
      (not (actual.number == expected.number)
        || not (actual.parent_hash == expected.parent_hash)
        || not (actual.consensus_height == expected.consensus_height))
      (wrong_domain_number actual.domain_id)
  fail_if (not (actual.transactions_root == expected.transactions_root))
      (root_mismatch RootField.transactions (some actual.domain_id))
  fail_if (not (actual.state_root == expected.state_root))
      (root_mismatch RootField.state (some actual.domain_id))
  fail_if (not (actual.receipts_root == expected.receipts_root))
      (root_mismatch RootField.receipts (some actual.domain_id))
  fail_if (not (same_domain_header actual expected)) header_mismatch

-- `for (actual, expected) in actual.iter().zip(expected)`
unfoldable pub compare_domain_blocks :
    List DomainBlockHeader → List DomainBlockHeader → Result ChainError (Unit {0})
compare_domain_blocks [] expected = ok tt
compare_domain_blocks (a ∷ actual) [] = ok tt
compare_domain_blocks (a ∷ actual) (e ∷ expected) = do
  compare_domain_block a e
  compare_domain_blocks actual expected

unfoldable pub compare_candidate : ConsensusBlock → ConsensusBlock → Result ChainError (Unit {0})
compare_candidate actual expected = do
  fail_if (not (actual.header.batches_root == expected.header.batches_root))
      (root_mismatch RootField.batches none)
  compare_domain_blocks actual.domain_blocks expected.domain_blocks
  fail_if (not (actual.header.domain_results_root == expected.header.domain_results_root))
      (root_mismatch RootField.domain_results none)
  fail_if (not (actual.header.domain_heads_root == expected.header.domain_heads_root))
      (root_mismatch RootField.domain_heads none)
  fail_if (not (same_consensus_header actual.header expected.header)) header_mismatch

-- `batches.iter().zip(&domain_blocks).any(|(batch, result)| batch.domain_id != result.domain_id)`
unfoldable pub any_misaligned : List DomainBatch → List DomainBlockHeader → Bool
any_misaligned [] results = false
any_misaligned (b ∷ batches) [] = false
any_misaligned (b ∷ batches) (r ∷ results) =
    not (b.domain_id == r.domain_id) || any_misaligned batches results

-- The stable `sort_by_key` on the domain.
unfoldable pub insert_batch : DomainBatch → List DomainBatch → List DomainBatch
insert_batch b [] = b ∷ []
insert_batch b (c ∷ cs) =
    let rest = insert_batch b cs in if leb b.domain_id c.domain_id then b ∷ c ∷ cs else c ∷ rest

unfoldable pub sort_batches : List DomainBatch → List DomainBatch
sort_batches [] = []
sort_batches (b ∷ bs) = insert_batch b (sort_batches bs)

module _ (keccak256 : List ℕ → B256) {S : Type 0} (calls : ExecutionCalls S) where
  -- The header of a domain block that an execution produced.
  unfoldable pub domain_header_of :
      FinalizedDomain S → DomainBatch → ℕ → ℕ → DomainExecutionResult S → DomainBlockHeader
  domain_header_of finalized batch number height result = record {
    protocol_version = protocol_version;
    domain_id = batch.domain_id;
    number = number;
    parent_hash = finalized.block_hash;
    consensus_height = height;
    transactions_root = result.transactions_root;
    state_root = calls.state_root result.state;
    receipts_root = result.receipts_root;
    logs_bloom = result.logs_bloom;
    gas_limit = finalized.config.gas_limit;
    gas_used = result.gas_used;
    base_fee_per_gas = next_base_fee finalized.header;
  }

  unfoldable pub execute_domain :
      B256
      → FinalizedDomain S
      → DomainBatch
      → ℕ
      → ℕ
      → Address
      → ChainRegistryExecutionContext
      → Result ChainError (DomainBlockHeader × DomainExecutionResult S × FinalizedDomain S)
  execute_domain parent_consensus_hash finalized batch height timestamp proposer registry_context =
      do
        number ←
            ok_or (checked_add 64 finalized.header.number 1) (wrong_domain_number batch.domain_id)
        spec ← map_err (λ e. encoding (from_evm e)) (resolve finalized.config.protocol_revision)
        result ← map_err (execution batch.domain_id) (
            calls.execute_batch_with_registry spec
              (record {
                chain_id = finalized.config.chain_id;
                block_number = number;
                timestamp = timestamp;
                beneficiary = proposer;
                gas_limit = finalized.config.gas_limit;
                base_fee_per_gas = next_base_fee finalized.header;
                prevrandao = derived_prevrandao keccak256 parent_consensus_hash height;
              })
              finalized.state batch.transactions registry_context)
        let header = domain_header_of finalized batch number height result in
            do
              block_hash ←
                  map_err (λ e. encoding (from_crypto e)) (domain_header_hash keccak256 header)
              ok (
                header,
                result,
                record {
                  config = finalized.config;
                  header = header;
                  block_hash = block_hash;
                  state = result.state;
                },
              )

  unfoldable pub context_of : FinalizedChainState S → DomainId → ℕ → ChainRegistryExecutionContext
  context_of parent domain_id height = record {
    network_id = parent.network_id;
    root_domain_id = parent.root_domain_id;
    executing_domain_id = domain_id;
    creation_height = height;
    governance_address = parent.governance_address;
    finalized_heads = map (λ e. (e.0, e.1.block_hash)) parent.domains;
  }

  -- The loop of `execute` over the batches, from the view and the gas of those before.
  unfoldable pub execute_batches :
      FinalizedChainState S
      → ℕ
      → ℕ
      → Address
      → List DomainBatch
      → FinalizedChainState S
      → ℕ
      → Result ChainError
          (FinalizedChainState S × List DomainBlockHeader × List (DomainExecutionResult S))
  execute_batches parent height timestamp proposer [] state gas = ok (state, [], [])
  execute_batches parent height timestamp proposer (batch ∷ batches) state gas = do
    finalized ← ok_or (get batch.domain_id parent.domains) (unknown_domain batch.domain_id)
    fail_if (not (batch.parent_domain_block_hash == finalized.block_hash))
        (wrong_domain_parent batch.domain_id)
    (header, result, domain) ←
        execute_domain parent.consensus_hash finalized batch height timestamp proposer
          (context_of parent batch.domain_id height)
    total ←
        ok_or (checked_add 64 gas result.gas_used)
          (aggregate_gas max_consensus_block_gas (2 ^ 64 - 1))
    validate_aggregate_gas total
    created ←
        insert_created_domains keccak256 calls result.created_domains height
          (record state { domains = map_insert batch.domain_id domain state.domains })
    (end, headers, results) ← execute_batches parent height timestamp proposer batches created total
    ok (end, header ∷ headers, result ∷ results)

  -- `execute` from the roots on.
  unfoldable pub finish_proposal :
      FinalizedChainState S
      → ℕ
      → ℕ
      → Address
      → List DomainBatch
      → FinalizedChainState S
      → List DomainBlockHeader
      → List (DomainExecutionResult S)
      → B256
      → B256
      → Result ChainError (ValidatedProposal S)
  finish_proposal parent height timestamp proposer batches state domain_blocks executions
        batches_hash results_hash =
      let block : ConsensusBlock = record {
        header = record {
          protocol_version = protocol_version;
          network_id = parent.network_id;
          height = height;
          parent_hash = parent.consensus_hash;
          timestamp = timestamp;
          batches_root = batches_hash;
          domain_results_root = results_hash;
          domain_heads_root = domain_heads_root keccak256 state;
          validator_set_hash = parent.next_validator_set_hash;
          next_validator_set_hash = parent.next_validator_set_hash;
          proposer = proposer;
        };
        batches = batches;
        domain_blocks = domain_blocks;
      } in
      do
        encoded ← encode_consensus_block block
        fail_if (ltb max_consensus_block_bytes (length encoded))
            (block_bytes max_consensus_block_bytes (length encoded))
        hash ←
            map_err (λ e. encoding (from_crypto e)) (consensus_header_hash keccak256 block.header)
        ok (record {
          block = block;
          resulting_state = record state {
            validator_set_hash = parent.next_validator_set_hash;
            next_validator_set_hash = parent.next_validator_set_hash;
            height = height;
            consensus_hash = hash;
            timestamp = timestamp;
          };
          executions = executions;
        })

  unfoldable pub execute :
      FinalizedChainState S
      → List DomainBatch
      → ℕ
      → Address
      → Result ChainError (ValidatedProposal S)
  execute parent batches timestamp proposer = do
    validate_timestamp parent.timestamp timestamp
    fail_if (ltb max_batches_per_block (length batches))
        (too_many_batches max_batches_per_block (length batches))
    height ← ok_or (checked_add 64 parent.height 1) wrong_consensus_parent
    (state, domain_blocks, executions) ←
        execute_batches parent height timestamp proposer batches parent 0
    batches_hash ← batches_root keccak256 batches
    results_hash ← domain_results_root keccak256 domain_blocks
    finish_proposal parent height timestamp proposer batches state domain_blocks executions
        batches_hash results_hash

  unfoldable pub build_proposal :
      FinalizedChainState S
      → List DomainBatch
      → ℕ
      → Address
      → Result ChainError (ValidatedProposal S)
  build_proposal parent batches timestamp proposer = do
    ensure_batch_order (sort_batches batches)
    execute parent (sort_batches batches) timestamp proposer

  unfoldable pub validate_proposal :
      FinalizedChainState S → ConsensusBlock → Result ChainError (ValidatedProposal S)
  validate_proposal parent candidate = do
    fail_if
        (not (candidate.header.protocol_version == protocol_version)
          || not (candidate.header.network_id == parent.network_id)
          || not (candidate.header.height == saturating_add 64 parent.height 1)
          || not (candidate.header.parent_hash == parent.consensus_hash))
        wrong_consensus_parent
    ensure_batch_order candidate.batches
    fail_if
        (not (length candidate.domain_blocks == length candidate.batches)
          || any_misaligned candidate.batches candidate.domain_blocks)
        result_alignment
    expected ← execute parent candidate.batches candidate.header.timestamp candidate.header.proposer
    compare_candidate candidate expected.block
    ok expected
