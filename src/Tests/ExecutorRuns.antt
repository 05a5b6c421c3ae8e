-- ===== src/Tests/ExecutorRuns.antt =====
-- A batch of two transactions, executed for 21000 gas each on states that count them, and the proposal
-- with it.
use arbor.Base.{ℕ, suc, ◌≤◌, ◌≡◌, refl, Bool, none, some, [], ◌∷◌, All, ok, length}
use arbor.Base.BTreeMap.{get, insert}
use arbor.Base.Bytes.{to_be_bytes}
use arbor.Primitives.{Eip1559Transaction, Receipt}
use arbor.Evm.{DomainEnv, resolve, spec_v1}
use arbor.Executor.{DomainExecutionResult, ExecutedTransaction}
use arbor.Executor.Batch.{
  TransactionCalls, checked_cumulative_gas, registry_runtime, logs_bloom, prepare_registry_creation,
  created_by, execute_envelope, execute_envelopes, all_created, execute_batch_with_registry,
  execution_calls,
}
use arbor.Executor.Gas.{CountsUp, EncodesTo, execute_batch_lem}
use arbor.Codec.Limits.{strictly_sorted, check_limit}
use arbor.Codec.Encoder
use arbor.Codec.ConsensusHeader.{encode_consensus_header, write_consensus_header}
use arbor.Codec.DomainHeader.{encode_domain_header, write_domain_header}
use arbor.Codec.DomainBatch.{encode_domain_batch, write_transactions}
use arbor.Crypto.{consensus_header_hash, domain_header_hash, hash_encoded}
use arbor.State.DomainHeads
use arbor.Chain.{ValidatedProposal}
use arbor.Chain.Limits.{ensure_batch_order, validate_timestamp, validate_aggregate_gas}
use arbor.Chain.Fee.{next_base_fee}
use arbor.Chain.Collections.{
  batches_root, domain_results_root, derived_prevrandao, encode_all, merkle_collection_root,
  collection_leaf, collection_root, leaves_from, reduce,
}
use arbor.Chain.Body.{encode_consensus_block, put_u32, put_bytes, put_all}
use arbor.Chain.Domains.{domain_heads_root, heads_commitment, commit_heads, insert_created_domains}
use arbor.Chain.Machine.{
  build_proposal, sort_batches, insert_batch, execute, execute_batches, execute_domain,
  domain_header_of, context_of, finish_proposal,
}
use arbor.Chain.GasLimit.{IsWithinLimit, build_proposal-IsWithinLimit}
use arbor.Tests.ChainRuns.{
  keccak, root_config, genesis_view, batch_sample, next_header, proposal_of,
}

abbrev transfer : Eip1559Transaction
transfer = record {
  chain_id = 7;
  nonce = 0;
  max_priority_fee_per_gas = 1;
  max_fee_per_gas = 2000;
  gas_limit = 21000;
  to = some 12;
  value = 5;
  input = [];
  access_list = [];
  y_parity = Bool.false;
  r = 1;
  s = 1;
}

abbrev transfer_calls : TransactionCalls ℕ
transfer_calls = record {
  decode_eip1559 = λ bytes. ok transfer;
  recover_sender = λ tx. ok 9;
  transaction_hash = λ tx. ok 77;
  encode_receipt = λ receipt. ok (receipt.cumulative_gas_used ∷ []);
  decode_create_chain_call = λ bytes. none;
  prepare_chain_creation = λ request network hash joint root value height. none;
  from_genesis = λ owner supply. ok 0;
  state_root = λ s. s;
  execute_transaction = λ s spec env tx sender runtime. ok (
    suc s,
    record {
      success = Bool.true;
      gas_used = 21000;
      logs = [];
      output = [];
      created_address = none;
      created_domain = none;
    },
  );
  accrue_raw_log = λ bloom log. bloom;
  accrue_bloom = λ bloom more. bloom;
  ordered_trie_root = λ envelopes. length envelopes;
}

abbrev env_sample : DomainEnv
env_sample = record {
  chain_id = 7;
  block_number = 1;
  timestamp = 110;
  beneficiary = 8;
  gas_limit = 30000000;
  base_fee_per_gas = 875;
  prevrandao = 0;
}

abbrev receipt_of : ℕ → Receipt
receipt_of used = record {
  status = Bool.true;
  cumulative_gas_used = used;
  logs_bloom = 0;
  logs = [];
}

abbrev transfer_result : ExecutedTransaction
transfer_result = record {
  transaction_hash = 77;
  sender = 9;
  success = Bool.true;
  gas_used = 21000;
  contract_address = none;
  output = [];
}

abbrev result_sample : DomainExecutionResult ℕ
result_sample = record {
  state = 8;
  transactions_root = 2;
  receipts_root = 2;
  logs_bloom = 0;
  gas_used = 42000;
  receipts = receipt_of 21000 ∷ receipt_of 42000 ∷ [];
  encoded_receipts = (21000 ∷ []) ∷ (42000 ∷ []) ∷ [];
  transactions = transfer_result ∷ transfer_result ∷ [];
  created_domains = [];
}

result_sample-executed :
    execute_batch_with_registry transfer_calls spec_v1 env_sample 6 batch_sample.transactions none
    ≡ ok result_sample
unfolding execute_batch_with_registry execute_envelopes execute_envelope prepare_registry_creation
    registry_runtime checked_cumulative_gas logs_bloom created_by all_created
result_sample-executed = refl

execute_batch_example :
    CountsUp 0 result_sample.transactions result_sample.receipts 42000
    × (length result_sample.transactions ≡ length batch_sample.transactions)
    × (42000 ≤ 30000000)
    × EncodesTo transfer_calls.encode_receipt result_sample.receipts result_sample.encoded_receipts
    × (result_sample.receipts_root ≡ length result_sample.encoded_receipts)
execute_batch_example =
    execute_batch_lem transfer_calls spec_v1 env_sample 6 batch_sample.transactions none
      result_sample-executed

abbrev transfer_proposal : ValidatedProposal ℕ
transfer_proposal =
    proposal_of (batch_sample ∷ []) (next_header ∷ [])
      (record { config = root_config; header = next_header; block_hash = 491; state = 8 })
      (result_sample ∷ [])

transfer_proposal-built :
    build_proposal keccak
      (execution_calls transfer_calls (λ s a. ok none) (λ s a i. ok 0))
      genesis_view
      (batch_sample ∷ [])
      110
      8
    ≡ ok transfer_proposal
unfolding execution_calls execute_batch_with_registry execute_envelopes execute_envelope
    prepare_registry_creation registry_runtime checked_cumulative_gas logs_bloom created_by
    all_created build_proposal sort_batches insert_batch execute execute_batches execute_domain
    domain_header_of context_of finish_proposal ensure_batch_order validate_timestamp
    validate_aggregate_gas next_base_fee batches_root domain_results_root derived_prevrandao
    encode_all merkle_collection_root collection_leaf collection_root leaves_from reduce
    encode_consensus_block put_u32 put_bytes put_all domain_heads_root heads_commitment commit_heads
    insert_created_domains DomainHeads.insert DomainHeads.new DomainHeads.root DomainHeads.entries
    DomainHeads.leaf_of DomainHeads.subtree_root DomainHeads.branch_hash DomainHeads.leaf_hash
    DomainHeads.empty_hash DomainHeads.domain_head_key DomainHeads.domain_head_value
    DomainHeads.left_part DomainHeads.right_part DomainHeads.bit DomainHeads.byte_at
    consensus_header_hash domain_header_hash hash_encoded encode_consensus_header
    encode_domain_header encode_domain_batch write_transactions write_consensus_header
    write_domain_header resolve get insert strictly_sorted to_be_bytes check_limit Encoder.tagged
    Encoder.u8 Encoder.u32 Encoder.u64 Encoder.u128 Encoder.b256 Encoder.address Encoder.bloom
    Encoder.finish Encoder.count Encoder.put_bytes
transfer_proposal-built = refl

build_proposal-IsWithinLimit_example : All IsWithinLimit (next_header ∷ [])
build_proposal-IsWithinLimit_example =
    build_proposal-IsWithinLimit keccak transfer_calls (λ s a. ok none) (λ s a i. ok 0) genesis_view
      (batch_sample ∷ []) 110 8 transfer_proposal-built
