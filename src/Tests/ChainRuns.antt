-- ===== src/Tests/ChainRuns.antt =====
-- Proposals on a chain of one domain, hashed by the length of what is hashed.
use arbor.Base.{ℕ, ◌+◌, ◌*◌, ◌≡◌, refl, none, some, List, [], ◌∷◌, ok, err, length, arith}
use arbor.Primitives.{DomainBatch, DomainBlockHeader}
use arbor.Executor.{ExecutionCalls, DomainExecutionResult}
use arbor.Base.Ord.{nat_ord}
use arbor.Chain.{DomainConfig, FinalizedDomain, FinalizedChainState, ValidatedProposal}
use arbor.Base.{true, All, ◌<◌, ◌≤◌}
use arbor.Base.Bytes.{to_be_bytes}
use arbor.Base.BTreeMap.{get, insert}
use arbor.Codec.Limits.{strictly_sorted, check_limit}
use arbor.Codec.Encoder
use arbor.Codec.ConsensusHeader.{encode_consensus_header, write_consensus_header}
use arbor.Codec.DomainHeader.{encode_domain_header, write_domain_header}
use arbor.Codec.DomainBatch.{encode_domain_batch, write_transactions}
use arbor.Crypto.{consensus_header_hash, domain_header_hash, hash_encoded}
use arbor.State.DomainHeads
use arbor.Evm.{resolve}
use arbor.Chain.Limits.{ensure_batch_order, validate_timestamp, validate_aggregate_gas}
use arbor.Chain.Fee.{MovesFee, next_base_fee, next_base_fee_lem}
use arbor.Chain.Collections.{
  batches_root, domain_results_root, derived_prevrandao, encode_all, merkle_collection_root,
  collection_leaf, collection_root, leaves_from, reduce,
}
use arbor.Base.{◌⊎◌, ◌↔◌, ◌/◌}
use Prim.Native.Nat.{max}
use arbor.Codec.Frame.{frame}
use arbor.Chain.{block_bytes, max_consensus_block_bytes}
use arbor.Chain.Body.RoundTrip.{IsConsensusBlock, decode-encode_consensus_block}
use arbor.Chain.Body.{encode_consensus_block, decode_consensus_block, put_u32, put_bytes, put_all}
use arbor.Chain.Domains.{domain_heads_root, heads_commitment, commit_heads, insert_created_domains}
use arbor.Chain.Machine.{
  build_proposal, validate_proposal, sort_batches, insert_batch, execute, execute_batches,
  execute_domain, domain_header_of, context_of, finish_proposal,
}
use arbor.Chain.Replay.{validate-build_proposal, build-validate_proposal}
use arbor.Chain.Progress.{build_proposal_lem, build_proposal-keeps, Moves}

abbrev pub keccak : List ℕ → ℕ
keccak bytes = length bytes

abbrev counting_calls : ExecutionCalls ℕ
counting_calls = record {
  state_root = λ s. s;
  balance_of = λ s a. ok none;
  storage = λ s a i. ok 0;
  execute_batch_with_registry = λ spec env s envelopes context. ok (record {
    state = s + length envelopes;
    transactions_root = length envelopes;
    receipts_root = length envelopes;
    logs_bloom = 0;
    gas_used = 21000 * length envelopes;
    receipts = [];
    encoded_receipts = [];
    transactions = [];
    created_domains = [];
  });
  transactions_root = λ envelopes. length envelopes;
}

abbrev pub root_config : DomainConfig
root_config = record {
  chain_id = 7;
  protocol_revision = 1;
  gas_limit = 30000000;
  initial_base_fee_per_gas = 1000;
}

-- The view at height zero.
abbrev pub root_domain : FinalizedDomain ℕ
root_domain = record {
  config = root_config;
  header = record {
    protocol_version = 1;
    domain_id = 4;
    number = 0;
    parent_hash = 0;
    consensus_height = 0;
    transactions_root = 0;
    state_root = 6;
    receipts_root = 0;
    logs_bloom = 0;
    gas_limit = 30000000;
    gas_used = 0;
    base_fee_per_gas = 1000;
  };
  block_hash = 491;
  state = 6;
}

abbrev pub genesis_view : FinalizedChainState ℕ
genesis_view = record {
  network_id = 1;
  height = 0;
  consensus_hash = 2;
  timestamp = 100;
  validator_set_hash = 3;
  next_validator_set_hash = 3;
  root_domain_id = 4;
  governance_address = 5;
  domains = (4, root_domain) ∷ [];
  descriptors = [];
}

abbrev pub batch_sample : DomainBatch
batch_sample = record {
  domain_id = 4;
  parent_domain_block_hash = 491;
  transactions = (1 ∷ 2 ∷ []) ∷ (3 ∷ []) ∷ [];
}

abbrev pub next_header : DomainBlockHeader
next_header = record {
  protocol_version = 1;
  domain_id = 4;
  number = 1;
  parent_hash = 491;
  consensus_height = 1;
  transactions_root = 2;
  state_root = 8;
  receipts_root = 2;
  logs_bloom = 0;
  gas_limit = 30000000;
  gas_used = 42000;
  base_fee_per_gas = 875;
}

-- The proposals at time 110 with and without that batch.
abbrev pub proposal_of :
    List DomainBatch
    → List DomainBlockHeader
    → FinalizedDomain ℕ
    → List (DomainExecutionResult ℕ)
    → ValidatedProposal ℕ
proposal_of batches domain_blocks domain executions = record {
  block = record {
    header = record {
      protocol_version = 1;
      network_id = 1;
      height = 1;
      parent_hash = 2;
      timestamp = 110;
      batches_root = 76;
      domain_results_root = 77;
      domain_heads_root = 85;
      validator_set_hash = 3;
      next_validator_set_hash = 3;
      proposer = 8;
    };
    batches = batches;
    domain_blocks = domain_blocks;
  };
  resulting_state = record {
    network_id = 1;
    height = 1;
    consensus_hash = 290;
    timestamp = 110;
    validator_set_hash = 3;
    next_validator_set_hash = 3;
    root_domain_id = 4;
    governance_address = 5;
    domains = (4, domain) ∷ [];
    descriptors = [];
  };
  executions = executions;
}

abbrev proposal_sample : ValidatedProposal ℕ
proposal_sample =
    proposal_of (batch_sample ∷ []) (next_header ∷ [])
      (record { config = root_config; header = next_header; block_hash = 491; state = 8 })
      (record {
        state = 8;
        transactions_root = 2;
        receipts_root = 2;
        logs_bloom = 0;
        gas_used = 42000;
        receipts = [];
        encoded_receipts = [];
        transactions = [];
        created_domains = [];
      }
        ∷ [])

abbrev idle_sample : ValidatedProposal ℕ
idle_sample = proposal_of [] [] root_domain []

proposal_sample-built :
    build_proposal keccak counting_calls genesis_view (batch_sample ∷ []) 110 8 ≡ ok proposal_sample
unfolding build_proposal sort_batches insert_batch execute execute_batches execute_domain
    domain_header_of context_of finish_proposal ensure_batch_order validate_timestamp
    validate_aggregate_gas next_base_fee batches_root domain_results_root derived_prevrandao
    encode_all merkle_collection_root collection_leaf collection_root leaves_from reduce
    encode_consensus_block put_u32 put_bytes put_all domain_heads_root heads_commitment commit_heads
    insert_created_domains DomainHeads.insert DomainHeads.new DomainHeads.root DomainHeads.entries
    DomainHeads.leaf_of DomainHeads.subtree_root DomainHeads.branch_hash DomainHeads.leaf_hash
    DomainHeads.empty_hash DomainHeads.domain_head_key DomainHeads.domain_head_value
    DomainHeads.left_part DomainHeads.right_part DomainHeads.bit DomainHeads.byte_at
    consensus_header_hash domain_header_hash hash_encoded encode_consensus_header
    encode_domain_header encode_domain_batch write_transactions write_consensus_header
    write_domain_header resolve get insert strictly_sorted to_be_bytes check_limit Encoder.tagged
    Encoder.u8 Encoder.u32 Encoder.u64 Encoder.u128 Encoder.b256 Encoder.address Encoder.bloom
    Encoder.finish Encoder.count Encoder.put_bytes
proposal_sample-built = refl

idle_sample-built : build_proposal keccak counting_calls genesis_view [] 110 8 ≡ ok idle_sample
unfolding build_proposal sort_batches insert_batch execute execute_batches execute_domain
    domain_header_of context_of finish_proposal ensure_batch_order validate_timestamp
    validate_aggregate_gas next_base_fee batches_root domain_results_root derived_prevrandao
    encode_all merkle_collection_root collection_leaf collection_root leaves_from reduce
    encode_consensus_block put_u32 put_bytes put_all domain_heads_root heads_commitment commit_heads
    insert_created_domains DomainHeads.insert DomainHeads.new DomainHeads.root DomainHeads.entries
    DomainHeads.leaf_of DomainHeads.subtree_root DomainHeads.branch_hash DomainHeads.leaf_hash
    DomainHeads.empty_hash DomainHeads.domain_head_key DomainHeads.domain_head_value
    DomainHeads.left_part DomainHeads.right_part DomainHeads.bit DomainHeads.byte_at
    consensus_header_hash domain_header_hash hash_encoded encode_consensus_header
    encode_domain_header encode_domain_batch write_transactions write_consensus_header
    write_domain_header resolve get insert strictly_sorted to_be_bytes check_limit Encoder.tagged
    Encoder.u8 Encoder.u32 Encoder.u64 Encoder.u128 Encoder.b256 Encoder.address Encoder.bloom
    Encoder.finish Encoder.count Encoder.put_bytes
idle_sample-built = refl

validate-build_proposal_example :
    validate_proposal keccak counting_calls genesis_view proposal_sample.block ≡ ok proposal_sample
validate-build_proposal_example =
    validate-build_proposal keccak counting_calls genesis_view (batch_sample ∷ []) 110 8
      proposal_sample-built

build-validate_proposal_example :
    (proposal_sample.block ≡ proposal_sample.block)
    × (build_proposal keccak counting_calls genesis_view (batch_sample ∷ []) 110 8
        ≡ ok proposal_sample)
build-validate_proposal_example =
    build-validate_proposal keccak counting_calls genesis_view proposal_sample.block (
      validate-build_proposal keccak counting_calls genesis_view (batch_sample ∷ []) 110 8
        proposal_sample-built)

build_proposal_example :
    (1 ≡ 0 + 1)
    × (100 < 110)
    × (110 ≤ 130)
    × (1 ≤ 256)
    × (strictly_sorted (4 ∷ []) ≡ true)
    × (42000 + 0 ≤ 120000000)
    × All
        (Moves keccak counting_calls genesis_view proposal_sample.resulting_state.domains 1)
        (batch_sample ∷ [])
build_proposal_example =
    build_proposal_lem keccak counting_calls genesis_view (batch_sample ∷ []) 110 8
      proposal_sample-built

build_proposal-keeps_example : get 4 idle_sample.resulting_state.domains ≡ some root_domain
unfolding get
build_proposal-keeps_example =
    build_proposal-keeps keccak counting_calls genesis_view [] 110 8 4 idle_sample-built refl refl

proposal_sample-IsConsensusBlock : IsConsensusBlock proposal_sample.block
unfolding frame to_be_bytes
proposal_sample-IsConsensusBlock = record {
  header = omega arith;
  batches = (
    (
      record {
        domain_id = omega arith;
        parent_domain_block_hash = omega arith;
        transactions = omega arith;
      },
      record { transactions = omega arith; envelopes = omega arith; whole = omega arith },
    ),
    tt,
  );
  domain_blocks = (omega arith, tt);
  counted = omega arith;
  aligned = refl;
}

decode-encode_consensus_block_example :
    ((size : ℕ) × (max_consensus_block_bytes < size)
      × (encode_consensus_block proposal_sample.block
          ≡ err (block_bytes max_consensus_block_bytes size)))
    ⊎ ((bs : List ℕ) × (encode_consensus_block proposal_sample.block ≡ ok bs)
        × (decode_consensus_block bs ≡ ok proposal_sample.block))
decode-encode_consensus_block_example =
    decode-encode_consensus_block proposal_sample.block proposal_sample-IsConsensusBlock

next_base_fee_example :
    MovesFee 1000 30000000 15000000
      (next_base_fee (record next_header { gas_used = 30000000; base_fee_per_gas = 1000 }))
    × (15000000 < 30000000
        ↔ 1000
          < next_base_fee (record next_header { gas_used = 30000000; base_fee_per_gas = 1000 }))
    × (next_base_fee (record next_header { gas_used = 30000000; base_fee_per_gas = 1000 })
        ≤ 1000 + max (1000 / 8) 1)
    × (1000
        ≤ next_base_fee (record next_header { gas_used = 30000000; base_fee_per_gas = 1000 })
          + 1000 / 8)
next_base_fee_example =
    next_base_fee_lem (record next_header { gas_used = 30000000; base_fee_per_gas = 1000 })
      (omega arith) (omega arith) (omega arith)
