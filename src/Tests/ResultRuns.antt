-- ===== src/Tests/ResultRuns.antt =====
-- The proof of a domain result among three, hashed by the length of what is hashed.
use arbor.Base.{ℕ, ◌≡◌, ◌≢◌, ◌⊎◌, All, refl, none, some, List, [], ◌∷◌, ok, length, arith}
use arbor.Base.Bytes.{to_be_bytes}
use arbor.Primitives.{DomainBlockHeader}
use arbor.Codec.Limits.{check_limit}
use arbor.Codec.Encoder
use arbor.Codec.DomainHeader.{encode_domain_header, write_domain_header}
use arbor.Chain.{ConsensusBlock}
use arbor.Chain.Collections.{
  DomainResultProof, encode_all, position_from, nth, collection_branch, collection_leaf,
  collection_root, merkle_empty, leaves_from, next_level, reduce, merkle_collection_root,
  domain_results_root, sibling_at, path_of, domain_result_proof,
}
use arbor.Chain.Collections.Inclusion.{IsProofOf, verify-domain_result_proof}

abbrev keccak : List ℕ → ℕ
keccak bytes = length bytes

abbrev header_of : ℕ → DomainBlockHeader
header_of id = record {
  protocol_version = 1;
  domain_id = id;
  number = 1;
  parent_hash = 491;
  consensus_height = 1;
  transactions_root = 2;
  state_root = 8;
  receipts_root = 2;
  logs_bloom = 0;
  gas_limit = 30000000;
  gas_used = 42000;
  base_fee_per_gas = 875;
}

abbrev three_results : ConsensusBlock
three_results = record {
  header = record {
    protocol_version = 1;
    network_id = 1;
    height = 1;
    parent_hash = 2;
    timestamp = 110;
    batches_root = 76;
    domain_results_root = 77;
    domain_heads_root = 85;
    validator_set_hash = 3;
    next_validator_set_hash = 3;
    proposer = 8;
  };
  batches = [];
  domain_blocks = header_of 4 ∷ header_of 5 ∷ header_of 9 ∷ [];
}

abbrev proof_sample : DomainResultProof
proof_sample = record {
  root = 77;
  result = header_of 9;
  index = 2;
  count = 3;
  siblings = 44 ∷ 109 ∷ [];
}

three_results-committed :
    domain_results_root keccak three_results.domain_blocks
    ≡ ok three_results.header.domain_results_root
unfolding domain_results_root encode_all merkle_collection_root collection_leaf collection_branch
    collection_root merkle_empty leaves_from next_level reduce encode_domain_header
    write_domain_header to_be_bytes check_limit Encoder.tagged Encoder.u32 Encoder.u64 Encoder.u128
    Encoder.b256 Encoder.bloom Encoder.finish
three_results-committed = refl

proof_sample-made : domain_result_proof keccak 9 three_results ≡ ok (some proof_sample)
unfolding domain_result_proof position_from nth sibling_at path_of encode_all merkle_collection_root
    collection_leaf collection_branch collection_root merkle_empty leaves_from next_level reduce
    encode_domain_header write_domain_header to_be_bytes check_limit Encoder.tagged Encoder.u32
    Encoder.u64 Encoder.u128 Encoder.b256 Encoder.bloom Encoder.finish
proof_sample-made = refl

verify-domain_result_proof_example :
    (All (λ h. h.domain_id ≢ 9) three_results.domain_blocks
      × (domain_result_proof keccak 9 three_results ≡ ok none))
    ⊎ ((p : DomainResultProof) × (domain_result_proof keccak 9 three_results ≡ ok (some p))
        × IsProofOf keccak 9 three_results p)
verify-domain_result_proof_example =
    verify-domain_result_proof keccak 9 three_results (omega arith) three_results-committed
