-- ===== src/Chain/Replay.antt =====
-- Building and validating are inverse: a candidate that validates is what its batches build, and what
-- was built validates. `ChainMachine` of crates/arbor-chain/src/lib.rs.
use arbor.Base.{
  ℕ, ◌+◌, ◌^◌, ◌≤◌, ◌<◌, ◌≡◌, refl, sym, true, false, some, List, [], ◌∷◌, ok, length, arith, map,
  Option-cases, Result-cases, inl, inr,
}
use arbor.Primitives.{Address, DomainBlockHeader, DomainBatch, protocol_version}
use arbor.Executor.{ExecutionCalls, DomainExecutionResult}
use arbor.Base.Ord.{nat_ord}
use arbor.Base.BTreeMap.{get, insert as map_insert}
use arbor.Chain.Domains.{insert_created_domains}
use arbor.Codec.Limits.{strictly_sorted}
use arbor.Chain.{
  FinalizedChainState, FinalizedDomain, ConsensusBlock, ValidatedProposal, max_consensus_block_gas,
}
use arbor.Chain.Limits.{validate_aggregate_gas, ensure_batch_order}
use arbor.Chain.Machine.{
  any_misaligned, execute_domain, domain_header_of, execute_batches, execute, finish_proposal,
  build_proposal, validate_proposal, context_of, compare_candidate, sort_batches, insert_batch,
}
use arbor.Chain.Compare.{compare_candidate-eq, compare_candidate_self}

-- Sorting leaves a list alone that ascends already.
sort_batches_sorted :
    (bs : List DomainBatch)
    → strictly_sorted (map (λ b. b.domain_id) bs) ≡ true
    → sort_batches bs ≡ bs
unfolding sort_batches insert_batch strictly_sorted
sort_batches_sorted [] h = refl
sort_batches_sorted (b ∷ []) h = refl
sort_batches_sorted (b ∷ c ∷ cs) h =
    let ih = sort_batches_sorted (c ∷ cs) (ground (arith, h)) in rw ih (ground (arith, h))

module _ (keccak256 : List ℕ → ℕ) {S : Type 0} (calls : ExecutionCalls S) where
  execute_domain-domain_id :
      (ph : ℕ) (d : FinalizedDomain S) (b : DomainBatch) (height t : ℕ) (p : Address) (c : _)
      {r : _}
      → execute_domain keccak256 calls ph d b height t p c ≡ ok r
      → r.0.domain_id ≡ b.domain_id
  unfolding execute_domain domain_header_of
  execute_domain-domain_id ph d b height t p c h = ground (arith, h)

  -- The round of one batch that did not fail.
  pub record Round (parent : FinalizedChainState S) (height t : ℕ) (p : Address) (b : DomainBatch)
      (bs : List DomainBatch) (state : FinalizedChainState S) (gas : ℕ)
      (r : FinalizedChainState S × List DomainBlockHeader × List (DomainExecutionResult S))
      : Type 0 where
    pub finalized : FinalizedDomain S
    pub header : DomainBlockHeader
    pub result : DomainExecutionResult S
    pub domain : FinalizedDomain S
    pub created : FinalizedChainState S
    pub rest : FinalizedChainState S × List DomainBlockHeader × List (DomainExecutionResult S)
    pub found : get b.domain_id parent.domains ≡ some finalized
    pub extends : b.parent_domain_block_hash ≡ finalized.block_hash
    pub executed :
        execute_domain keccak256 calls parent.consensus_hash finalized b height t p
          (context_of keccak256 calls parent b.domain_id height)
        ≡ ok (header, result, domain)
    pub bounded : gas + result.gas_used ≤ max_consensus_block_gas
    pub inserted :
        insert_created_domains keccak256 calls result.created_domains height
          (record state { domains = map_insert b.domain_id domain state.domains })
        ≡ ok created
    pub continued :
        execute_batches keccak256 calls parent height t p bs created (gas + result.gas_used)
        ≡ ok rest
    pub returned : r ≡ (rest.0, header ∷ rest.1, result ∷ rest.2)

  pub execute_batches-Round :
      (parent : FinalizedChainState S) (height t : ℕ) (p : Address) (b : DomainBatch)
      (bs : List DomainBatch) (state : FinalizedChainState S) (gas : ℕ)
      {r : FinalizedChainState S × List DomainBlockHeader × List (DomainExecutionResult S)}
      → execute_batches keccak256 calls parent height t p (b ∷ bs) state gas ≡ ok r
      → Round parent height t p b bs state gas r
  unfolding execute_batches validate_aggregate_gas
  execute_batches-Round parent height t p b bs state gas h =
      elim (Option-cases (get b.domain_id parent.domains)) [
        | inl e ↦ absurd (ground (arith, e, h))
        | inr (d, found) ↦
            elim (Result-cases (
              execute_domain keccak256 calls parent.consensus_hash d b height t p
                (context_of keccak256 calls parent b.domain_id height))) [
                  | inr (x, e) ↦ absurd (ground (arith, e, found, h))
                  | inl ((header, result, domain), e) ↦
                      elim (Result-cases (
                        insert_created_domains keccak256 calls result.created_domains height
                          (record state {
                            domains = map_insert b.domain_id domain state.domains;
                          }))) [
                            | inr (x, f) ↦ absurd (ground (arith, e, f, found, h))
                            | inl (created, f) ↦
                                elim (Result-cases (
                                  execute_batches keccak256 calls parent height t p bs created
                                    (gas + result.gas_used))) [
                                      | inr (x, g) ↦ absurd (ground (arith, e, f, g, found, h))
                                      | inl (rest, g) ↦ record {
                                        finalized = d;
                                        header = header;
                                        result = result;
                                        domain = domain;
                                        created = created;
                                        rest = rest;
                                        found = found;
                                        extends = ground (arith, found, h);
                                        executed = e;
                                        bounded = ground (arith, e, found, h);
                                        inserted = f;
                                        continued = g;
                                        returned = ground (arith, e, f, g, found, h);
                                      }
                                    ]
                          ]
                ]
      ]

  execute_batches-aligned :
      (parent : FinalizedChainState S) (height t : ℕ) (p : Address) (bs : List DomainBatch)
      (state : FinalizedChainState S) (gas : ℕ) {r : _}
      → execute_batches keccak256 calls parent height t p bs state gas ≡ ok r
      → (length r.1 ≡ length bs) × (any_misaligned bs r.1 ≡ false)
  unfolding execute_batches any_misaligned
  execute_batches-aligned parent height t p [] state gas h = ground (arith, h)
  execute_batches-aligned parent height t p (b ∷ bs) state gas h =
      let k = execute_batches-Round parent height t p b bs state gas h in
      let below =
        execute_batches-aligned parent height t p bs k.created (gas + k.result.gas_used)
          k.continued in
      let same =
        execute_domain-domain_id parent.consensus_hash k.finalized b height t p _ k.executed in
      rw k.returned (ground (arith, below, same))

  -- What `execute` fixes in a block that it returns.
  record Executed (parent : FinalizedChainState S) (bs : List DomainBatch) (t : ℕ) (p : Address)
      (block : ConsensusBlock) : Type 0 where
    protocol : block.header.protocol_version ≡ protocol_version
    network : block.header.network_id ≡ parent.network_id
    height : block.header.height ≡ parent.height + 1
    height_fits : parent.height + 1 < 2 ^ 64
    parent_hash : block.header.parent_hash ≡ parent.consensus_hash
    timestamp : block.header.timestamp ≡ t
    proposer : block.header.proposer ≡ p
    batches : block.batches ≡ bs
    counted : length block.domain_blocks ≡ length bs
    aligned : any_misaligned bs block.domain_blocks ≡ false

  execute-Executed :
      (parent : FinalizedChainState S) (bs : List DomainBatch) (t : ℕ) (p : Address)
      {v : ValidatedProposal S}
      → execute keccak256 calls parent bs t p ≡ ok v
      → Executed parent bs t p v.block
  unfolding execute finish_proposal
  execute-Executed parent bs t p {v} h =
      elim (Result-cases
        (execute_batches keccak256 calls parent (parent.height + 1) t p bs parent 0)) [
          | inr (x, e) ↦ absurd (ground (arith, e, h))
          | inl (r, e) ↦
              let (counted, aligned) =
                execute_batches-aligned parent (parent.height + 1) t p bs parent 0 e in
              let blocks : v.block.domain_blocks ≡ r.1 = ground (arith, e, h) in
              record {
                protocol = ground (arith, h);
                network = ground (arith, h);
                height = ground (arith, h);
                height_fits = ground (arith, h);
                parent_hash = ground (arith, h);
                timestamp = ground (arith, h);
                proposer = ground (arith, h);
                batches = ground (arith, h);
                counted = rw blocks counted;
                aligned = rw blocks aligned;
              }
        ]

  -- A candidate that validates is the block that its batches build under its timestamp and proposer,
  -- and building it again gives the same proposal, state and executions included.
  pub build-validate_proposal :
      (parent : FinalizedChainState S) (candidate : ConsensusBlock) {v : ValidatedProposal S}
      → validate_proposal keccak256 calls parent candidate ≡ ok v
      → (v.block ≡ candidate)
        × (build_proposal keccak256 calls parent candidate.batches candidate.header.timestamp
              candidate.header.proposer
            ≡ ok v)
  unfolding validate_proposal build_proposal ensure_batch_order
  build-validate_proposal parent candidate {v} h =
      let executed : execute keccak256 calls parent candidate.batches candidate.header.timestamp
            candidate.header.proposer
          ≡ ok v =
        ground (arith, h) in
      let k =
        execute-Executed parent candidate.batches candidate.header.timestamp
          candidate.header.proposer executed in
      let counted : length candidate.domain_blocks ≡ length candidate.batches = ground (arith, h) in
      let compared : compare_candidate candidate v.block ≡ ok tt = ground (arith, h, executed) in
      let (headers, blocks) =
        compare_candidate-eq candidate v.block (omega (arith, counted, k.counted)) compared in
      let ordered : strictly_sorted (map (λ b. b.domain_id) candidate.batches) ≡ true =
        ground (arith, h) in
      let same : v.block ≡ candidate = λ i. record {
        header = sym headers i;
        batches = k.batches i;
        domain_blocks = sym blocks i;
      } in
      (same, rw (sort_batches_sorted candidate.batches ordered) (ground (arith, ordered, executed)))

  -- A proposal that was built validates on the same parent, with the same result.
  pub validate-build_proposal :
      (parent : FinalizedChainState S) (bs : List DomainBatch) (t : ℕ) (p : Address)
      {v : ValidatedProposal S}
      → build_proposal keccak256 calls parent bs t p ≡ ok v
      → validate_proposal keccak256 calls parent v.block ≡ ok v
  unfolding validate_proposal build_proposal ensure_batch_order
  validate-build_proposal parent bs t p {v} h =
      let executed : execute keccak256 calls parent (sort_batches bs) t p ≡ ok v =
        ground (arith, h) in
      let ordered : strictly_sorted (map (λ b. b.domain_id) (sort_batches bs)) ≡ true =
        ground (arith, h) in
      let k = execute-Executed parent (sort_batches bs) t p executed in
      rw (k.batches, k.timestamp, k.proposer)
        (ground (
          arith,
          ordered,
          executed,
          compare_candidate_self v.block,
          k.protocol,
          k.network,
          k.height,
          k.height_fits,
          k.parent_hash,
          k.counted,
          k.aligned,
        ))
