-- ===== src/Chain/GasLimit.antt =====
-- The gas limits of domain blocks: crates/arbor-chain/src/lib.rs on top of crates/arbor-executor/src/lib.rs.
use arbor.Base.{
  ℕ, ◌+◌, ◌≤◌, ◌≡◌, Option, List, [], ◌∷◌, All, Result, ok, arith, Result-cases, Option-cases, inl,
  inr,
}
use arbor.Primitives.{Address, Bytes, DomainBatch, DomainBlockHeader}
use arbor.Evm.{EvmError, DomainEnv, ProtocolSpec, resolve}
use arbor.Executor.{ChainRegistryExecutionContext, DomainExecutionResult, ExecutionCalls}
use arbor.Executor.Batch.{TransactionCalls, execution_calls}
use arbor.Executor.Gas.{execute_batch_lem}
use arbor.Chain.{FinalizedDomain, FinalizedChainState, ValidatedProposal}
use arbor.Base.Checked.{checked_add}
use arbor.Chain.Fee.{next_base_fee}
use arbor.Chain.Collections.{derived_prevrandao}
use arbor.Chain.Machine.{
  execute_domain, domain_header_of, execute_batches, execute, finish_proposal, build_proposal,
  sort_batches, context_of,
}
use arbor.Chain.Replay.{execute_batches-Round}

abbrev pub IsWithinLimit : DomainBlockHeader → Type 0
IsWithinLimit h = h.gas_used ≤ h.gas_limit

module _ (keccak256 : List ℕ → ℕ) {S : Type 0} (calls : TransactionCalls S)
    (balance_of : S → Address → Result EvmError (Option ℕ))
    (storage : S → Address → ℕ → Result EvmError ℕ) where
  abbrev service : ExecutionCalls S
  service = execution_calls calls balance_of storage

  service-gas :
      (spec : ProtocolSpec) (env : DomainEnv) (state : S) (envelopes : List Bytes)
      (context : ChainRegistryExecutionContext) {r : DomainExecutionResult S}
      → service.execute_batch_with_registry spec env state envelopes context ≡ ok r
      → r.gas_used ≤ env.gas_limit
  unfolding execution_calls
  service-gas spec env state envelopes context h =
      let (_, _, limited, _, _) = execute_batch_lem calls spec env state envelopes _ h in limited

  execute_domain-IsWithinLimit :
      (ph : ℕ) (d : FinalizedDomain S) (b : DomainBatch) (height t : ℕ) (p : Address)
      (c : ChainRegistryExecutionContext)
      {r : DomainBlockHeader × DomainExecutionResult S × FinalizedDomain S}
      → execute_domain keccak256 service ph d b height t p c ≡ ok r
      → IsWithinLimit r.0
  unfolding execute_domain domain_header_of
  execute_domain-IsWithinLimit ph d b height t p c {r} h =
      elim (Option-cases (checked_add 64 d.header.number 1)) [
        | inl e ↦ absurd (ground (arith, e, h))
        | inr (number, e) ↦ elim (Result-cases (resolve d.config.protocol_revision)) [
          | inr (x, f) ↦ absurd (ground (arith, e, f, h))
          | inl (spec, f) ↦
              let env : DomainEnv = record {
                chain_id = d.config.chain_id;
                block_number = number;
                timestamp = t;
                beneficiary = p;
                gas_limit = d.config.gas_limit;
                base_fee_per_gas = next_base_fee d.header;
                prevrandao = derived_prevrandao keccak256 ph height;
              } in
              elim (Result-cases
                (service.execute_batch_with_registry spec env d.state b.transactions c)) [
                  | inr (x, g) ↦ absurd (ground (arith, e, f, g, h))
                  | inl (result, g) ↦
                      let used : r.0.gas_used ≡ result.gas_used = ground (arith, e, f, g, h) in
                      let limit : r.0.gas_limit ≡ d.config.gas_limit = ground (arith, e, f, g, h) in
                      omega (arith, used, limit, service-gas spec env d.state b.transactions c g)
                ]
        ]
      ]

  execute_batches-IsWithinLimit :
      (parent : FinalizedChainState S) (height t : ℕ) (p : Address) (bs : List DomainBatch)
      (state : FinalizedChainState S) (gas : ℕ)
      {r : FinalizedChainState S × List DomainBlockHeader × List (DomainExecutionResult S)}
      → execute_batches keccak256 service parent height t p bs state gas ≡ ok r
      → All IsWithinLimit r.1
  unfolding execute_batches
  execute_batches-IsWithinLimit parent height t p [] state gas {r} h =
      let done : r.1 ≡ [] = ground (arith, h) in rw done tt
  execute_batches-IsWithinLimit parent height t p (b ∷ bs) state gas {r} h =
      let k = execute_batches-Round keccak256 service parent height t p b bs state gas h in
      let one =
        execute_domain-IsWithinLimit parent.consensus_hash k.finalized b height t p
          (context_of keccak256 service parent b.domain_id height) k.executed in
      let more =
        execute_batches-IsWithinLimit parent height t p bs k.created (gas + k.result.gas_used)
          k.continued in
      rw k.returned (one, more)

  -- On the batch executor of this repository, every domain block of a proposal that was built uses at
  -- most the gas limit in its header.
  pub build_proposal-IsWithinLimit :
      (parent : FinalizedChainState S) (bs : List DomainBatch) (t : ℕ) (p : Address)
      {v : ValidatedProposal S}
      → build_proposal keccak256 service parent bs t p ≡ ok v
      → All IsWithinLimit v.block.domain_blocks
  unfolding build_proposal execute finish_proposal
  build_proposal-IsWithinLimit parent bs t p {v} h =
      elim (Result-cases (
        execute_batches keccak256 service parent (parent.height + 1) t p (sort_batches bs) parent
          0)) [
            | inr (x, e) ↦ absurd (ground (arith, e, h))
            | inl (r, e) ↦
                let blocks : v.block.domain_blocks ≡ r.1 = ground (arith, e, h) in
                rw blocks (
                  execute_batches-IsWithinLimit parent (parent.height + 1) t p (sort_batches bs)
                    parent 0 e)
          ]
