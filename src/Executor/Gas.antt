-- ===== src/Executor/Gas.antt =====
-- Gas and receipts of a batch, crates/arbor-executor/src/lib.rs.
use arbor.Base.{
  ℕ, suc, ◌+◌, ◌≤◌, ◌≡◌, refl, ◌∙◌, Option, List, [], ◌∷◌, map, Result, String, ok, length, arith,
  Result-cases, inl, inr,
}
use arbor.Primitives.{Bytes, Receipt}
use arbor.Evm.{DomainEnv, ProtocolSpec}
use arbor.Executor.{ChainRegistryExecutionContext, ExecutedTransaction, DomainExecutionResult}
use arbor.Executor.Batch.{
  TransactionCalls, checked_cumulative_gas, ExecutedEnvelope, execute_envelope, execute_envelopes,
  execute_batch_with_registry,
}

-- Receipts count up the gas of the transactions, one by one, and carry their status.
abbrev pub CountsUp : ℕ → List ExecutedTransaction → List Receipt → ℕ → Type 0
CountsUp gas [] [] end = gas ≡ end
CountsUp gas [] (r ∷ rs) end = ⊥
CountsUp gas (t ∷ ts) [] end = ⊥
CountsUp gas (t ∷ ts) (r ∷ rs) end =
    (r.cumulative_gas_used ≡ gas + t.gas_used)
    × (r.status ≡ t.success)
    × CountsUp r.cumulative_gas_used ts rs end

-- Each receipt encodes to the bytes beside it.
abbrev pub EncodesTo : (Receipt → Result String Bytes) → List Receipt → List Bytes → Type 0
EncodesTo encode [] [] = Unit {0}
EncodesTo encode [] (b ∷ bs) = ⊥
EncodesTo encode (r ∷ rs) [] = ⊥
EncodesTo encode (r ∷ rs) (b ∷ bs) = (encode r ≡ ok b) × EncodesTo encode rs bs

length-map : {A B : Type 0} (f : A → B) (xs : List A) → length (map f xs) ≡ length xs
length-map f [] = refl
length-map f (x ∷ xs) = omega (arith, length-map f xs)

module _ {S : Type 0} (calls : TransactionCalls S) where
  execute_envelope-gas :
      (spec : ProtocolSpec) (env : DomainEnv) (registry : Option ChainRegistryExecutionContext)
      (i : ℕ) (bytes : Bytes) (state : S) (gas : ℕ) {r : ExecutedEnvelope calls}
      → execute_envelope calls spec env registry i bytes state gas ≡ ok r
      → (r.receipt.cumulative_gas_used ≡ gas + r.executed.gas_used)
        × (r.receipt.status ≡ r.executed.success)
        × (r.gas ≡ r.receipt.cumulative_gas_used)
        × (r.gas ≤ env.gas_limit)
        × (calls.encode_receipt r.receipt ≡ ok r.encoded)
  unfolding execute_envelope checked_cumulative_gas
  execute_envelope-gas spec env registry i bytes state gas h = (
    ground (arith, h),
    ground (arith, h),
    ground (arith, h),
    ground (arith, h),
    ground (arith, h),
  )

  execute_envelopes-CountsUp :
      (spec : ProtocolSpec) (env : DomainEnv) (registry : Option ChainRegistryExecutionContext)
      (i : ℕ) (envelopes : List Bytes) (state : S) (gas bloom : ℕ)
      {r : S × ℕ × ℕ × List (ExecutedEnvelope calls)}
      → execute_envelopes calls spec env registry i envelopes state gas bloom ≡ ok r
      → gas ≤ env.gas_limit
      → CountsUp gas (map (λ x. x.executed) r.3) (map (λ x. x.receipt) r.3) r.1
        × (length r.3 ≡ length envelopes)
        × (r.1 ≤ env.gas_limit)
        × EncodesTo calls.encode_receipt (map (λ x. x.receipt) r.3) (map (λ x. x.encoded) r.3)
  unfolding execute_envelopes
  execute_envelopes-CountsUp spec env registry i [] state gas bloom {r} h g =
      let done : r ≡ (state, gas, bloom, []) = ground (arith, h) in rw done (refl, refl, g, tt)
  execute_envelopes-CountsUp spec env registry i (bytes ∷ envelopes) state gas bloom {r} h g =
      elim (Result-cases (execute_envelope calls spec env registry i bytes state gas)) [
        | inr (x, e) ↦ absurd (ground (arith, e, h))
        | inl (one, e) ↦
            elim (Result-cases (
              execute_envelopes calls spec env registry (suc i) envelopes one.state one.gas
                (calls.accrue_bloom bloom one.receipt.logs_bloom))) [
                  | inr (x, f) ↦ absurd (ground (arith, e, f, h))
                  | inl (rest, f) ↦
                      let (counted, status, carried, limited, encoded) =
                        execute_envelope-gas spec env registry i bytes state gas e in
                      let (below, as_many, end, all_encoded) =
                        execute_envelopes-CountsUp spec env registry (suc i) envelopes one.state
                          one.gas (calls.accrue_bloom bloom one.receipt.logs_bloom) f limited in
                      let done : r ≡ (rest.0, rest.1, rest.2, one ∷ rest.3) =
                        ground (arith, e, f, h) in
                      rw done (
                        (counted, status, rw carried at below),
                        omega (arith, as_many),
                        end,
                        (encoded, all_encoded),
                      )
                ]
      ]

  -- A batch that executes has a receipt and a result for each envelope. The receipts count up the gas of
  -- the results, one by one, from zero to the gas of the batch, and carry their status; that gas is
  -- within the gas limit of the block; and the encoded receipts are the encodings of the receipts, one
  -- by one, which the receipts root commits to.
  pub execute_batch_lem :
      (spec : ProtocolSpec) (env : DomainEnv) (parent : S) (envelopes : List Bytes)
      (registry : Option ChainRegistryExecutionContext) {r : DomainExecutionResult S}
      → execute_batch_with_registry calls spec env parent envelopes registry ≡ ok r
      → CountsUp 0 r.transactions r.receipts r.gas_used
        × (length r.transactions ≡ length envelopes)
        × (r.gas_used ≤ env.gas_limit)
        × EncodesTo calls.encode_receipt r.receipts r.encoded_receipts
        × (r.receipts_root ≡ calls.ordered_trie_root r.encoded_receipts)
  unfolding execute_batch_with_registry
  execute_batch_lem spec env parent envelopes registry {r} h =
      elim (Result-cases (execute_envelopes calls spec env registry 0 envelopes parent 0 0)) [
        | inr (x, e) ↦ absurd (ground (arith, e, h))
        | inl (out, e) ↦
            let (counted, as_many, limited, all_encoded) =
              execute_envelopes-CountsUp spec env registry 0 envelopes parent 0 0 e (omega arith) in
            let used : r.gas_used ≡ out.1 = ground (arith, e, h) in
            let results : r.transactions ≡ map (λ x. x.executed) out.3 = ground (arith, e, h) in
            let receipts : r.receipts ≡ map (λ x. x.receipt) out.3 = ground (arith, e, h) in
            let encoded : r.encoded_receipts ≡ map (λ x. x.encoded) out.3 = ground (arith, e, h) in
            (
              rw (used, results, receipts) counted,
              rw results (length-map (λ x. x.executed) out.3 ∙ as_many),
              rw used limited,
              rw (receipts, encoded) all_encoded,
              ground (arith, e, h),
            )
      ]
