-- ===== src/Chain/Progress.antt =====
-- What a proposal of crates/arbor-chain/src/lib.rs does to the finalized view: gas within the limit of
-- the block, one block for each batch behind its parent, and no other domain touched.
use arbor.Base.{
  ℕ, ◌+◌, ◌≤◌, ◌<◌, ◌≡◌, ◌≢◌, sym, subst, true, false, some, List, [], ◌∷◌, ok, length, arith, map,
  Result-cases, inl, inr, equal_or_not, All,
}
use arbor.Base.Outcome.{bind-eq_ok}
use arbor.Base.Ord.{nat_ord}
use arbor.Base.BTreeMap.{BTreeMap, get, insert as map_insert, contains_key, get-insert}
use arbor.Primitives.{Address, DomainId, DomainBlockHeader, DomainBatch}
use arbor.Executor.{ExecutionCalls, DomainExecutionResult, CreatedDomain}
use arbor.Codec.Limits.{strictly_sorted}
use arbor.Crypto.{domain_header_hash}
use arbor.Crypto.Power.{is_in, sorted-AllAbove, not_in-AllAbove}
use arbor.Chain.{
  FinalizedChainState, FinalizedDomain, ValidatedProposal, max_batches_per_block,
  max_consensus_block_gas, max_timestamp_step_seconds,
}
use arbor.Chain.Limits.{validate_timestamp-eq_ok, validate_timestamp, ensure_batch_order}
use arbor.Chain.Fee.{next_base_fee}
use arbor.Chain.Domains.{genesis_domain, config_of, insert_created_domain, insert_created_domains}
use arbor.Chain.Machine.{
  execute_domain, domain_header_of, execute_batches, execute, finish_proposal, build_proposal,
  sort_batches,
}
use arbor.Chain.Replay.{execute_batches-Round}

abbrev pub total_gas : List DomainBlockHeader → ℕ
total_gas [] = 0
total_gas (h ∷ hs) = h.gas_used + total_gas hs

abbrev pub batch_ids : List DomainBatch → List DomainId
batch_ids bs = map (λ b. b.domain_id) bs

module _ (keccak256 : List ℕ → ℕ) {S : Type 0} (calls : ExecutionCalls S) where
  -- One domain block behind the finalized head of its domain.
  pub record Extends (old new : FinalizedDomain S) (id height : ℕ) : Type 0 where
    pub config : new.config ≡ old.config
    pub domain_id : new.header.domain_id ≡ id
    pub number : new.header.number ≡ old.header.number + 1
    pub parent_hash : new.header.parent_hash ≡ old.block_hash
    pub consensus_height : new.header.consensus_height ≡ height
    pub base_fee : new.header.base_fee_per_gas ≡ next_base_fee old.header
    pub state_root : new.header.state_root ≡ calls.state_root new.state
    pub hashed : domain_header_hash keccak256 new.header ≡ ok new.block_hash

  execute_domain-Extends :
      (ph : ℕ) (d : FinalizedDomain S) (b : DomainBatch) (height t : ℕ) (p : Address) (c : _)
      {r : DomainBlockHeader × DomainExecutionResult S × FinalizedDomain S}
      → execute_domain keccak256 calls ph d b height t p c ≡ ok r
      → Extends d r.2 b.domain_id height × (r.0.gas_used ≡ r.1.gas_used) × (r.0 ≡ r.2.header)
  unfolding execute_domain domain_header_of
  execute_domain-Extends ph d b height t p c h = (
    record {
      config = ground (arith, h);
      domain_id = ground (arith, h);
      number = ground (arith, h);
      parent_hash = ground (arith, h);
      consensus_height = ground (arith, h);
      base_fee = ground (arith, h);
      state_root = ground (arith, h);
      hashed = ground (arith, h);
    },
    ground (arith, h),
    ground (arith, h),
  )

  insert_created_domain-keeps :
      (created : CreatedDomain S) (height : ℕ) (s : FinalizedChainState S)
      {s' : FinalizedChainState S} (id : DomainId) {d : FinalizedDomain S}
      → insert_created_domain keccak256 calls created height s ≡ ok s'
      → get id s.domains ≡ some d
      → get id s'.domains ≡ some d
  unfolding insert_created_domain contains_key
  insert_created_domain-keeps created height s id h k =
      let d = created.descriptor in
      elim (Result-cases
        (genesis_domain keccak256 calls d.domain_id height (config_of d) created.genesis_state)) [
          | inr (x, e) ↦ absurd (ground (arith, e, h))
          | inl (domain, e) ↦ elim (equal_or_not id d.domain_id) [
            | inl same_id ↦ absurd (ground (arith, h, rw same_id at k))
            | inr other ↦ ground (arith, e, h, k, other, get-insert id d.domain_id domain s.domains)
          ]
        ]

  insert_created_domains-keeps :
      (created : List (CreatedDomain S)) (height : ℕ) (s : FinalizedChainState S)
      {s' : FinalizedChainState S} (id : DomainId) {d : FinalizedDomain S}
      → insert_created_domains keccak256 calls created height s ≡ ok s'
      → get id s.domains ≡ some d
      → get id s'.domains ≡ some d
  unfolding insert_created_domains
  insert_created_domains-keeps [] height s id h k = ground (arith, h, k)
  insert_created_domains-keeps (c ∷ cs) height s id h k =
      let (next, one, more) =
        bind-eq_ok (insert_created_domain keccak256 calls c height s)
          (λ next. insert_created_domains keccak256 calls cs height next) h in
      insert_created_domains-keeps cs height next id more
        (insert_created_domain-keeps c height s id one k)

  total_gas-le :
      (parent : FinalizedChainState S) (height t : ℕ) (p : Address) (bs : List DomainBatch)
      (state : FinalizedChainState S) (gas : ℕ)
      {r : FinalizedChainState S × List DomainBlockHeader × List (DomainExecutionResult S)}
      → execute_batches keccak256 calls parent height t p bs state gas ≡ ok r
      → gas ≤ max_consensus_block_gas
      → gas + total_gas r.1 ≤ max_consensus_block_gas
  unfolding execute_batches
  total_gas-le parent height t p [] state gas h g = ground (arith, h, g)
  total_gas-le parent height t p (b ∷ bs) state gas h g =
      let k = execute_batches-Round keccak256 calls parent height t p b bs state gas h in
      let below =
        total_gas-le parent height t p bs k.created (gas + k.result.gas_used) k.continued
          k.bounded in
      let (_, used, _) =
        execute_domain-Extends parent.consensus_hash k.finalized b height t p _ k.executed in
      rw k.returned (omega (arith, below, used))

  -- A domain without a batch keeps the head that the view has for it.
  batches_keep :
      (parent : FinalizedChainState S) (height t : ℕ) (p : Address) (bs : List DomainBatch)
      (state : FinalizedChainState S) (gas : ℕ)
      {r : FinalizedChainState S × List DomainBlockHeader × List (DomainExecutionResult S)}
      (id : DomainId) {d : FinalizedDomain S}
      → execute_batches keccak256 calls parent height t p bs state gas ≡ ok r
      → is_in (batch_ids bs) id ≡ false
      → get id state.domains ≡ some d
      → get id r.0.domains ≡ some d
  unfolding execute_batches
  batches_keep parent height t p [] state gas id h n g = ground (arith, h, g)
  batches_keep parent height t p (b ∷ bs) state gas id h n g =
      let k = execute_batches-Round keccak256 calls parent height t p b bs state gas h in
      let other : b.domain_id ≢ id = ground (arith, n) in
      let rest : is_in (batch_ids bs) id ≡ false = ground (arith, n) in
      let kept : get id (map_insert b.domain_id k.domain state.domains) ≡ some _ =
        ground (arith, other, g, get-insert id b.domain_id k.domain state.domains) in
      rw k.returned (
        batches_keep parent height t p bs k.created (gas + k.result.gas_used) id k.continued rest
          (insert_created_domains-keeps k.result.created_domains height _ id k.inserted kept))

  -- A batch moves its domain from the parent's head to one block behind it.
  abbrev pub Moves :
      FinalizedChainState S → BTreeMap DomainId (FinalizedDomain S) → ℕ → DomainBatch → Type 0
  Moves parent domains height b =
      (old : FinalizedDomain S) × (new : FinalizedDomain S) × (get b.domain_id parent.domains
        ≡ some old)
      × (get b.domain_id domains ≡ some new)
      × (b.parent_domain_block_hash ≡ old.block_hash)
      × Extends old new b.domain_id height

  batches_move :
      (parent : FinalizedChainState S) (height t : ℕ) (p : Address) (bs : List DomainBatch)
      (state : FinalizedChainState S) (gas : ℕ)
      {r : FinalizedChainState S × List DomainBlockHeader × List (DomainExecutionResult S)}
      → execute_batches keccak256 calls parent height t p bs state gas ≡ ok r
      → strictly_sorted (batch_ids bs) ≡ true
      → All (Moves parent r.0.domains height) bs
  batches_move parent height t p [] state gas h o = tt
  batches_move parent height t p (b ∷ bs) state gas {r} h o =
      let k = execute_batches-Round keccak256 calls parent height t p b bs state gas h in
      let (above, rest) = sorted-AllAbove b.domain_id (batch_ids bs) o in
      let (extends, _, _) =
        execute_domain-Extends parent.consensus_hash k.finalized b height t p _ k.executed in
      let written : get b.domain_id (map_insert b.domain_id k.domain state.domains)
          ≡ some k.domain =
        ground (arith, get-insert b.domain_id b.domain_id k.domain state.domains) in
      let kept =
        batches_keep parent height t p bs k.created (gas + k.result.gas_used) b.domain_id
          k.continued (not_in-AllAbove b.domain_id (batch_ids bs) above)
          (insert_created_domains-keeps k.result.created_domains height _ b.domain_id k.inserted
            written) in
      let tail =
        batches_move parent height t p bs k.created (gas + k.result.gas_used) k.continued rest in
      let end : k.rest.0.domains ≡ r.0.domains = ground (arith, k.returned) in
      (
        (k.finalized, k.domain, k.found, rw k.returned kept, k.extends, extends),
        subst (λ m. All (Moves parent m height) bs) end tail,
      )

  -- A proposal that was built: its height is the next one, its time is later than its parent's by at
  -- most 30 seconds, it has at most 256 batches in ascending order of domains, and its domain blocks
  -- use at most 120 million gas together. Each batch moves its domain from the head that the parent
  -- has to one block behind it, under the same configuration and the next base fee.
  pub build_proposal_lem :
      (parent : FinalizedChainState S) (bs : List DomainBatch) (t : ℕ) (p : Address)
      {v : ValidatedProposal S}
      → build_proposal keccak256 calls parent bs t p ≡ ok v
      → (v.resulting_state.height ≡ parent.height + 1)
        × (parent.timestamp < v.resulting_state.timestamp)
        × (v.resulting_state.timestamp ≤ parent.timestamp + max_timestamp_step_seconds)
        × (length v.block.batches ≤ max_batches_per_block)
        × (strictly_sorted (batch_ids v.block.batches) ≡ true)
        × (total_gas v.block.domain_blocks ≤ max_consensus_block_gas)
        × All (Moves parent v.resulting_state.domains (parent.height + 1)) v.block.batches
  unfolding build_proposal execute finish_proposal ensure_batch_order
  build_proposal_lem parent bs t p {v} h =
      elim (Result-cases (
        execute_batches keccak256 calls parent (parent.height + 1) t p (sort_batches bs) parent
          0)) [
            | inr (x, e) ↦ absurd (ground (arith, e, h))
            | inl (r, e) ↦
                let timed : validate_timestamp parent.timestamp t ≡ ok tt = ground (arith, h) in
                let window = validate_timestamp-eq_ok parent.timestamp t timed in
                let stamped : v.resulting_state.timestamp ≡ t = ground (arith, e, h) in
                let batches : v.block.batches ≡ sort_batches bs = ground (arith, e, h) in
                let blocks : v.block.domain_blocks ≡ r.1 = ground (arith, e, h) in
                let domains : v.resulting_state.domains ≡ r.0.domains = ground (arith, e, h) in
                let ordered : strictly_sorted (batch_ids (sort_batches bs)) ≡ true =
                  ground (arith, h) in
                let gas =
                  total_gas-le parent (parent.height + 1) t p (sort_batches bs) parent 0 e
                    (omega arith) in
                (
                  ground (arith, e, h),
                  omega (arith, stamped, window),
                  omega (arith, stamped, window),
                  rw batches (ground (arith, h)),
                  rw batches ordered,
                  rw blocks (omega (arith, gas)),
                  rw batches (
                      subst (λ m. All (Moves parent m (parent.height + 1)) (sort_batches bs))
                        (sym domains)
                        (batches_move parent (parent.height + 1) t p (sort_batches bs) parent 0 e
                          ordered)),
                )
          ]

  -- A domain of the parent without a batch in the proposal keeps its head, its state and all else.
  pub build_proposal-keeps :
      (parent : FinalizedChainState S) (bs : List DomainBatch) (t : ℕ) (p : Address)
      {v : ValidatedProposal S} (id : DomainId) {d : FinalizedDomain S}
      → build_proposal keccak256 calls parent bs t p ≡ ok v
      → is_in (batch_ids v.block.batches) id ≡ false
      → get id parent.domains ≡ some d
      → get id v.resulting_state.domains ≡ some d
  unfolding build_proposal execute finish_proposal
  build_proposal-keeps parent bs t p {v} id h n g =
      elim (Result-cases (
        execute_batches keccak256 calls parent (parent.height + 1) t p (sort_batches bs) parent
          0)) [
            | inr (x, e) ↦ absurd (ground (arith, e, h))
            | inl (r, e) ↦
                let batches : v.block.batches ≡ sort_batches bs = ground (arith, e, h) in
                let domains : v.resulting_state.domains ≡ r.0.domains = ground (arith, e, h) in
                rw domains (
                  batches_keep parent (parent.height + 1) t p (sort_batches bs) parent 0 id e
                    (rw batches at n) g)
          ]
