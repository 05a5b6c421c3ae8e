-- ===== src/Chain/Checkpoint/Authentic.antt =====
-- What an accepted checkpoint guarantees: `FinalizedChainState::from_checkpoint` of
-- crates/arbor-chain/src/lib.rs.
use arbor.Base.{
  ℕ, ◌≡◌, ◌≤◌, refl, true, false, some, List, [], ◌∷◌, map, All, ok, arith, Result-cases,
  Option-cases, inl, inr,
}
use arbor.Base.Ord.{nat_ord}
use arbor.Base.BTreeMap.{BTreeMap, get, contains_key, insert as map_insert}
use arbor.Base.BTreeMap.Keys.{Every}
use arbor.Primitives.{DomainId, NetworkId, DomainDescriptor}
use arbor.Codec.DomainDescriptor.{encode_domain_descriptor}
use arbor.Crypto.{domain_header_hash}
use arbor.System.Slots.{chain_registry_address, descriptor_slot}
use arbor.Executor.{ExecutionCalls}
use arbor.Chain.{
  FinalizedDomain, FinalizedChainState, FinalizedDomainCheckpoint, FinalizedChainCheckpoint,
}
use arbor.Chain.Limits.{validate_config}
use arbor.Chain.Domains.{contains, genealogy}
use arbor.Chain.Checkpoint.{
  insert_descriptor, check_entry, check_genealogies, reconstruct_checkpoint_domains,
  validate_checkpoint_descriptors, domain_of, from_checkpoint, state_of,
}

abbrev pub Distinct : List ℕ → Type 0
Distinct [] = Unit
Distinct (x ∷ xs) = (contains x xs ≡ false) × Distinct xs

abbrev pub chain_ids_of : {S : Type 0} → List (FinalizedDomainCheckpoint S) → List ℕ
chain_ids_of es = map (λ e. e.config.chain_id) es

module _ (keccak256 : List ℕ → ℕ) {S : Type 0} (calls : ExecutionCalls S) where
  -- An entry whose configuration is valid, whose header is of its domain, state and gas limit and not
  -- later than the checkpoint, and whose hash is the header's.
  pub record IsChecked (height : ℕ) (e : FinalizedDomainCheckpoint S) : Type 0 where
    pub config : validate_config e.config ≡ ok tt
    pub domain_id : e.header.domain_id ≡ e.domain_id
    pub state_root : e.header.state_root ≡ calls.state_root e.state
    pub not_later : e.header.consensus_height ≤ height
    pub gas_limit : e.header.gas_limit ≡ e.config.gas_limit
    pub hashed : domain_header_hash keccak256 e.header ≡ ok e.block_hash

  -- A descriptor of a domain that the root's registry commits to, on a parent that is there.
  abbrev pub IsCommitted :
      S → BTreeMap DomainId (FinalizedDomain S) → DomainId → DomainDescriptor → Type 0
  IsCommitted state domains id d =
      (bytes : List ℕ) × (encode_domain_descriptor d ≡ ok bytes)
      × (calls.storage state chain_registry_address (descriptor_slot keccak256 id)
          ≡ ok (keccak256 bytes))
      × (contains_key d.parent_domain_id domains ≡ true)

  check_entry-IsChecked :
      (height : ℕ) (e : FinalizedDomainCheckpoint S) (ids : List ℕ)
      → check_entry keccak256 calls height e ids ≡ ok tt
      → IsChecked height e × (contains e.config.chain_id ids ≡ false)
  unfolding check_entry
  check_entry-IsChecked height e ids h = (
    record {
      config = ground (arith, h);
      domain_id = ground (arith, h);
      state_root = ground (arith, h);
      not_later = ground (arith, h);
      gas_limit = ground (arith, h);
      hashed = ground (arith, h);
    },
    ground (arith, h),
  )

  -- IDs that none of a longer list contains differ from its first.
  apart :
      (x : ℕ) (ids : List ℕ) (es : List (FinalizedDomainCheckpoint S))
      → All (λ e. contains e.config.chain_id (x ∷ ids) ≡ false) es
      → (contains x (chain_ids_of es) ≡ false)
        × All (λ e. contains e.config.chain_id ids ≡ false) es
  apart x ids [] h = (refl, tt)
  apart x ids (e ∷ es) h =
      let (rest, more) = apart x ids es h.1 in
      (ground (arith, h.0, rest), (ground (arith, h.0), more))

  reconstruct-IsChecked :
      (n : NetworkId) (r : DomainId) (height : ℕ) (es : List (FinalizedDomainCheckpoint S))
      (domains : BTreeMap DomainId (FinalizedDomain S))
      (descriptors : BTreeMap DomainId DomainDescriptor) (ids : List ℕ)
      {out : BTreeMap DomainId (FinalizedDomain S) × BTreeMap DomainId DomainDescriptor}
      → reconstruct_checkpoint_domains keccak256 calls n r height es domains descriptors ids
        ≡ ok out
      → All (IsChecked height) es
        × Distinct (chain_ids_of es)
        × All (λ e. contains e.config.chain_id ids ≡ false) es
  unfolding reconstruct_checkpoint_domains
  reconstruct-IsChecked n r height [] domains descriptors ids h = (tt, tt, tt)
  reconstruct-IsChecked n r height (e ∷ es) domains descriptors ids {out} h =
      elim (Result-cases (insert_descriptor keccak256 n r e descriptors)) [
        | inr (x, f) ↦ absurd (ground (arith, f, h))
        | inl (next, f) ↦
            let checked : check_entry keccak256 calls height e ids ≡ ok tt = ground (arith, h) in
            let more : reconstruct_checkpoint_domains keccak256 calls n r height es
                  (map_insert e.domain_id (domain_of e) domains) next (e.config.chain_id ∷ ids)
                ≡ ok out =
              ground (arith, f, h) in
            let (each, distinct, new) =
              reconstruct-IsChecked n r height es (map_insert e.domain_id (domain_of e) domains)
                next (e.config.chain_id ∷ ids) more in
            let (good, fresh) = check_entry-IsChecked height e ids checked in
            let (first, rest) = apart e.config.chain_id ids es new in
            ((good, each), (first, distinct), (fresh, rest))
      ]

  validate-IsCommitted :
      (root : FinalizedDomain S) (domains : BTreeMap DomainId (FinalizedDomain S))
      (descriptors : BTreeMap DomainId DomainDescriptor)
      → validate_checkpoint_descriptors keccak256 calls root domains descriptors ≡ ok tt
      → Every (IsCommitted root.state domains) descriptors
  unfolding validate_checkpoint_descriptors
  validate-IsCommitted root domains [] h = tt
  validate-IsCommitted root domains ((id, d) ∷ descriptors) h =
      elim (Result-cases (encode_domain_descriptor d)) [
        | inr (x, f) ↦ absurd (ground (arith, f, h))
        | inl (bytes, f) ↦ (
          (bytes, f, ground (arith, f, h), ground (arith, f, h)),
          validate-IsCommitted root domains descriptors (ground (arith, f, h)),
        )
      ]

  check_genealogies-Every :
      (s : FinalizedChainState S) (descriptors : BTreeMap DomainId DomainDescriptor)
      → check_genealogies s descriptors ≡ ok tt
      → Every (λ id d. (path : List DomainId) × (genealogy id s ≡ ok path)) descriptors
  unfolding check_genealogies
  check_genealogies-Every s [] h = tt
  check_genealogies-Every s ((id, d) ∷ descriptors) h = elim (Result-cases (genealogy id s)) [
    | inr (x, f) ↦ absurd (ground (arith, f, h))
    | inl (path, f) ↦ ((path, f), check_genealogies-Every s descriptors (ground (arith, f, h)))
  ]

  -- If a checkpoint is accepted, then the header of each of its domains has the hash, the state root and
  -- the gas limit of its entry and is not later than the checkpoint; the chain IDs are distinct; and
  -- every descriptor of the restored view is committed in the storage of the root domain, has a parent
  -- in the view, and a genealogy.
  pub from_checkpoint-IsChecked :
      (c : FinalizedChainCheckpoint S) {s : FinalizedChainState S}
      → from_checkpoint keccak256 calls c ≡ ok s
      → All (IsChecked c.height) c.domains
        × Distinct (chain_ids_of c.domains)
        × ((root : FinalizedDomain S) × (get s.root_domain_id s.domains ≡ some root)
            × Every (IsCommitted root.state s.domains) s.descriptors)
        × Every (λ id d. (path : List DomainId) × (genealogy id s ≡ ok path)) s.descriptors
  unfolding from_checkpoint state_of
  from_checkpoint-IsChecked c {s} h =
      elim (Result-cases (
        reconstruct_checkpoint_domains keccak256 calls c.network_id c.root_domain_id c.height
          c.domains [] [] [])) [
            | inr (x, f) ↦ absurd (ground (arith, f, h))
            | inl (out, f) ↦ elim (Option-cases (get c.root_domain_id out.0)) [
              | inl g ↦ absurd (ground (arith, f, g, h))
              | inr (root, g) ↦
                  let (each, distinct, _) =
                    reconstruct-IsChecked c.network_id c.root_domain_id c.height c.domains [] [] []
                      f in
                  let valid : validate_checkpoint_descriptors keccak256 calls root out.0 out.1
                      ≡ ok tt =
                    ground (arith, f, g, h) in
                  let walked : check_genealogies (state_of keccak256 calls c out.0 out.1) out.1
                      ≡ ok tt =
                    ground (arith, f, g, h) in
                  let same : state_of keccak256 calls c out.0 out.1 ≡ s = ground (arith, f, g, h) in
                  (
                    each,
                    distinct,
                    rw (← same) (root, g, validate-IsCommitted root out.0 out.1 valid),
                    rw (← same) (
                        check_genealogies-Every (state_of keccak256 calls c out.0 out.1) out.1
                          walked),
                  )
            ]
          ]
