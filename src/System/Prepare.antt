-- ===== src/System/Prepare.antt =====
-- When `prepare_chain_creation` of crates/arbor-system/src/lib.rs succeeds.
use arbor.Base.{ℕ, length, ◌+◌, ◌^◌, ◌≤◌, ◌<◌, ◌≡◌, ◌↔◌, List, Result-cases, inl, inr, ok, arith}
use arbor.Codec.DomainGenesis.{encode_domain_genesis_total}
use arbor.Codec.DomainDescriptor.{encode_domain_descriptor_total}
use arbor.Crypto.{derive_domain_id, domain_genesis_hash, hash_encoded}
use arbor.Primitives.{B256, NetworkId}
use arbor.System.{CreateChainRequest, PreparedChainCreation, validate_request}
use arbor.System.Requests.{IsValidRequest, validate_request_iff}
use arbor.System.Names.{
  normalize_name, normalize_symbol, length-normalize_name, length-normalize_symbol,
}
use arbor.System.Creation.{
  normalize_request, genesis_of, descriptor_of, prepare_chain_creation, min_creation_deposit,
  creation_deposit_lock_blocks,
}

pub normalize_request_lem :
    (given : CreateChainRequest) {request : CreateChainRequest}
    → normalize_request given ≡ ok request
    → (length request.name ≤ 64) × (length request.symbol ≤ 16) × IsValidRequest request
unfolding normalize_request
normalize_request_lem given {request} h = elim (Result-cases (normalize_name given.name)) [
  | inr (x, e) ↦ absurd (ground (arith, e, h))
  | inl (name, e) ↦ elim (Result-cases (normalize_symbol given.symbol)) [
    | inr (x, f) ↦ absurd (ground (arith, e, f, h))
    | inl (symbol, f) ↦
        let normalized : CreateChainRequest = record given { name = name; symbol = symbol } in
        elim (Result-cases (validate_request normalized)) [
          | inr (x, g) ↦ absurd (ground (arith, e, f, g, h))
          | inl (_, g) ↦
              let same : request ≡ normalized = ground (arith, e, f, g, h) in
              rw same (
                length-normalize_name given.name e,
                length-normalize_symbol given.symbol f,
                (validate_request_iff normalized).0 g,
              )
        ]
  ]
]

module _ (keccak256 : List ℕ → B256) (given : CreateChainRequest) (network_id : NetworkId)
    (create_tx_hash joint initial_state_root : B256) (deposit height : ℕ) where
  abbrev Prepared : PreparedChainCreation → Type 0
  Prepared p =
      prepare_chain_creation keccak256 given network_id create_tx_hash joint initial_state_root
        deposit height
      ≡ ok p

  prepare_chain_creation_total :
      {request : CreateChainRequest}
      → normalize_request given ≡ ok request
      → min_creation_deposit ≤ deposit
      → height + creation_deposit_lock_blocks < 2 ^ 64
      → (p : PreparedChainCreation) × Prepared p
  unfolding prepare_chain_creation genesis_of descriptor_of domain_genesis_hash hash_encoded
  prepare_chain_creation_total {request} h paid low =
      let (name_fits, symbol_fits, valid) = normalize_request_lem given h in
      let id = derive_domain_id keccak256 network_id request.parent_domain_id create_tx_hash in
      let (genesis, e) =
        encode_domain_genesis_total (genesis_of request id create_tx_hash joint initial_state_root)
          name_fits symbol_fits valid.evm_chain_id in
      let descriptor = descriptor_of request id create_tx_hash joint (keccak256 genesis) deposit in
      let (bytes, f) =
        encode_domain_descriptor_total descriptor name_fits symbol_fits valid.evm_chain_id in
      (
        record {
          request = request;
          descriptor = descriptor;
          descriptor_hash = keccak256 bytes;
          creation_height = height;
          deposit_unlock_height = height + creation_deposit_lock_blocks;
        },
        ground (arith, h, e, f, paid, low),
      )

  prepare_chain_creation-needs :
      {p : PreparedChainCreation}
      → Prepared p
      → (request : CreateChainRequest) × (normalize_request given ≡ ok request)
        × (min_creation_deposit ≤ deposit)
        × (height + creation_deposit_lock_blocks < 2 ^ 64)
  unfolding prepare_chain_creation
  prepare_chain_creation-needs {p} h = elim (Result-cases (normalize_request given)) [
    | inr (x, e) ↦ absurd (ground (arith, e, h))
    | inl (request, e) ↦ (request, e, ground (arith, e, h), ground (arith, e, h))
  ]

  -- A chain is prepared exactly when the request normalizes to a valid one, the deposit is at least the
  -- minimum of 10^18, and the height leaves room for the lock of 100 blocks in 64 bits. In particular
  -- the genesis and the descriptor of such a request always encode.
  pub prepare_chain_creation_iff :
      ((p : PreparedChainCreation) × (prepare_chain_creation keccak256 given network_id
            create_tx_hash joint initial_state_root deposit height
          ≡ ok p))
      ↔ ((request : CreateChainRequest) × (normalize_request given ≡ ok request)
          × (min_creation_deposit ≤ deposit)
          × (height + creation_deposit_lock_blocks < 2 ^ 64))
  prepare_chain_creation_iff = (
    (λ (p, h). prepare_chain_creation-needs h),
    (λ (request, h, paid, low). prepare_chain_creation_total h paid low),
  )
