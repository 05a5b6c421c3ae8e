-- ===== src/System/Requests.antt =====
-- What `validate_request` of crates/arbor-system/src/lib.rs accepts.
use arbor.Base.{◌≡◌, ◌≢◌, ◌≤◌, ◌<◌, ◌^◌, ◌↔◌, ok, arith}
use arbor.System.{CreateChainRequest, validate_request}

-- The protocol's demands on a request.
pub record IsValidRequest (r : CreateChainRequest) : Type 0 where
  pub parent_domain_id : r.parent_domain_id ≢ 0
  pub evm_chain_id : r.evm_chain_id ≢ 0
  pub owner : r.owner ≢ 0
  pub gas_positive : r.gas_limit ≢ 0
  pub gas_bounded : r.gas_limit ≤ 30000000
  pub initial_base_fee : r.initial_base_fee < 2 ^ 64
  pub protocol_revision : r.protocol_revision ≡ 1

-- A request is accepted exactly when its parent, chain ID and owner are not zero, its gas limit is
-- between 1 and 30 million, its base fee fits 64 bits, and its revision is 1.
pub validate_request_iff :
    (r : CreateChainRequest) → (validate_request r ≡ ok tt) ↔ IsValidRequest r
unfolding validate_request
validate_request_iff r = ground arith
