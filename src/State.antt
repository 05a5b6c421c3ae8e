-- ===== src/State.antt =====
-- The authenticated state of crates/arbor-state: the errors, and the parts that are modelled.
pub mod DomainHeads
pub mod Overlay
use arbor.Base.{ℕ, String}
use arbor.Primitives.{B256}

pub data StateError : Type 0 where
  missing_node : B256 → StateError
  -- the expected and the actual hash
  node_hash_mismatch : B256 → B256 → StateError
  malformed_rlp invalid_path store proof_failed limit_exceeded : String → StateError
