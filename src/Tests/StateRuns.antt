-- ===== src/Tests/StateRuns.antt =====
-- Domain heads and overlays at concrete data: the theorems are applied, and the operations run.
use arbor.Base.{
  ℕ, zero, suc, ◌+◌, ◌%◌, ◌^◌, ◌<◌, ◌≡◌, ◌⊎◌, refl, none, some, List, [], ◌∷◌, All, replicate,
  Result, ok, err, length, ◌==◌, if◌then◌else◌, arith,
}
use arbor.Base.Bytes.{to_be_bytes, from_be, from_be_bytes}
use arbor.Base.Ord.{same, nat_ord}
use arbor.Base.BTreeMap.{BTreeMap, get, insert as map_insert}
use arbor.Base.BTreeMap.Order.{IsOrdered}
use arbor.Primitives.{Bytes, IsWord}
use arbor.State.{StateError, malformed_rlp}
use arbor.State.DomainHeads
use arbor.State.DomainHeads.{
  DomainHead, DomainHeadProof, DomainHeadsCommitment, domain_head_key, fold_path, start_hash,
  verify, proof,
}
use arbor.State.DomainHeads.Complete.{IsKeyed, verify-proof, insert_lem, remove_lem}
use arbor.State.DomainHeads.Binding.{
  Collision, path_inputs, start_inputs, IsDomainHeadProof, verify_binding,
}
use arbor.State.Overlay
use arbor.State.Overlay.{
  TrieSnapshot, StateCalls, StateOverlay, IsOverlay, secure_leaf, set_account, account, commit,
  discard, commit_lem, commit-eq, set_account_lem,
}

-- A hash for the examples: the last 32 bytes.
abbrev last_bytes : List ℕ → ℕ
last_bytes bs = from_be_bytes bs % 2 ^ 256

last_bytes-lt : (bs : List ℕ) → last_bytes bs < 2 ^ 256
last_bytes-lt bs = omega arith

abbrev head : DomainHead
head = record { domain_block_hash = 8; state_root = 9 }

abbrev one_head : DomainHeadsCommitment
one_head = record { heads = (3, (3, head)) ∷ [] }

one_head-inserted : DomainHeads.insert last_bytes 3 head DomainHeads.new ≡ one_head
unfolding DomainHeads.insert DomainHeads.new map_insert domain_head_key from_be_bytes from_be
    to_be_bytes
one_head-inserted = refl

one_head-IsKeyed : IsKeyed last_bytes one_head
unfolding domain_head_key from_be_bytes from_be to_be_bytes
one_head-IsKeyed = record { ordered = (tt, tt); keyed = (refl, tt) }

verify-proof_example : verify last_bytes (proof last_bytes 4 one_head) ≡ ok tt
verify-proof_example = verify-proof last_bytes last_bytes-lt 4 one_head-IsKeyed

DomainHeads_insert_example :
    IsKeyed last_bytes (DomainHeads.insert last_bytes 4 head one_head)
    × ((j : ℕ)
        → (proof last_bytes j (DomainHeads.insert last_bytes 4 head one_head)).value ≡ (
            if same (domain_head_key last_bytes j) (domain_head_key last_bytes 4)
            then some head
            else (proof last_bytes j one_head).value))
DomainHeads_insert_example = insert_lem last_bytes 4 head one_head-IsKeyed

DomainHeads_remove_example :
    let (c', answer) = DomainHeads.remove last_bytes 3 one_head in
    IsKeyed last_bytes c'
    × (answer ≡ (proof last_bytes 3 one_head).value)
    × ((j : ℕ)
        → (proof last_bytes j c').value ≡ (
            if same (domain_head_key last_bytes j) (domain_head_key last_bytes 3)
            then none
            else (proof last_bytes j one_head).value))
DomainHeads_remove_example = remove_lem last_bytes 3 one_head-IsKeyed

-- A path of zero siblings, with the root that it leads to.
abbrev built_proof : DomainHeadProof
built_proof = record {
  root =
      fold_path last_bytes (domain_head_key last_bytes 3) (replicate 256 0)
        (start_hash last_bytes (domain_head_key last_bytes 3) (some head));
  domain_id = 3;
  value = some head;
  siblings = replicate 256 0;
}

built_proof-verifies : verify last_bytes built_proof ≡ ok tt
unfolding verify
built_proof-verifies = ground arith

zeros-IsWord : (n : ℕ) → All (IsWord 32) (replicate n 0)
zeros-IsWord zero = tt
zeros-IsWord (suc n) = (omega arith, zeros-IsWord n)

built_proof-IsDomainHeadProof : IsDomainHeadProof built_proof
built_proof-IsDomainHeadProof = record {
  value = record { domain_block_hash = omega arith; state_root = omega arith };
  siblings = zeros-IsWord 256;
}

verify_binding_example :
    let key = domain_head_key last_bytes 3 in
    let start = start_hash last_bytes key built_proof.value in
    Collision last_bytes
      (path_inputs last_bytes key built_proof.siblings start)
      (path_inputs last_bytes key built_proof.siblings start)
    ⊎ (Collision last_bytes
          (start_inputs last_bytes key built_proof.value)
          (start_inputs last_bytes key built_proof.value)
        ⊎ (built_proof.value ≡ built_proof.value))
verify_binding_example =
    verify_binding last_bytes last_bytes-lt built_proof built_proof built_proof-IsDomainHeadProof
      built_proof-IsDomainHeadProof built_proof-verifies built_proof-verifies refl refl

-- An account is a number in the overlay's examples.
abbrev decode_number : Bytes → Result StateError ℕ
decode_number (x ∷ []) = ok x
decode_number _ = err (malformed_rlp "account field layout")

abbrev calls : StateCalls ℕ
calls = record {
  secure_account_key = λ address. address + 1000;
  is_empty = λ x. x == 0;
  encode_account = λ x. x ∷ [];
  decode_account = decode_number;
  build = λ leaves. ok (record { root = length leaves; nodes = []; leaves = leaves });
}

abbrev first_order : StateOverlay
first_order = record { base = []; writes = (1001, some (5 ∷ [])) ∷ (1002, some (6 ∷ [])) ∷ [] }

abbrev flushed : StateOverlay
flushed = record { base = (1001, 5 ∷ []) ∷ (1002, 6 ∷ []) ∷ []; writes = [] }

first_order-written : set_account calls 1 5 (set_account calls 2 6 (Overlay.new [])) ≡ first_order
unfolding set_account Overlay.new map_insert
first_order-written = refl

first_order-IsOverlay : IsOverlay first_order
first_order-IsOverlay = record { base = tt; writes = ((refl, tt), (tt, tt)) }

flushed-IsOverlay : IsOverlay flushed
flushed-IsOverlay = record { base = ((refl, tt), (tt, tt)); writes = tt }

same_view : (key : ℕ) → secure_leaf key first_order ≡ secure_leaf key flushed
unfolding secure_leaf get
same_view key = ground arith

commit_example :
    (leaves : BTreeMap ℕ Bytes) × (commit calls first_order ≡ calls.build leaves)
    × IsOrdered leaves
    × ((key : ℕ) → get key leaves ≡ secure_leaf key first_order)
commit_example = commit_lem calls first_order-IsOverlay

commit-eq_example : commit calls first_order ≡ commit calls flushed
commit-eq_example = commit-eq calls first_order-IsOverlay flushed-IsOverlay same_view

set_account_example :
    IsOverlay (set_account calls 1 7 first_order)
    × (account calls 1 (set_account calls 1 7 first_order) ≡ ok (if 7 == 0 then none else some 7))
    × ((key : ℕ)
        → secure_leaf key (set_account calls 1 7 first_order) ≡ (
            if same key 1001
            then (if 7 == 0 then none else some (7 ∷ []))
            else secure_leaf key first_order))
    × (discard (set_account calls 1 7 first_order) ≡ discard first_order)
set_account_example = set_account_lem calls (λ x. refl) 1 7 first_order-IsOverlay
