-- ===== src/System/Calls.antt =====
-- The deposit calls of the chain registry, crates/arbor-system/src/lib.rs. The hash is the parameter
-- `keccak256`; of a digest the selector is the first four bytes.
use arbor.Base.{Option, none, some, ◌++◌, take, drop, length, ◌&&◌, ◌==◌, if◌then◌else◌}
use arbor.Base.Bytes.{to_be_bytes, from_be_bytes}
use arbor.Codec.Limits.{ascii}
use arbor.Codec.Decoder.{same_bytes}
use arbor.Primitives.{B256, Bytes, DomainId}

abbrev pub refund_deposit_abi_signature : Bytes
refund_deposit_abi_signature = ascii "refundDeposit(bytes32)"

abbrev pub burn_deposit_abi_signature : Bytes
burn_deposit_abi_signature = ascii "burnDeposit(bytes32)"

unfoldable pub encode_domain_id_call : Bytes → DomainId → Bytes
encode_domain_id_call selector domain_id = selector ++ to_be_bytes 32 domain_id

unfoldable pub decode_domain_id_call : Bytes → Bytes → Option DomainId
unfolding same_bytes
decode_domain_id_call input selector =
    if length input == 36 && same_bytes (take 4 input) selector
    then some (from_be_bytes (drop 4 input))
    else none

module _ (keccak256 : Bytes → B256) where
  unfoldable pub selector : Bytes → Bytes
  selector signature = take 4 (to_be_bytes 32 (keccak256 signature))

  unfoldable pub refund_deposit_selector : Bytes
  refund_deposit_selector = selector refund_deposit_abi_signature

  unfoldable pub burn_deposit_selector : Bytes
  burn_deposit_selector = selector burn_deposit_abi_signature

  unfoldable pub encode_refund_deposit_call : DomainId → Bytes
  encode_refund_deposit_call domain_id = encode_domain_id_call refund_deposit_selector domain_id

  unfoldable pub encode_burn_deposit_call : DomainId → Bytes
  encode_burn_deposit_call domain_id = encode_domain_id_call burn_deposit_selector domain_id

  unfoldable pub decode_refund_deposit_call : Bytes → Option DomainId
  decode_refund_deposit_call input = decode_domain_id_call input refund_deposit_selector

  unfoldable pub decode_burn_deposit_call : Bytes → Option DomainId
  decode_burn_deposit_call input = decode_domain_id_call input burn_deposit_selector
