-- ===== src/Tests/SystemRuns.antt =====
-- The chain registry at concrete requests and calls: the theorems are applied, and the checks run.
use arbor.Base.{ℕ, ◌%◌, ◌^◌, ◌*◌, ◌≡◌, ◌≢◌, refl, ap, none, some, List, [], ◌∷◌, ok, err, arith}
use arbor.Base.Bytes.{to_be_bytes}
use arbor.System.{CreateChainRequest, validate_request, invalid_parameter}
use arbor.System.Calls.{
  selector, refund_deposit_selector, burn_deposit_selector, encode_refund_deposit_call,
  encode_burn_deposit_call, decode_refund_deposit_call, decode_burn_deposit_call,
}
use arbor.System.DepositCalls.{decode-encode_deposit_call}

-- A hash for the examples, in which the first byte tells the signatures apart.
abbrev first_byte : List ℕ → ℕ
first_byte [] = 0
first_byte (b ∷ bs) = b % 256 * 256 ^ 31

abbrev first_of : List ℕ → ℕ
first_of [] = 0
first_of (b ∷ bs) = b

abbrev pub request : CreateChainRequest
request = record {
  parent_domain_id = 17;
  name = 68 ∷ [];
  symbol = 68 ∷ [];
  evm_chain_id = 2049;
  owner = 170;
  gas_limit = 20000000;
  initial_base_fee = 10;
  initial_supply = 1000000;
  protocol_revision = 1;
}

request-accepted : validate_request request ≡ ok tt
unfolding validate_request
request-accepted = refl

greedy-refused :
    validate_request (record request { gas_limit = 30000001 })
    ≡ err (invalid_parameter "domain gas limit")
unfolding validate_request
greedy-refused = refl

selectors_differ : refund_deposit_selector first_byte ≢ burn_deposit_selector first_byte
unfolding refund_deposit_selector burn_deposit_selector selector to_be_bytes
selectors_differ = λ e. let h : ◌≡◌ {A = ℕ} 114 98 = ap first_of e in omega (arith, h)

decode-encode_deposit_call_example :
    (decode_refund_deposit_call first_byte (encode_refund_deposit_call first_byte 5) ≡ some 5)
    × (decode_burn_deposit_call first_byte (encode_burn_deposit_call first_byte 5) ≡ some 5)
    × (decode_burn_deposit_call first_byte (encode_refund_deposit_call first_byte 5) ≡ none)
    × (decode_refund_deposit_call first_byte (encode_burn_deposit_call first_byte 5) ≡ none)
decode-encode_deposit_call_example =
    decode-encode_deposit_call first_byte 5 (omega arith) selectors_differ
