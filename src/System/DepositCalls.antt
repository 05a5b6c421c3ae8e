-- ===== src/System/DepositCalls.antt =====
-- The deposit calls of the chain registry: encoding and decoding are inverse, and the two calls differ.
use arbor.Base.{
  ℕ, zero, suc, ◌<◌, ◌^◌, ◌≡◌, ◌≢◌, refl, ap, true, none, some, List, [], ◌∷◌, ◌++◌, take, drop,
  length, length-append, take-length, drop-length, if◌then◌else◌, arith,
}
use arbor.Base.Bytes.{
  IsBytes, to_be_bytes, from_be_bytes, length-to_be_bytes, from_be_bytes-to_be_bytes,
  to_be_bytes-from_be_bytes, from_be_bytes-lt,
}
use arbor.Codec.Decoder.{same_bytes}
use arbor.Codec.Reads.{same_bytes_self}
use arbor.Codec.Yields.{eq_of_same_bytes, length-take_le}
use arbor.Primitives.{B256, Bytes, DomainId, IsWord}
use arbor.System.Calls.{
  encode_domain_id_call, decode_domain_id_call, selector, refund_deposit_selector,
  burn_deposit_selector, encode_refund_deposit_call, encode_burn_deposit_call,
  decode_refund_deposit_call, decode_burn_deposit_call,
}

take-drop : (n : ℕ) (xs : List ℕ) → take n xs ++ drop n xs ≡ xs
take-drop zero xs = refl
take-drop (suc n) [] = refl
take-drop (suc n) (x ∷ xs) = ap (λ l. x ∷ l) (take-drop n xs)

drop-IsBytes : (n : ℕ) (xs : List ℕ) → IsBytes xs → IsBytes (drop n xs)
drop-IsBytes zero xs h = h
drop-IsBytes (suc n) [] h = tt
drop-IsBytes (suc n) (x ∷ xs) h = drop-IsBytes n xs h.1

-- A call is decoded under the selector that it was encoded with, and under no other.
decode-encode_call :
    (a b : Bytes) (id : DomainId)
    → length a ≡ 4
    → IsWord 32 id
    → decode_domain_id_call (encode_domain_id_call a id) b
      ≡ (if same_bytes a b then some id else none)
unfolding decode_domain_id_call encode_domain_id_call
decode-encode_call a b id h w =
    let size : length (a ++ to_be_bytes 32 id) ≡ 36 =
      omega (arith, length-append a (to_be_bytes 32 id), length-to_be_bytes 32 id, h) in
    let first : take 4 (a ++ to_be_bytes 32 id) ≡ a = rw h at (take-length a (to_be_bytes 32 id)) in
    let rest : drop 4 (a ++ to_be_bytes 32 id) ≡ to_be_bytes 32 id =
      rw h at (drop-length a (to_be_bytes 32 id)) in
    rw (size, first, rest, from_be_bytes-to_be_bytes 32 id w) refl

encode-decode_call :
    (a input : Bytes) {id : DomainId}
    → IsBytes input
    → decode_domain_id_call input a ≡ some id
    → (encode_domain_id_call a id ≡ input) × IsWord 32 id
unfolding decode_domain_id_call encode_domain_id_call
encode-decode_call a input {id} bytes h =
    let facts : (length input ≡ 36)
        × (same_bytes (take 4 input) a ≡ true)
        × (from_be_bytes (drop 4 input) ≡ id) =
      ground (arith, h) in
    let first = eq_of_same_bytes (take 4 input) a facts.1 in
    let size : length (drop 4 input) ≡ 32 = omega (
      arith,
      facts.0,
      ap length (take-drop 4 input),
      length-append (take 4 input) (drop 4 input),
      length-take_le 4 input (omega (arith, facts.0)),
    ) in
    let tail : IsBytes (drop 4 input) = drop-IsBytes 4 input bytes in
    let back : to_be_bytes 32 (from_be_bytes (drop 4 input)) ≡ drop 4 input =
      rw size at (to_be_bytes-from_be_bytes (drop 4 input) tail) in
    let small : from_be_bytes (drop 4 input) < 256 ^ 32 =
      rw size at (from_be_bytes-lt (drop 4 input) tail) in
    (rw (← facts.2, back, ← first) (take-drop 4 input), rw (← facts.2) small)

module _ (keccak256 : Bytes → B256) where
  length-selector : (signature : Bytes) → length (selector keccak256 signature) ≡ 4
  unfolding selector
  length-selector signature =
      length-take_le 4 _ (omega (arith, length-to_be_bytes 32 (keccak256 signature)))

  -- If the selectors of the two deposit calls differ, then each call on a 256-bit domain identifier
  -- decodes to that identifier, and is refused by the decoder of the other.
  pub decode-encode_deposit_call :
      (id : DomainId)
      → IsWord 32 id
      → refund_deposit_selector keccak256 ≢ burn_deposit_selector keccak256
      → (decode_refund_deposit_call keccak256 (encode_refund_deposit_call keccak256 id) ≡ some id)
        × (decode_burn_deposit_call keccak256 (encode_burn_deposit_call keccak256 id) ≡ some id)
        × (decode_burn_deposit_call keccak256 (encode_refund_deposit_call keccak256 id) ≡ none)
        × (decode_refund_deposit_call keccak256 (encode_burn_deposit_call keccak256 id) ≡ none)
  unfolding decode_refund_deposit_call encode_refund_deposit_call decode_burn_deposit_call
      encode_burn_deposit_call
  decode-encode_deposit_call id w differ =
      let r = refund_deposit_selector keccak256 in
      let b = burn_deposit_selector keccak256 in
      let hr : length r ≡ 4 = unfold refund_deposit_selector in length-selector _ in
      let hb : length b ≡ 4 = unfold burn_deposit_selector in length-selector _ in
      (
        ground (arith, decode-encode_call r r id hr w, same_bytes_self r),
        ground (arith, decode-encode_call b b id hb w, same_bytes_self b),
        ground (arith, decode-encode_call r b id hr w, eq_of_same_bytes r b, differ),
        ground (arith, decode-encode_call b r id hb w, eq_of_same_bytes b r, differ),
      )

  -- Bytes that decode as a refund call are its encoding, and the identifier has 256 bits.
  encode-decode_refund_deposit_call :
      (input : Bytes) {id : DomainId}
      → IsBytes input
      → decode_refund_deposit_call keccak256 input ≡ some id
      → (encode_refund_deposit_call keccak256 id ≡ input) × IsWord 32 id
  unfolding decode_refund_deposit_call encode_refund_deposit_call
  encode-decode_refund_deposit_call input h e = encode-decode_call _ input h e
