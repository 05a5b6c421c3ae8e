-- ===== src/Codec/ValidatorSet.antt =====
-- `encode_validator_set` and `decode_validator_set` of crates/arbor-codec/src/canonical.rs.
use arbor.Base.{
  ℕ, ◌≡◌, ◌≢◌, ◌≤◌, ◌+◌, ◌*◌, true, refl, sym, ap, ◌∙◌, List, ◌++◌, ◌∷◌, [], map, All, All-unzip,
  Result, ok, err, ◌⨾◌, ◌==◌, if◌then◌else◌, arith, append_assoc, append-nil, length, length-append,
}
use arbor.Base.Bytes.{IsBytes, to_be_bytes, length-to_be_bytes}
use arbor.Primitives.{Validator, IsValidator, ValidatorSet, IsValidatorSet}
use arbor.Codec.Limits.{
  CodecError, ascii, invalid_value, check_limit, strictly_sorted, check_strictly_sorted,
  max_active_validators,
}
use arbor.Codec.Encoder
use arbor.Codec.Encoder.{Encoder, ◌▷◌}
use arbor.Codec.Decoder.{
  Parse, pure, ◌>>=◌, ◌>>◌, reject_if, require, u64, b256, word, count, repeat, decode_object,
}
use arbor.Codec.Reads.{
  Reads, bind-Reads, before-Reads, after-Reads, pure-Reads, reject_if-Reads, require-Reads,
  word-Reads, count-Reads, repeat-Reads, concat_map,
}
use arbor.Codec.Yields.{
  Yields, Takes, field-Yields, reject_if-Yields, require-Yields, pure-Yields, word-Takes,
  count-Takes, repeat-Takes,
}
use arbor.Codec.Frame.{
  sorted_of, Encoder-eq, frame, length-frame, finish_fits, decode_object-finish,
  finish-decode_object,
}

abbrev pub validator_set_tag : List ℕ
validator_set_tag = ascii "ARBOR_VALIDATOR_SET_V1"

unfoldable pub write_validator : Validator → Encoder → Encoder
unfolding Encoder.b256 Encoder.u64
write_validator v out =
    out ▷ Encoder.b256 v.id ▷ Encoder.extend (to_be_bytes 33 v.public_key) ▷ Encoder.u64 v.power

-- The loop over the validators.
unfoldable pub write_validators : List Validator → Encoder → Result CodecError Encoder
write_validators [] out = ok out
write_validators (v ∷ vs) out =
    let rest = write_validators vs (write_validator v out) in
    if v.power == 0 then err (invalid_value "validator power") else rest

unfoldable pub encode_validator_set : ValidatorSet → Result CodecError (List ℕ)
encode_validator_set value =
    check_limit "validators" (length value.validators) max_active_validators
    ⨾ (if length value.validators == 0
        then err (invalid_value "validator set")
        else (check_strictly_sorted (map (λ v. v.id) value.validators) "validators"
            ⨾ elim (write_validators value.validators (
                Encoder.tagged validator_set_tag
                ▷ Encoder.u64 value.epoch
                ▷ Encoder.count (length value.validators))) [
                  | ok out ↦ Encoder.finish out
                  | err e ↦ err e
                ]))

-- One round of the decoder's loop.
unfoldable pub validator : Parse Validator
validator = do
  id ← b256
  public_key ← word 33
  power ← u64
  reject_if (power == 0) (invalid_value "validator power")
  pure (record { id = id; public_key = public_key; power = power })

unfoldable pub validator_set_fields : Parse ValidatorSet
validator_set_fields = do
  epoch ← u64
  n ← count "validators" max_active_validators
  reject_if (n == 0) (invalid_value "validator set")
  validators ← repeat n validator
  require (check_strictly_sorted (map (λ v. v.id) validators) "validators")
  pure (record { epoch = epoch; validators = validators })

unfoldable pub decode_validator_set : List ℕ → Result CodecError ValidatorSet
decode_validator_set input = decode_object validator_set_tag validator_set_fields input

-- What the encoder demands of a set: at least one and at most 100 validators, in strictly ascending
-- order of their identifiers, each with some power.
pub record IsCanonical (s : ValidatorSet) : Type 0 where
  pub bounded : length s.validators ≤ max_active_validators
  pub inhabited : length s.validators ≢ 0
  pub sorted : strictly_sorted (map (λ v. v.id) s.validators) ≡ true
  pub powered : All (λ v. v.power ≢ 0) s.validators

abbrev pub validator_bytes : Validator → List ℕ
validator_bytes v = to_be_bytes 32 v.id ++ (to_be_bytes 33 v.public_key ++ to_be_bytes 8 v.power)

abbrev pub set_bytes : ValidatorSet → List ℕ
set_bytes s =
    to_be_bytes 8 s.epoch
    ++ (to_be_bytes 4 (length s.validators) ++ concat_map validator_bytes s.validators)

write_head : ValidatorSet → Encoder
unfolding Encoder.tagged Encoder.u64 Encoder.count
write_head s =
    Encoder.tagged validator_set_tag ▷ Encoder.u64 s.epoch ▷ Encoder.count (length s.validators)

-- The encoder of a canonical set.
write_set : ValidatorSet → Encoder
write_set s = write_head s ▷ Encoder.extend (concat_map validator_bytes s.validators)

write_validators-powered :
    (vs : List Validator) (out : Encoder)
    → All (λ v. v.power ≢ 0) vs
    → write_validators vs out ≡ ok (Encoder.extend (concat_map validator_bytes vs) out)
unfolding write_validators write_validator
write_validators-powered [] out h = ap ok (Encoder-eq (sym (append-nil out.bytes)))
write_validators-powered (v ∷ vs) out h =
    let ih = write_validators-powered vs (write_validator v out) h.1 in
    let same : Encoder.extend (concat_map validator_bytes vs) (write_validator v out)
        ≡ Encoder.extend (validator_bytes v ++ concat_map validator_bytes vs) out =
      Encoder-eq (simp append_assoc) in
    ground (arith, ih, same, h.0)

encode-canonical :
    (s : ValidatorSet) → IsCanonical s → encode_validator_set s ≡ Encoder.finish (write_set s)
unfolding encode_validator_set check_limit check_strictly_sorted write_set write_head
encode-canonical s c =
    ground (arith, write_validators-powered s.validators (write_head s) c.powered)

write_set_lem : (s : ValidatorSet) → (write_set s).bytes ≡ frame validator_set_tag (set_bytes s)
unfolding write_set write_head frame
write_set_lem s = simp append_assoc

length-validators : (vs : List Validator) → length (concat_map validator_bytes vs) ≡ 73 * length vs
length-validators [] = refl
length-validators (v ∷ vs) =
    simp (length-append, length-to_be_bytes) (omega (arith, length-validators vs))

length-set_bytes : (s : ValidatorSet) → length (set_bytes s) ≡ 12 + 73 * length s.validators
length-set_bytes s =
    simp (length-append, length-to_be_bytes) (omega (arith, length-validators s.validators))

validator-Reads :
    (v : Validator) → IsValidator v → v.power ≢ 0 → Reads validator (validator_bytes v) v
unfolding validator
validator-Reads v h nz = bind-Reads _ _ (word-Reads 32 _ h.id) (
    bind-Reads _ _ (word-Reads 33 _ h.public_key) (
      after-Reads _ _ (word-Reads 8 _ h.power)
        (before-Reads _ _ (reject_if-Reads _ (ground arith)) (pure-Reads v))))

validators-Reads :
    (vs : List Validator)
    → All IsValidator vs
    → All (λ v. v.power ≢ 0) vs
    → All (λ v. Reads validator (validator_bytes v) v) vs
validators-Reads [] h p = tt
validators-Reads (v ∷ vs) h p = (validator-Reads v h.0 p.0, validators-Reads vs h.1 p.1)

fields-Reads :
    (s : ValidatorSet)
    → IsValidatorSet s
    → IsCanonical s
    → Reads validator_set_fields (set_bytes s) s
unfolding validator_set_fields check_strictly_sorted
fields-Reads s h c = bind-Reads _ _ (word-Reads 8 _ h.epoch) (
    bind-Reads _ _ (count-Reads _ _ (length s.validators) (omega (arith, c.bounded)) c.bounded) (
      before-Reads _ _ (reject_if-Reads _ (ground (arith, c.inhabited))) (
        after-Reads _ _
          (repeat-Reads validator validator_bytes s.validators
            (validators-Reads s.validators h.validators c.powered))
          (before-Reads _ _ (require-Reads (rw c.sorted refl)) (pure-Reads s)))))

-- A canonical validator set whose fields are in the range of their types encodes, to 35 bytes and 73
-- for each validator, and they decode to that set.
pub decode-encode_validator_set :
    (s : ValidatorSet)
    → IsValidatorSet s
    → IsCanonical s
    → (bs : List ℕ) × (encode_validator_set s ≡ ok bs)
      × (length bs ≡ 35 + 73 * length s.validators)
      × (decode_validator_set bs ≡ ok s)
unfolding decode_validator_set
decode-encode_validator_set s h c =
    let size : length (write_set s).bytes ≡ 35 + 73 * length s.validators =
      rw (write_set_lem s)
        (omega (arith, length-frame validator_set_tag (set_bytes s), length-set_bytes s)) in
    let done : Encoder.finish (write_set s) ≡ ok (write_set s).bytes =
      finish_fits (write_set s) (omega (arith, c.bounded)) in
    (
      (write_set s).bytes,
      encode-canonical s c ∙ done,
      size,
      decode_object-finish validator_set_tag validator_set_fields (write_set s) (fields-Reads s h c)
          (write_set_lem s) done,
    )

validator-Takes : Takes validator validator_bytes (λ v. IsValidator v × (v.power ≢ 0))
unfolding validator
validator-Takes pre = field-Yields b256 _ (to_be_bytes 32) (word-Takes 32) (λ i w0.
    field-Yields (word 33) _ (to_be_bytes 33) (word-Takes 33) (λ k w1.
      field-Yields u64 _ (to_be_bytes 8) (word-Takes 8) (λ p w2. reject_if-Yields _ _ _ (λ nz.
        pure-Yields _ _
          (simp append_assoc, (record { id = w0; public_key = w1; power = w2 }, ground arith))))))

fields-Yields :
    Yields
      (validator_set_tag ++ (Encoder.canonical_codec_version ∷ []))
      validator_set_fields
      (λ all s. (all ≡ (write_set s).bytes) × (IsValidatorSet s × IsCanonical s))
unfolding validator_set_fields write_set write_head
fields-Yields = field-Yields u64 _ (to_be_bytes 8) (word-Takes 8) (λ e w0.
    field-Yields (count _ _) _ (to_be_bytes 4) (count-Takes _ _) (λ n w1.
      reject_if-Yields _ _ _ (λ nz.
        field-Yields (repeat n validator) _ (concat_map validator_bytes)
          (repeat-Takes validator validator_bytes {P = λ v. IsValidator v × (v.power ≢ 0)}
            validator-Takes n)
          (λ vs w2. require-Yields _ _ (λ ordered.
            let (typed, powered) = All-unzip IsValidator (λ v. v.power ≢ 0) vs w2.1 in
            pure-Yields _ _ (
              rw w2.0 refl,
              (
                record { epoch = w0; validators = typed },
                record {
                  bounded = rw w2.0 w1.1;
                  inhabited = rw w2.0 (ground arith);
                  sorted = sorted_of _ "validators" ordered;
                  powered = powered;
                },
              ),
            ))))))

-- If bytes decode to a validator set, then they are what it encodes to, its fields are in the range
-- of their types and it is canonical.
pub encode-decode_validator_set :
    (bs : List ℕ) {s : ValidatorSet}
    → IsBytes bs
    → decode_validator_set bs ≡ ok s
    → (encode_validator_set s ≡ ok bs) × IsValidatorSet s × IsCanonical s
unfolding decode_validator_set
encode-decode_validator_set bs {s} h e =
    let (done, valid) =
      finish-decode_object validator_set_tag validator_set_fields write_set fields-Yields h e in
    (encode-canonical s valid.1 ∙ done, valid.0, valid.1)
