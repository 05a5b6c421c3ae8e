-- ===== src/Codec/Vote.antt =====
-- `encode_vote` and `decode_vote` of crates/arbor-codec/src/canonical.rs: the vote that is made
-- durable before it is signed.
use arbor.Base.{
  ℕ, ◌≡◌, ◌≢◌, refl, List, ◌++◌, ◌∷◌, [], Result, ok, err, ◌==◌, if◌then◌else◌, arith, append_assoc,
  length, length-append,
}
use arbor.Base.Bytes.{IsBytes, to_be_bytes, length-to_be_bytes}
use arbor.Primitives.{Vote, IsVote}
use arbor.Codec.Limits.{CodecError, invalid_value, ascii}
use arbor.Codec.Encoder
use arbor.Codec.Encoder.{Encoder, ◌▷◌}
use arbor.Codec.Frame.{frame, length-frame, finish_fits, decode_object-finish, finish-decode_object}
use arbor.Codec.Decoder.{Parse, pure, ◌>>=◌, ◌>>◌, reject_if, b256, u64, u8, decode_object}
use arbor.Codec.Yields.{Yields, field-Yields, reject_if-Yields, pure-Yields, word-Takes, byte-Takes}
use arbor.Codec.Reads.{
  Reads, map-Reads, bind-Reads, before-Reads, reject_if-Reads, word-Reads, byte-Reads,
}

abbrev pub vote_tag : List ℕ
vote_tag = ascii "ARBOR_VOTE_V1"

unfoldable pub write_vote : Vote → Encoder
unfolding Encoder.tagged Encoder.b256 Encoder.u64 Encoder.u8
write_vote value =
    Encoder.tagged vote_tag
    ▷ Encoder.b256 value.network_id
    ▷ Encoder.u64 value.height
    ▷ Encoder.u64 value.round
    ▷ Encoder.u8 value.phase
    ▷ Encoder.b256 value.block_hash
    ▷ Encoder.b256 value.validator_id

unfoldable pub encode_vote : Vote → Result CodecError (List ℕ)
encode_vote value =
    if value.phase == 0 then err (invalid_value "vote phase") else Encoder.finish (write_vote value)

unfoldable pub vote_fields : Parse Vote
vote_fields = do
  network_id ← b256
  height ← u64
  round ← u64
  phase ← u8
  reject_if (phase == 0) (invalid_value "vote phase")
  block_hash ← b256
  validator_id ← b256
  pure (record {
    network_id = network_id;
    height = height;
    round = round;
    phase = phase;
    block_hash = block_hash;
    validator_id = validator_id;
  })

unfoldable pub decode_vote : List ℕ → Result CodecError Vote
decode_vote input = decode_object vote_tag vote_fields input

-- The encoding behind the tag and the version.
abbrev pub vote_bytes : Vote → List ℕ
vote_bytes v =
    to_be_bytes 32 v.network_id
    ++ (to_be_bytes 8 v.height
        ++ (to_be_bytes 8 v.round
            ++ (v.phase ∷ (to_be_bytes 32 v.block_hash ++ to_be_bytes 32 v.validator_id))))

vote_fields-Reads : (v : Vote) (h : IsVote v) → v.phase ≢ 0 → Reads vote_fields (vote_bytes v) v
unfolding vote_fields
vote_fields-Reads v h nz = bind-Reads _ _ (word-Reads 32 _ h.network_id) (
    bind-Reads _ _ (word-Reads 8 _ h.height) (
      bind-Reads _ _ (word-Reads 8 _ h.round) (
        bind-Reads _ _ (byte-Reads h.phase) (
          before-Reads _ _ (reject_if-Reads _ (ground arith)) (
            bind-Reads _ _ (word-Reads 32 _ h.block_hash)
              (map-Reads _ _ (word-Reads 32 _ h.validator_id)))))))

write_vote_lem : (v : Vote) → (write_vote v).bytes ≡ frame vote_tag (vote_bytes v)
unfolding write_vote frame
write_vote_lem v = simp append_assoc

length-vote_bytes : (v : Vote) → length (vote_bytes v) ≡ 113
length-vote_bytes v = simp (length-append, length-to_be_bytes)

-- A vote whose fields are in the range of their types and whose phase is not zero encodes, to 127
-- bytes, and they decode to that vote.
pub decode-encode_vote :
    (v : Vote)
    → IsVote v
    → v.phase ≢ 0
    → (bs : List ℕ) × (encode_vote v ≡ ok bs) × (length bs ≡ 127) × (decode_vote bs ≡ ok v)
unfolding encode_vote decode_vote
decode-encode_vote v h nz =
    let size : length (write_vote v).bytes ≡ 127 =
      rw (write_vote_lem v)
        (omega (arith, length-frame vote_tag (vote_bytes v), length-vote_bytes v)) in
    let done : Encoder.finish (write_vote v) ≡ ok (write_vote v).bytes =
      finish_fits (write_vote v) (omega arith) in
    (
      (write_vote v).bytes,
      ground (arith, done),
      size,
      decode_object-finish vote_tag vote_fields (write_vote v) (vote_fields-Reads v h nz)
          (write_vote_lem v) done,
    )

vote_fields-Yields :
    Yields
      (vote_tag ++ (Encoder.canonical_codec_version ∷ []))
      vote_fields
      (λ all v. (all ≡ (write_vote v).bytes) × (IsVote v × (v.phase ≢ 0)))
unfolding vote_fields write_vote
vote_fields-Yields = field-Yields b256 _ (to_be_bytes 32) (word-Takes 32) (λ n w0.
    field-Yields u64 _ (to_be_bytes 8) (word-Takes 8) (λ h w1.
      field-Yields u64 _ (to_be_bytes 8) (word-Takes 8) (λ r w2.
        field-Yields u8 _ (λ b. b ∷ []) byte-Takes
          (λ p w3. reject_if-Yields _ _ _ (λ nz.
            field-Yields b256 _ (to_be_bytes 32) (word-Takes 32) (λ b w4.
              field-Yields b256 _ (to_be_bytes 32) (word-Takes 32)
                (λ v w5. pure-Yields _ _ (refl, (omega arith, ground arith)))))))))

-- If bytes decode to a vote, then they are what it encodes to, its fields are in the range of their
-- types and its phase is not zero.
pub encode-decode_vote :
    (bs : List ℕ) {v : Vote}
    → IsBytes bs
    → decode_vote bs ≡ ok v
    → (encode_vote v ≡ ok bs) × IsVote v × (v.phase ≢ 0)
unfolding encode_vote decode_vote
encode-decode_vote bs {v} h e =
    let (done, valid) =
      finish-decode_object vote_tag vote_fields write_vote vote_fields-Yields h e in
    (ground (arith, done, valid.1), valid.0, valid.1)
