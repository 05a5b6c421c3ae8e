-- ===== src/Codec/QuorumCertificate.antt =====
-- `encode_quorum_certificate` and `decode_quorum_certificate` of crates/arbor-codec/src/canonical.rs.
use arbor.Base.{
  ℕ, ◌≡◌, ◌≢◌, ◌≤◌, ◌+◌, ◌*◌, true, refl, sym, ◌∙◌, List, ◌++◌, ◌∷◌, [], map, All, Result, ok, err,
  ◌⨾◌, ◌==◌, if◌then◌else◌, arith, append_assoc, append-nil, length, length-append,
}
use arbor.Base.Bytes.{IsBytes, to_be_bytes, length-to_be_bytes}
use arbor.Primitives.{CommitSignature, IsCommitSignature, QuorumCertificate, IsQuorumCertificate}
use arbor.Codec.Limits.{
  CodecError, ascii, invalid_value, check_limit, strictly_sorted, check_strictly_sorted,
  max_active_validators,
}
use arbor.Codec.Encoder
use arbor.Codec.Encoder.{Encoder, ◌▷◌}
use arbor.Codec.Decoder.{
  Parse, pure, ◌>>=◌, ◌>>◌, reject_if, require, u8, u64, b256, word, count, repeat, decode_object,
}
use arbor.Codec.Reads.{
  Reads, bind-Reads, map-Reads, before-Reads, after-Reads, pure-Reads, reject_if-Reads,
  require-Reads, byte-Reads, word-Reads, count-Reads, repeat-Reads, concat_map,
}
use arbor.Codec.Yields.{
  Yields, Takes, field-Yields, reject_if-Yields, require-Yields, pure-Yields, byte-Takes,
  word-Takes, count-Takes, repeat-Takes,
}
use arbor.Codec.Frame.{
  sorted_of, Encoder-eq, frame, length-frame, finish_fits, decode_object-finish,
  finish-decode_object,
}

abbrev pub qc_tag : List ℕ
qc_tag = ascii "ARBOR_QC_V1"

unfoldable pub write_signature : CommitSignature → Encoder → Encoder
unfolding Encoder.b256
write_signature s out =
    out ▷ Encoder.b256 s.validator_id ▷ Encoder.extend (to_be_bytes 64 s.signature)

unfoldable pub write_signatures : List CommitSignature → Encoder → Encoder
write_signatures [] out = out
write_signatures (s ∷ ss) out = write_signatures ss (write_signature s out)

unfoldable pub write_certificate : QuorumCertificate → Encoder
unfolding Encoder.tagged Encoder.b256 Encoder.u64 Encoder.u8 Encoder.count
write_certificate value =
    Encoder.tagged qc_tag
    ▷ Encoder.b256 value.network_id
    ▷ Encoder.u64 value.height
    ▷ Encoder.u64 value.round
    ▷ Encoder.u8 value.phase
    ▷ Encoder.b256 value.block_hash
    ▷ Encoder.count (length value.signatures)
    ▷ write_signatures value.signatures

unfoldable pub encode_quorum_certificate : QuorumCertificate → Result CodecError (List ℕ)
encode_quorum_certificate value =
    if value.phase == 0
    then err (invalid_value "certificate phase")
    else (check_limit "certificate signatures" (length value.signatures) max_active_validators
        ⨾ (if length value.signatures == 0
            then err (invalid_value "certificate signatures")
            else (check_strictly_sorted (map (λ s. s.validator_id) value.signatures)
                  "certificate signatures"
                ⨾ Encoder.finish (write_certificate value))))

-- One round of the decoder's loop.
unfoldable pub commit_signature : Parse CommitSignature
commit_signature = do
  validator_id ← b256
  signature ← word 64
  pure (record { validator_id = validator_id; signature = signature })

unfoldable pub certificate_fields : Parse QuorumCertificate
certificate_fields = do
  network_id ← b256
  height ← u64
  round ← u64
  phase ← u8
  reject_if (phase == 0) (invalid_value "certificate phase")
  block_hash ← b256
  n ← count "certificate signatures" max_active_validators
  reject_if (n == 0) (invalid_value "certificate signatures")
  signatures ← repeat n commit_signature
  require (check_strictly_sorted (map (λ s. s.validator_id) signatures) "certificate signatures")
  pure (record {
    network_id = network_id;
    height = height;
    round = round;
    phase = phase;
    block_hash = block_hash;
    signatures = signatures;
  })

unfoldable pub decode_quorum_certificate : List ℕ → Result CodecError QuorumCertificate
decode_quorum_certificate input = decode_object qc_tag certificate_fields input

-- What the encoder demands of a certificate: a non-zero phase, and at least one and at most 100
-- signatures in strictly ascending order of their signers.
pub record IsCanonical (q : QuorumCertificate) : Type 0 where
  pub phase : q.phase ≢ 0
  pub bounded : length q.signatures ≤ max_active_validators
  pub inhabited : length q.signatures ≢ 0
  pub sorted : strictly_sorted (map (λ s. s.validator_id) q.signatures) ≡ true

abbrev pub signature_bytes : CommitSignature → List ℕ
signature_bytes s = to_be_bytes 32 s.validator_id ++ to_be_bytes 64 s.signature

abbrev pub certificate_bytes : QuorumCertificate → List ℕ
certificate_bytes q =
    to_be_bytes 32 q.network_id
    ++ (to_be_bytes 8 q.height
        ++ (to_be_bytes 8 q.round
            ++ (q.phase
                ∷ (to_be_bytes 32 q.block_hash
                    ++ (to_be_bytes 4 (length q.signatures)
                        ++ concat_map signature_bytes q.signatures)))))

write_signatures_lem :
    (ss : List CommitSignature) (out : Encoder)
    → write_signatures ss out ≡ Encoder.extend (concat_map signature_bytes ss) out
unfolding write_signatures write_signature
write_signatures_lem [] out = Encoder-eq (sym (append-nil out.bytes))
write_signatures_lem (s ∷ ss) out =
    write_signatures_lem ss (write_signature s out) ∙ Encoder-eq (simp append_assoc)

encode-canonical :
    (q : QuorumCertificate)
    → IsCanonical q
    → encode_quorum_certificate q ≡ Encoder.finish (write_certificate q)
unfolding encode_quorum_certificate check_limit check_strictly_sorted
encode-canonical q c = ground (arith, c)

write_certificate_lem :
    (q : QuorumCertificate) → (write_certificate q).bytes ≡ frame qc_tag (certificate_bytes q)
unfolding write_certificate frame
write_certificate_lem q = rw write_signatures_lem (simp append_assoc)

length-signatures :
    (ss : List CommitSignature) → length (concat_map signature_bytes ss) ≡ 96 * length ss
length-signatures [] = refl
length-signatures (s ∷ ss) =
    simp (length-append, length-to_be_bytes) (omega (arith, length-signatures ss))

length-certificate_bytes :
    (q : QuorumCertificate) → length (certificate_bytes q) ≡ 85 + 96 * length q.signatures
length-certificate_bytes q =
    simp (length-append, length-to_be_bytes) (omega (arith, length-signatures q.signatures))

commit_signature-Reads :
    (s : CommitSignature) → IsCommitSignature s → Reads commit_signature (signature_bytes s) s
unfolding commit_signature
commit_signature-Reads s h =
    bind-Reads _ _ (word-Reads 32 _ h.validator_id) (map-Reads _ _ (word-Reads 64 _ h.signature))

signatures-Reads :
    (ss : List CommitSignature)
    → All IsCommitSignature ss
    → All (λ s. Reads commit_signature (signature_bytes s) s) ss
signatures-Reads [] h = tt
signatures-Reads (s ∷ ss) h = (commit_signature-Reads s h.0, signatures-Reads ss h.1)

fields-Reads :
    (q : QuorumCertificate)
    → IsQuorumCertificate q
    → IsCanonical q
    → Reads certificate_fields (certificate_bytes q) q
unfolding certificate_fields check_strictly_sorted
fields-Reads q h c = bind-Reads _ _ (word-Reads 32 _ h.network_id) (
    bind-Reads _ _ (word-Reads 8 _ h.height) (
      bind-Reads _ _ (word-Reads 8 _ h.round) (
        bind-Reads _ _ (byte-Reads h.phase) (
          before-Reads _ _ (reject_if-Reads _ (ground (arith, c.phase))) (
            bind-Reads _ _ (word-Reads 32 _ h.block_hash) (
              bind-Reads _ _
                (count-Reads _ _ (length q.signatures) (omega (arith, c.bounded)) c.bounded)
                (before-Reads _ _ (reject_if-Reads _ (ground (arith, c.inhabited))) (
                  after-Reads _ _
                    (repeat-Reads commit_signature signature_bytes q.signatures
                      (signatures-Reads q.signatures h.signatures))
                    (before-Reads _ _ (require-Reads (rw c.sorted refl)) (pure-Reads q))))))))))

-- A canonical certificate whose fields are in the range of their types encodes, to 97 bytes and 96
-- for each signature, and they decode to that certificate.
pub decode-encode_quorum_certificate :
    (q : QuorumCertificate)
    → IsQuorumCertificate q
    → IsCanonical q
    → (bs : List ℕ) × (encode_quorum_certificate q ≡ ok bs)
      × (length bs ≡ 97 + 96 * length q.signatures)
      × (decode_quorum_certificate bs ≡ ok q)
unfolding decode_quorum_certificate
decode-encode_quorum_certificate q h c =
    let size : length (write_certificate q).bytes ≡ 97 + 96 * length q.signatures =
      rw (write_certificate_lem q)
        (omega (arith, length-frame qc_tag (certificate_bytes q), length-certificate_bytes q)) in
    let done : Encoder.finish (write_certificate q) ≡ ok (write_certificate q).bytes =
      finish_fits (write_certificate q) (omega (arith, c.bounded)) in
    (
      (write_certificate q).bytes,
      encode-canonical q c ∙ done,
      size,
      decode_object-finish qc_tag certificate_fields (write_certificate q) (fields-Reads q h c)
          (write_certificate_lem q) done,
    )

commit_signature-Takes : Takes commit_signature signature_bytes IsCommitSignature
unfolding commit_signature
commit_signature-Takes pre = field-Yields b256 _ (to_be_bytes 32) (word-Takes 32) (λ i w0.
    field-Yields (word 64) _ (to_be_bytes 64) (word-Takes 64)
      (λ k w1. pure-Yields _ _ (simp append_assoc, record { validator_id = w0; signature = w1 })))

fields-Yields :
    Yields
      (qc_tag ++ (Encoder.canonical_codec_version ∷ []))
      certificate_fields
      (λ all q. (all ≡ (write_certificate q).bytes) × (IsQuorumCertificate q × IsCanonical q))
unfolding certificate_fields write_certificate
fields-Yields = field-Yields b256 _ (to_be_bytes 32) (word-Takes 32) (λ n w0.
    field-Yields u64 _ (to_be_bytes 8) (word-Takes 8) (λ h w1.
      field-Yields u64 _ (to_be_bytes 8) (word-Takes 8) (λ r w2.
        field-Yields u8 _ (λ b. b ∷ []) byte-Takes
          (λ p w3. reject_if-Yields _ _ _ (λ nz.
            field-Yields b256 _ (to_be_bytes 32) (word-Takes 32) (λ b w4.
              field-Yields (count _ _) _ (to_be_bytes 4) (count-Takes _ _) (λ k w5.
                reject_if-Yields _ _ _ (λ some.
                  field-Yields (repeat k commit_signature) _ (concat_map signature_bytes)
                    (repeat-Takes commit_signature signature_bytes {P = IsCommitSignature}
                      commit_signature-Takes k)
                    (λ ss w6. require-Yields _ _ (λ ordered. pure-Yields _ _ (
                      rw (write_signatures_lem, w6.0) refl,
                      (
                        record {
                          network_id = w0;
                          height = w1;
                          round = w2;
                          phase = w3;
                          block_hash = w4;
                          signatures = w6.1;
                        },
                        record {
                          phase = ground arith;
                          bounded = rw w6.0 w5.1;
                          inhabited = rw w6.0 (ground arith);
                          sorted = sorted_of _ "certificate signatures" ordered;
                        },
                      ),
                    )))))))))))

-- If bytes decode to a certificate, then they are what it encodes to, its fields are in the range of
-- their types and it is canonical.
pub encode-decode_quorum_certificate :
    (bs : List ℕ) {q : QuorumCertificate}
    → IsBytes bs
    → decode_quorum_certificate bs ≡ ok q
    → (encode_quorum_certificate q ≡ ok bs) × IsQuorumCertificate q × IsCanonical q
unfolding decode_quorum_certificate
encode-decode_quorum_certificate bs {q} h e =
    let (done, valid) =
      finish-decode_object qc_tag certificate_fields write_certificate fields-Yields h e in
    (encode-canonical q valid.1 ∙ done, valid.0, valid.1)
