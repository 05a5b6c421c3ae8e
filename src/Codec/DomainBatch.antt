-- ===== src/Codec/DomainBatch.antt =====
-- `encode_domain_batch` and `decode_domain_batch` of crates/arbor-codec/src/canonical.rs.
use arbor.Base.{
  ℕ, ◌≡◌, ◌≤◌, refl, sym, ap, ◌∙◌, List, ◌++◌, ◌∷◌, [], All, All-unzip, Result, ok, err, ◌⨾◌, arith,
  append_assoc, append-nil, length,
}
use arbor.Base.Bytes.{IsBytes, to_be_bytes}
use arbor.Primitives.{Bytes, DomainBatch, IsDomainBatch}
use arbor.Codec.Limits.{
  CodecError, ascii, check_limit, max_transactions_per_batch, max_transaction_envelope_bytes,
  max_canonical_object_bytes,
}
use arbor.Codec.Encoder
use arbor.Codec.Encoder.{Encoder, ◌▷◌}
use arbor.Codec.Decoder.{Parse, pure, ◌>>=◌, b256, count, bytes, repeat, decode_object}
use arbor.Codec.Reads.{
  Reads, bind-Reads, map-Reads, word-Reads, bytes-Reads, count-Reads, repeat-Reads, concat_map,
}
use arbor.Codec.Yields.{
  Yields, field-Yields, pure-Yields, word-Takes, bytes-Takes, count-Takes, repeat-Takes, sized,
  IsSized,
}
use arbor.Codec.Frame.{Encoder-eq, frame, finish_fits, decode_object-finish, finish-decode_object}

abbrev pub domain_batch_tag : List ℕ
domain_batch_tag = ascii "ARBOR_DOMAIN_BATCH_V1"

-- The loop over the envelopes.
unfoldable pub write_transactions : List Bytes → Encoder → Result CodecError Encoder
write_transactions [] out = ok out
write_transactions (tx ∷ txs) out =
    check_limit "transaction envelope" (length tx) max_transaction_envelope_bytes
    ⨾ write_transactions txs (Encoder.put_bytes tx out)

unfoldable pub encode_domain_batch : DomainBatch → Result CodecError (List ℕ)
encode_domain_batch value =
    check_limit "domain batch transactions" (length value.transactions) max_transactions_per_batch
    ⨾ elim (write_transactions value.transactions (
        Encoder.tagged domain_batch_tag
        ▷ Encoder.b256 value.domain_id
        ▷ Encoder.b256 value.parent_domain_block_hash
        ▷ Encoder.count (length value.transactions))) [
          | ok out ↦ Encoder.finish out
          | err e ↦ err e
        ]

unfoldable pub domain_batch_fields : Parse DomainBatch
domain_batch_fields = do
  domain_id ← b256
  parent_domain_block_hash ← b256
  n ← count "domain batch transactions" max_transactions_per_batch
  transactions ← repeat n (bytes "transaction envelope" max_transaction_envelope_bytes)
  pure (record {
    domain_id = domain_id;
    parent_domain_block_hash = parent_domain_block_hash;
    transactions = transactions;
  })

unfoldable pub decode_domain_batch : List ℕ → Result CodecError DomainBatch
decode_domain_batch input = decode_object domain_batch_tag domain_batch_fields input

abbrev pub batch_bytes : DomainBatch → List ℕ
batch_bytes b =
    to_be_bytes 32 b.domain_id
    ++ (to_be_bytes 32 b.parent_domain_block_hash
        ++ (to_be_bytes 4 (length b.transactions) ++ concat_map sized b.transactions))

-- The budgets of a batch: its transactions, each envelope, and the whole encoding.
pub record IsBounded (b : DomainBatch) : Type 0 where
  pub transactions : length b.transactions ≤ max_transactions_per_batch
  pub envelopes : All (λ tx. length tx ≤ max_transaction_envelope_bytes) b.transactions
  pub whole : length (frame domain_batch_tag (batch_bytes b)) ≤ max_canonical_object_bytes

write_head : DomainBatch → Encoder
unfolding Encoder.tagged Encoder.b256 Encoder.count
write_head b =
    Encoder.tagged domain_batch_tag
    ▷ Encoder.b256 b.domain_id
    ▷ Encoder.b256 b.parent_domain_block_hash
    ▷ Encoder.count (length b.transactions)

-- The encoder of a batch within the budgets.
write_batch : DomainBatch → Encoder
write_batch b = write_head b ▷ Encoder.extend (concat_map sized b.transactions)

write_transactions-bounded :
    (txs : List Bytes) (out : Encoder)
    → All (λ tx. length tx ≤ max_transaction_envelope_bytes) txs
    → write_transactions txs out ≡ ok (Encoder.extend (concat_map sized txs) out)
unfolding write_transactions check_limit
write_transactions-bounded [] out h = ap ok (Encoder-eq (sym (append-nil out.bytes)))
write_transactions-bounded (tx ∷ txs) out h =
    let same : Encoder.extend (concat_map sized txs) (Encoder.put_bytes tx out)
        ≡ Encoder.extend (sized tx ++ concat_map sized txs) out =
      Encoder-eq (unfold Encoder.put_bytes in simp append_assoc) in
    ground (arith, write_transactions-bounded txs (Encoder.put_bytes tx out) h.1, same, h.0)

encode-bounded :
    (b : DomainBatch)
    → length b.transactions ≤ max_transactions_per_batch
    → All (λ tx. length tx ≤ max_transaction_envelope_bytes) b.transactions
    → encode_domain_batch b ≡ Encoder.finish (write_batch b)
unfolding encode_domain_batch check_limit write_batch write_head
encode-bounded b n h = ground (arith, n, write_transactions-bounded b.transactions (write_head b) h)

write_batch_lem : (b : DomainBatch) → (write_batch b).bytes ≡ frame domain_batch_tag (batch_bytes b)
unfolding write_batch write_head frame
write_batch_lem b = simp append_assoc

transactions-Reads :
    (txs : List Bytes)
    → All (λ tx. length tx ≤ max_transaction_envelope_bytes) txs
    → All
        (λ tx. Reads (bytes "transaction envelope" max_transaction_envelope_bytes) (sized tx) tx)
        txs
transactions-Reads [] h = tt
transactions-Reads (tx ∷ txs) h =
    (bytes-Reads _ _ tx (omega (arith, h.0)) h.0, transactions-Reads txs h.1)

fields-Reads :
    (b : DomainBatch) → IsDomainBatch b → IsBounded b → Reads domain_batch_fields (batch_bytes b) b
unfolding domain_batch_fields
fields-Reads b h w = bind-Reads _ _ (word-Reads 32 _ h.domain_id) (
    bind-Reads _ _ (word-Reads 32 _ h.parent_domain_block_hash) (
      bind-Reads _ _
        (count-Reads _ _ (length b.transactions) (omega (arith, w.transactions)) w.transactions)
        (map-Reads _ _
          (repeat-Reads _ sized b.transactions (transactions-Reads b.transactions w.envelopes)))))

-- A batch within its budgets whose fields are in the range of their types encodes, to the tag, the
-- version, the two hashes, the count and each envelope behind its length, and they decode to that batch.
pub decode-encode_domain_batch :
    (b : DomainBatch)
    → IsDomainBatch b
    → IsBounded b
    → (encode_domain_batch b ≡ ok (frame domain_batch_tag (batch_bytes b)))
      × (decode_domain_batch (frame domain_batch_tag (batch_bytes b)) ≡ ok b)
unfolding decode_domain_batch
decode-encode_domain_batch b h w =
    let done : Encoder.finish (write_batch b) ≡ ok (frame domain_batch_tag (batch_bytes b)) =
      finish_fits (write_batch b) (rw (write_batch_lem b) w.whole) ∙ ap ok (write_batch_lem b) in
    (
      encode-bounded b w.transactions w.envelopes ∙ done,
      decode_object-finish domain_batch_tag domain_batch_fields (write_batch b) (fields-Reads b h w)
          (write_batch_lem b) done,
    )

fields-Yields :
    Yields
      (domain_batch_tag ++ (Encoder.canonical_codec_version ∷ []))
      domain_batch_fields
      (λ all b.
        (all ≡ (write_batch b).bytes)
        × (IsDomainBatch b
            × (length b.transactions ≤ max_transactions_per_batch)
            × All (λ tx. length tx ≤ max_transaction_envelope_bytes) b.transactions))
unfolding domain_batch_fields write_batch write_head
fields-Yields = field-Yields b256 _ (to_be_bytes 32) (word-Takes 32) (λ i w0.
    field-Yields b256 _ (to_be_bytes 32) (word-Takes 32) (λ p w1.
      field-Yields (count _ _) _ (to_be_bytes 4) (count-Takes _ _) (λ n w2.
        field-Yields (repeat n (bytes _ _)) _ (concat_map sized)
          (repeat-Takes (bytes _ _) sized {P = IsSized max_transaction_envelope_bytes}
            (bytes-Takes _ _) n)
          (λ txs w3.
            let (short, typed) =
              All-unzip (λ tx. length tx ≤ max_transaction_envelope_bytes) IsBytes txs w3.1 in
            pure-Yields _ _ (
              rw w3.0 refl,
              (
                record { domain_id = w0; parent_domain_block_hash = w1; transactions = typed },
                rw w3.0 w2.1,
                short,
              ),
            )))))

-- If bytes decode to a batch, then they are what it encodes to, its fields are in the range of their
-- types, and the counts of its transactions and of their bytes are within their budgets.
encode-decode_domain_batch :
    (bs : List ℕ) {b : DomainBatch}
    → IsBytes bs
    → decode_domain_batch bs ≡ ok b
    → (encode_domain_batch b ≡ ok bs)
      × IsDomainBatch b
      × (length b.transactions ≤ max_transactions_per_batch)
      × All (λ tx. length tx ≤ max_transaction_envelope_bytes) b.transactions
unfolding decode_domain_batch
encode-decode_domain_batch bs {b} h e =
    let (done, valid) =
      finish-decode_object domain_batch_tag domain_batch_fields write_batch fields-Yields h e in
    (encode-bounded b valid.1 valid.2 ∙ done, valid.0, valid.1, valid.2)
