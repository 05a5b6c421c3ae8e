-- ===== src/Chain/Body.antt =====
-- Block bodies, `encode_consensus_block` and `decode_consensus_block` of
-- crates/arbor-chain/src/lib.rs. A reader takes the input and the cursor, and returns the moved cursor.
pub mod RoundTrip
use arbor.Base.{
  ℕ, zero, suc, ◌+◌, ◌^◌, Option, none, some, List, [], ◌∷◌, ◌++◌, Result, ok, err, length,
  take as take_list, drop, leb, ltb, ◌==◌, ◌||◌, not, if◌then◌else◌, String,
}
use arbor.Base.Bytes.{to_be_bytes, from_be_bytes}
use arbor.Base.Outcome.{◌>>=◌, ◌>>◌, fail_if, map_err}
use arbor.Primitives.{ConsensusBlockHeader, DomainBatch, DomainBlockHeader}
use arbor.Codec.Limits.{CodecError, ascii, max_canonical_object_bytes}
use arbor.Codec.Encoder.{canonical_codec_version}
use arbor.Codec.Decoder.{same_bytes}
use arbor.Codec.ConsensusHeader.{encode_consensus_header, decode_consensus_header}
use arbor.Codec.DomainBatch.{encode_domain_batch, decode_domain_batch}
use arbor.Codec.DomainHeader.{encode_domain_header, decode_domain_header}
use arbor.Chain.{
  ConsensusBlock, ChainError, result_alignment, encoding, decode, from_codec, text, block_bytes,
  too_many_batches, max_consensus_block_bytes, max_batches_per_block,
}

abbrev pub block_body_tag : List ℕ
block_body_tag = ascii "ARBOR_CONSENSUS_BLOCK_BODY_V1"

-- `put_u32` and `put_bytes`, as the bytes that they append.
unfoldable pub put_u32 : ℕ → Result ChainError (List ℕ)
put_u32 value = do
  fail_if (leb (2 ^ 32) value) (encoding (text "u32 length"))
  ok (to_be_bytes 4 value)

unfoldable pub put_bytes : List ℕ → Result ChainError (List ℕ)
put_bytes value = do prefix ← put_u32 (length value); ok (prefix ++ value)

-- The loop over the batches, and the one over the results.
unfoldable pub put_all :
    {A : Type 0} → (A → Result CodecError (List ℕ)) → List A → Result ChainError (List ℕ)
put_all encode [] = ok []
put_all encode (x ∷ xs) = do
  encoded ← map_err (λ e. encoding (from_codec e)) (encode x)
  bytes ← put_bytes encoded
  rest ← put_all encode xs
  ok (bytes ++ rest)

unfoldable pub encode_consensus_block : ConsensusBlock → Result ChainError (List ℕ)
encode_consensus_block block = do
  fail_if (not (length block.batches == length block.domain_blocks)) result_alignment
  encoded ← map_err (λ e. encoding (from_codec e)) (encode_consensus_header block.header)
  header ← put_bytes encoded
  batch_count ← put_u32 (length block.batches)
  batches ← put_all encode_domain_batch block.batches
  result_count ← put_u32 (length block.domain_blocks)
  results ← put_all encode_domain_header block.domain_blocks
  let out =
        block_body_tag
        ++ (canonical_codec_version ∷ [])
        ++ header
        ++ batch_count
        ++ batches
        ++ result_count
        ++ results in
      fail_if (ltb max_consensus_block_bytes (length out))
        (block_bytes max_consensus_block_bytes (length out))
      >> ok out

abbrev pub Read : Type 0 → Type 0
Read A = List ℕ → ℕ → Result ChainError (A × ℕ)

unfoldable pub take : ℕ → Read (List ℕ)
take n input cursor = do
  fail_if (leb (2 ^ 64) (cursor + n)) (decode "length overflow")
  fail_if (ltb (length input) (cursor + n)) (decode "unexpected end")
  ok (take_list n (drop cursor input), cursor + n)

unfoldable pub take_u32 : Read ℕ
take_u32 input cursor = do (bytes, next) ← take 4 input cursor; ok (from_be_bytes bytes, next)

unfoldable pub take_bytes : Read (List ℕ)
take_bytes input cursor = do
  (n, next) ← take_u32 input cursor
  fail_if (ltb max_canonical_object_bytes n) (decode "nested object too large")
  take n input next

-- An object behind its length.
unfoldable pub take_object : {A : Type 0} → (List ℕ → Result CodecError A) → String → Read A
take_object decode_bytes what input cursor = do
  (bytes, next) ← take_bytes input cursor
  value ← map_err (λ _. decode what) (decode_bytes bytes)
  ok (value, next)

unfoldable pub take_all : {A : Type 0} → (List ℕ → Result CodecError A) → String → ℕ → Read (List A)
take_all decode_bytes what zero input cursor = ok ([], cursor)
take_all decode_bytes what (suc n) input cursor = do
  (value, next) ← take_object decode_bytes what input cursor
  (values, end) ← take_all decode_bytes what n input next
  ok (value ∷ values, end)

-- `decode_consensus_block` between its check of the size and that of trailing bytes.
unfoldable pub block_fields : Read ConsensusBlock
block_fields input cursor = do
  (tag, c0) ← take (length block_body_tag) input cursor
  fail_if (not (same_bytes tag block_body_tag)) (decode "block body tag/version")
  (version, c1) ← take 1 input c0
  fail_if (not (same_bytes version (canonical_codec_version ∷ [])))
      (decode "block body tag/version")
  (header, c2) ← take_object decode_consensus_header "consensus header" input c1
  (batch_count, c3) ← take_u32 input c2
  fail_if (ltb max_batches_per_block batch_count)
      (too_many_batches max_batches_per_block batch_count)
  (batches, c4) ← take_all decode_domain_batch "domain batch" batch_count input c3
  (result_count, c5) ← take_u32 input c4
  fail_if (not (result_count == batch_count)) result_alignment
  (domain_blocks, c6) ← take_all decode_domain_header "domain header" result_count input c5
  ok (record { header = header; batches = batches; domain_blocks = domain_blocks }, c6)

unfoldable pub decode_consensus_block : List ℕ → Result ChainError ConsensusBlock
decode_consensus_block input = do
  fail_if (ltb max_consensus_block_bytes (length input))
      (block_bytes max_consensus_block_bytes (length input))
  (block, end) ← block_fields input 0
  fail_if (not (end == length input)) (decode "trailing bytes")
  ok block
