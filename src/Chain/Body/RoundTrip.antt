-- ===== src/Chain/Body/RoundTrip.antt =====
-- A block that encodes decodes to itself: `encode_consensus_block` and `decode_consensus_block` of
-- crates/arbor-chain/src/lib.rs.
use arbor.Base.{
  ℕ, ◌+◌, ◌^◌, ◌≤◌, ◌<◌, ◌≡◌, refl, ◌⊎◌, inl, inr, Bool, Bool-cases, List, [], ◌∷◌, ◌++◌, Result,
  ok, err, length, length-append, take-length, drop-length, append_assoc, append-nil, All, String,
  arith, ltb, false,
}
use arbor.Base.Bytes.{to_be_bytes, length-to_be_bytes, from_be_bytes-to_be_bytes}
use native.Mathlib.Nat.{zero-add}
use arbor.Base.Outcome.{◌>>=◌, ◌>>◌, fail_if}
use arbor.Primitives.{
  ConsensusBlockHeader, IsConsensusBlockHeader, DomainBatch, IsDomainBatch, DomainBlockHeader,
  IsDomainBlockHeader, IsWord,
}
use arbor.Codec.Limits.{CodecError, max_canonical_object_bytes}
use arbor.Codec.Encoder.{canonical_codec_version}
use arbor.Codec.Reads.{same_bytes_self}
use arbor.Codec.ConsensusHeader.{
  encode_consensus_header, decode_consensus_header, decode-encode_consensus_header,
}
use arbor.Codec.DomainBatch.{
  encode_domain_batch, decode_domain_batch, IsBounded, decode-encode_domain_batch, domain_batch_tag,
  batch_bytes,
}
use arbor.Codec.Frame.{frame}
use arbor.Codec.DomainHeader.{
  encode_domain_header, decode_domain_header, decode-encode_domain_header,
}
use arbor.Chain.{
  ConsensusBlock, ChainError, block_bytes, max_consensus_block_bytes, max_batches_per_block,
}
use arbor.Chain.Body.{
  block_body_tag, put_u32, put_bytes, put_all, encode_consensus_block, Read, take, take_u32,
  take_bytes, take_object, take_all, block_fields, decode_consensus_block,
}

-- A reader takes exactly these bytes, wherever they stand, and returns the value.
record Reads {A : Type 0} (m : Read A) (bs : List ℕ) (a : A) : Type 0 where
  run :
      (pre rest : List ℕ)
      → length (pre ++ (bs ++ rest)) < 2 ^ 64
      → m (pre ++ (bs ++ rest)) (length pre) ≡ ok (a, length pre + length bs)

-- An object whose encoding is within the budget of one object and decodes to it.
record Encodes {A : Type 0} (encode : A → Result CodecError (List ℕ))
    (decode : List ℕ → Result CodecError A) (v : A) : Type 0 where
  bytes : List ℕ
  encoded : encode v ≡ ok bytes
  small : length bytes ≤ max_canonical_object_bytes
  decoded : decode bytes ≡ ok v

take-Reads : (bs : List ℕ) → Reads (take (length bs)) bs bs
unfolding take
take-Reads bs = record {
  run = λ pre rest fits. ground (
    arith,
    fits,
    length-append pre (bs ++ rest),
    length-append bs rest,
    drop-length pre (bs ++ rest),
    take-length bs rest,
  );
}

take_u32-Reads : (n : ℕ) → IsWord 4 n → Reads take_u32 (to_be_bytes 4 n) n
unfolding take_u32
take_u32-Reads n w = record {
  run = λ pre rest fits.
      let four = length-to_be_bytes 4 n in
      let read = (take-Reads (to_be_bytes 4 n)).run pre rest fits in
      ground (arith, rw four at read, four, from_be_bytes-to_be_bytes 4 n w);
}

-- A reader of the whole input.
run_all :
    {A : Type 0} {m : Read A} {bs : List ℕ} {a : A}
    → Reads m bs a
    → length bs < 2 ^ 64
    → m bs 0 ≡ ok (a, length bs)
run_all {bs = bs} r fits = rw (append-nil bs, zero-add) at (r.run [] [] (rw (append-nil bs) fits))

-- One reader behind another.
bind-Reads :
    {A B : Type 0} (m : Read A) (f : A → Read B) {bs cs : List ℕ} {a : A} {b : B}
    → Reads m bs a
    → Reads (f a) cs b
    → Reads (λ input cursor. m input cursor >>= λ r. f r.0 input r.1) (bs ++ cs) b
bind-Reads m f {bs = bs} {cs = cs} r s = record {
  run = λ pre rest fits.
      let front : pre ++ ((bs ++ cs) ++ rest) ≡ pre ++ (bs ++ (cs ++ rest)) = simp append_assoc in
      let back : (pre ++ bs) ++ (cs ++ rest) ≡ pre ++ (bs ++ (cs ++ rest)) = simp append_assoc in
      let joint : length (pre ++ bs) ≡ length pre + length bs = length-append pre bs in
      let first = r.run pre (cs ++ rest) (rw front at fits) in
      let second = s.run (pre ++ bs) rest (rw back (rw front at fits)) in
      rw front (ground (arith, first, rw (back, joint) at second, length-append bs cs));
}

pure-Reads : {A : Type 0} (a : A) → Reads (λ input cursor. ok (a, cursor)) [] a
pure-Reads a = record { run = λ pre rest fits. ground arith }

map-Reads :
    {A B : Type 0} (m : Read A) (g : A → B) {bs : List ℕ} {a : A}
    → Reads m bs a
    → Reads (λ input cursor. m input cursor >>= λ r. ok (g r.0, r.1)) bs (g a)
map-Reads m g r = record { run = λ pre rest fits. ground (arith, r.run pre rest fits) }

check-Reads :
    {A : Type 0} (m : Read A) {c : Bool} (e : ChainError) {bs : List ℕ} {a : A}
    → c ≡ false
    → Reads m bs a
    → Reads (λ input cursor. fail_if c e >> m input cursor) bs a
check-Reads m e h r = record { run = λ pre rest fits. ground (arith, h, r.run pre rest fits) }

take_bytes-Reads :
    (bs : List ℕ)
    → length bs ≤ max_canonical_object_bytes
    → Reads take_bytes (to_be_bytes 4 (length bs) ++ bs) bs
unfolding take_bytes
take_bytes-Reads bs small =
    bind-Reads take_u32 _ (take_u32-Reads (length bs) (omega (arith, small)))
      (check-Reads (take (length bs)) _ (ground (arith, small)) (take-Reads bs))

-- The bytes of an object behind their length.
abbrev sized : List ℕ → List ℕ
sized bs = to_be_bytes 4 (length bs) ++ bs

put_bytes-small :
    (bs : List ℕ) → length bs ≤ max_canonical_object_bytes → put_bytes bs ≡ ok (sized bs)
unfolding put_bytes put_u32
put_bytes-small bs small = ground (arith, small)

module _ {A : Type 0} (encode : A → Result CodecError (List ℕ))
    (decode : List ℕ → Result CodecError A) (what : String) where
  take_object-Reads :
      {v : A} (e : Encodes encode decode v) → Reads (take_object decode what) (sized e.bytes) v
  unfolding take_object
  take_object-Reads e = record {
    run = λ pre rest fits.
        ground (arith, e.decoded, (take_bytes-Reads e.bytes e.small).run pre rest fits);
  }

  put_all-Reads :
      (xs : List A)
      → All (Encodes encode decode) xs
      → (bs : List ℕ) × (put_all encode xs ≡ ok bs) × Reads (take_all decode what (length xs)) bs xs
  unfolding put_all take_all
  put_all-Reads [] h = ([], refl, pure-Reads [])
  put_all-Reads (x ∷ xs) h =
      let (bs, put, reads) = put_all-Reads xs h.1 in
      let one = put_bytes-small h.0.bytes h.0.small in
      (
        sized h.0.bytes ++ bs,
        ground (arith, h.0.encoded, one, put),
        bind-Reads (take_object decode what) _ (take_object-Reads h.0)
            (map-Reads (take_all decode what (length xs)) (λ ys. x ∷ ys) reads),
      )

put_u32-small : (n : ℕ) → n ≤ max_batches_per_block → put_u32 n ≡ ok (to_be_bytes 4 n)
unfolding put_u32
put_u32-small n h = ground (arith, h)

-- The fields of a block are in the range of their types, there is one result for each of at most 256
-- batches, and every batch is within its budgets.
pub record IsConsensusBlock (block : ConsensusBlock) : Type 0 where
  pub header : IsConsensusBlockHeader block.header
  pub batches : All (λ b. IsDomainBatch b × IsBounded b) block.batches
  pub domain_blocks : All IsDomainBlockHeader block.domain_blocks
  pub counted : length block.batches ≤ max_batches_per_block
  pub aligned : length block.domain_blocks ≡ length block.batches

header-Encodes :
    (v : ConsensusBlockHeader)
    → IsConsensusBlockHeader v
    → Encodes encode_consensus_header decode_consensus_header v
header-Encodes v h =
    let (bs, done, size, back) = decode-encode_consensus_header v h in
    record { bytes = bs; encoded = done; small = omega (arith, size); decoded = back }

batches-Encode :
    (bs : List DomainBatch)
    → All (λ b. IsDomainBatch b × IsBounded b) bs
    → All (Encodes encode_domain_batch decode_domain_batch) bs
batches-Encode [] h = tt
batches-Encode (b ∷ bs) h =
    let (done, back) = decode-encode_domain_batch b h.0.0 h.0.1 in
    (
      record {
        bytes = frame domain_batch_tag (batch_bytes b);
        encoded = done;
        small = h.0.1.whole;
        decoded = back;
      },
      batches-Encode bs h.1,
    )

results-Encode :
    (hs : List DomainBlockHeader)
    → All IsDomainBlockHeader hs
    → All (Encodes encode_domain_header decode_domain_header) hs
results-Encode [] h = tt
results-Encode (v ∷ vs) h =
    let (bs, done, size, back) = decode-encode_domain_header v h.0 in
    (
      record { bytes = bs; encoded = done; small = omega (arith, size); decoded = back },
      results-Encode vs h.1,
    )

abbrev body : List ℕ → ℕ → List ℕ → List ℕ → List ℕ
body header count batches results =
    block_body_tag
    ++ ((canonical_codec_version ∷ [])
        ++ (sized header ++ (to_be_bytes 4 count ++ (batches ++ (to_be_bytes 4 count ++ results)))))

block_fields-Reads :
    (block : ConsensusBlock) {batches results : List ℕ}
    → IsConsensusBlock block
    → (header : Encodes encode_consensus_header decode_consensus_header block.header)
    → Reads
        (take_all decode_domain_batch "domain batch" (length block.batches))
        batches
        block.batches
    → Reads
        (take_all decode_domain_header "domain header" (length block.domain_blocks))
        results
        block.domain_blocks
    → Reads block_fields (body header.bytes (length block.batches) batches results) block
unfolding block_fields
block_fields-Reads block w header read_batches read_results =
    let count = take_u32-Reads (length block.batches) (omega (arith, w.counted)) in
    bind-Reads (take (length block_body_tag)) _ (take-Reads block_body_tag) (
      check-Reads _ _ (rw same_bytes_self refl) (
        bind-Reads (take 1) _ (take-Reads (canonical_codec_version ∷ [])) (
          check-Reads _ _ (rw same_bytes_self refl) (
            bind-Reads _ _
              (take_object-Reads encode_consensus_header decode_consensus_header "consensus header"
                header)
              (bind-Reads take_u32 _ count (
                check-Reads _ _ (ground (arith, w.counted)) (
                  bind-Reads _ _ read_batches (
                    bind-Reads take_u32 _ count (
                      check-Reads _ _ (ground arith)
                        (map-Reads _ _ (rw w.aligned at read_results)))))))))))

-- Either the encoding of a block exceeds 16 MiB, and encoding fails with its size, or the block
-- encodes to bytes that decode to it.
pub decode-encode_consensus_block :
    (block : ConsensusBlock)
    → IsConsensusBlock block
    → ((size : ℕ) × (max_consensus_block_bytes < size)
        × (encode_consensus_block block ≡ err (block_bytes max_consensus_block_bytes size)))
      ⊎ ((bs : List ℕ) × (encode_consensus_block block ≡ ok bs)
          × (decode_consensus_block bs ≡ ok block))
unfolding encode_consensus_block decode_consensus_block
decode-encode_consensus_block block w =
    let header = header-Encodes block.header w.header in
    let (batches, put_batches, read_batches) =
      put_all-Reads encode_domain_batch decode_domain_batch "domain batch" block.batches
        (batches-Encode block.batches w.batches) in
    let (results, put_results, read_results) =
      put_all-Reads encode_domain_header decode_domain_header "domain header" block.domain_blocks
        (results-Encode block.domain_blocks w.domain_blocks) in
    let fields = block_fields-Reads block w header read_batches read_results in
    let out = body header.bytes (length block.batches) batches results in
    let put_header = put_bytes-small header.bytes header.small in
    let layout : block_body_tag
          ++ (canonical_codec_version ∷ [])
          ++ sized header.bytes
          ++ to_be_bytes 4 (length block.batches)
          ++ batches
          ++ to_be_bytes 4 (length block.batches)
          ++ results
        ≡ out =
      simp append_assoc in
    let second : put_u32 (length block.domain_blocks) ≡ ok (to_be_bytes 4 (length block.batches)) =
      rw w.aligned (put_u32-small (length block.batches) w.counted) in
    let written : encode_consensus_block block ≡ (
        fail_if (ltb max_consensus_block_bytes (length out))
          (block_bytes max_consensus_block_bytes (length out))
        >> ok out) =
      ground (
        arith,
        header.encoded,
        put_header,
        put_batches,
        put_results,
        put_u32-small (length block.batches) w.counted,
        second,
        layout,
      ) in
    elim (Bool-cases (ltb max_consensus_block_bytes (length out))) [
      | inl e ↦ inl (length out, ground (arith, e), ground (arith, written, e))
      | inr e ↦
          inr
            (out, ground (arith, written, e), ground (arith, e, run_all fields (ground (arith, e))))
    ]
