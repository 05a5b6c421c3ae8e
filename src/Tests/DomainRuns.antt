-- ===== src/Tests/DomainRuns.antt =====
-- The codecs of domain geneses, descriptors and batches at concrete objects.
use arbor.Base.{◌≡◌, refl, [], ◌∷◌, ok, arith}
use arbor.Base.Bytes.{IsBytes, to_be_bytes, from_be, from_be_bytes}
use arbor.Base.Utf8.{is_utf8}
use arbor.Primitives.{DomainBatch, DomainDescriptor, active, DomainGenesis}
use arbor.Codec.Limits.{ascii, strictly_sorted, check_limit, check_strictly_sorted}
use arbor.Codec.Decoder
use arbor.Codec.Frame.{frame}
use arbor.Codec.Status.{status, status_of, status_code}
use arbor.Codec.DomainGenesis.{
  domain_genesis_tag, domain_genesis_bytes, domain_genesis_fields, decode_domain_genesis,
}
use arbor.Codec.DomainDescriptor.{
  domain_descriptor_tag, domain_descriptor_bytes, domain_descriptor_fields,
  decode_domain_descriptor,
}
use arbor.Codec.DomainBatch.{
  domain_batch_tag, domain_batch_fields, batch_bytes, encode_domain_batch, decode_domain_batch,
  decode-encode_domain_batch,
}

abbrev domain_genesis_sample : DomainGenesis
domain_genesis_sample = record {
  domain_id = 1;
  parent_domain_id = 2;
  joint_domain_block_hash = 3;
  create_tx_hash = 4;
  name = ascii "Demo";
  symbol = ascii "DMO";
  evm_chain_id = 2049;
  owner = 7;
  protocol_revision = 1;
  gas_limit = 20000000;
  initial_base_fee = 10;
  initial_supply = 1000;
  initial_state_root = 8;
}

domain_genesis_decodes :
    decode_domain_genesis (frame domain_genesis_tag (domain_genesis_bytes domain_genesis_sample))
    ≡ ok domain_genesis_sample
unfolding decode_domain_genesis domain_genesis_fields Decoder.decode_object Decoder.value_of
    Decoder.tagged Decoder.expect_tag Decoder.same_bytes Decoder.take Decoder.word Decoder.pure
    Decoder.◌>>=◌ Decoder.require Decoder.reject_if Decoder.count Decoder.bytes Decoder.text
    Decoder.finish Decoder.repeat from_be_bytes from_be to_be_bytes frame is_utf8 check_limit
    check_strictly_sorted strictly_sorted
domain_genesis_decodes = refl

abbrev domain_descriptor_sample : DomainDescriptor
domain_descriptor_sample = record {
  domain_id = 1;
  parent_domain_id = 2;
  joint_domain_block_hash = 3;
  create_tx_hash = 4;
  origin_hash = 5;
  name = ascii "Demo";
  symbol = ascii "DMO";
  evm_chain_id = 2049;
  owner = 7;
  protocol_revision = 1;
  gas_limit = 20000000;
  initial_base_fee = 10;
  initial_supply = 1000;
  creation_deposit = 8;
  status = active;
}

domain_descriptor_decodes :
    decode_domain_descriptor
      (frame domain_descriptor_tag (domain_descriptor_bytes domain_descriptor_sample))
    ≡ ok domain_descriptor_sample
unfolding decode_domain_descriptor domain_descriptor_fields Decoder.decode_object Decoder.value_of
    Decoder.tagged Decoder.expect_tag Decoder.same_bytes Decoder.take Decoder.word Decoder.pure
    Decoder.◌>>=◌ Decoder.require Decoder.reject_if Decoder.count Decoder.bytes Decoder.text
    Decoder.finish Decoder.repeat from_be_bytes from_be to_be_bytes frame is_utf8 check_limit
    check_strictly_sorted strictly_sorted status status_of status_code
domain_descriptor_decodes = refl

abbrev batch_sample : DomainBatch
batch_sample = record {
  domain_id = 1;
  parent_domain_block_hash = 2;
  transactions = (2 ∷ 7 ∷ []) ∷ [] ∷ (2 ∷ []) ∷ [];
}

decode-encode_domain_batch_example :
    (encode_domain_batch batch_sample ≡ ok (frame domain_batch_tag (batch_bytes batch_sample)))
    × (decode_domain_batch (frame domain_batch_tag (batch_bytes batch_sample)) ≡ ok batch_sample)
unfolding frame to_be_bytes
decode-encode_domain_batch_example =
    decode-encode_domain_batch batch_sample (omega arith)
      (record { transactions = omega arith; envelopes = omega arith; whole = omega arith })

domain_batch_decodes :
    decode_domain_batch (frame domain_batch_tag (batch_bytes batch_sample)) ≡ ok batch_sample
unfolding decode_domain_batch domain_batch_fields Decoder.decode_object Decoder.value_of
    Decoder.tagged Decoder.expect_tag Decoder.same_bytes Decoder.take Decoder.word Decoder.pure
    Decoder.◌>>=◌ Decoder.require Decoder.reject_if Decoder.count Decoder.bytes Decoder.text
    Decoder.finish Decoder.repeat from_be_bytes from_be to_be_bytes frame is_utf8 check_limit
    check_strictly_sorted strictly_sorted
domain_batch_decodes = refl

batch_sample-IsBytes : IsBytes (frame domain_batch_tag (batch_bytes batch_sample))
unfolding frame to_be_bytes
batch_sample-IsBytes = omega arith
