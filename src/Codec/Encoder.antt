-- ===== src/Codec/Encoder.antt =====
-- `struct Encoder` of crates/arbor-codec/src/canonical.rs: a growing byte string.
-- `out.u32(x); out.u64(y)` is `out ▷ u32 x ▷ u64 y`.
use arbor.Base.{ℕ, List, [], ◌∷◌, ◌++◌, Result, ok, err, length}
use arbor.Base.Bytes.{to_be_bytes}
use arbor.Codec.Limits.{CodecError, check_limit, max_canonical_object_bytes}

pub record Encoder : Type 0 where
  pub bytes : List ℕ

infixl 2 ◌▷◌
abbrev pub ◌▷◌ : {B : Type 0} → Encoder → (Encoder → B) → B
e ▷ f = f e

abbrev pub canonical_codec_version : ℕ
canonical_codec_version = 1

-- `self.bytes.extend_from_slice(value)`
abbrev pub extend : List ℕ → Encoder → Encoder
extend bs e = record { bytes = e.bytes ++ bs }

unfoldable pub tagged : List ℕ → Encoder
tagged tag = record { bytes = tag ++ (canonical_codec_version ∷ []) }

unfoldable pub u8 : ℕ → Encoder → Encoder
u8 v = extend (v ∷ [])

unfoldable pub u32 : ℕ → Encoder → Encoder
u32 v = extend (to_be_bytes 4 v)

unfoldable pub u64 : ℕ → Encoder → Encoder
u64 v = extend (to_be_bytes 8 v)

unfoldable pub u128 : ℕ → Encoder → Encoder
u128 v = extend (to_be_bytes 16 v)

unfoldable pub b256 : ℕ → Encoder → Encoder
b256 v = extend (to_be_bytes 32 v)

unfoldable pub address : ℕ → Encoder → Encoder
address v = extend (to_be_bytes 20 v)

unfoldable pub bloom : ℕ → Encoder → Encoder
bloom v = extend (to_be_bytes 256 v)

unfoldable pub u256 : ℕ → Encoder → Encoder
u256 v = extend (to_be_bytes 32 v)

-- The two conversions to `u32` panic from 2^32 on. Every caller has checked a limit below that.
unfoldable pub put_bytes : List ℕ → Encoder → Encoder
unfolding u32
put_bytes value e = e ▷ u32 (length value) ▷ extend value

unfoldable pub count : ℕ → Encoder → Encoder
unfolding u32
count value = u32 value

unfoldable pub finish : Encoder → Result CodecError (List ℕ)
finish e = elim (check_limit "canonical object" (length e.bytes) max_canonical_object_bytes) [
  | ok _ ↦ ok e.bytes
  | err x ↦ err x
]
