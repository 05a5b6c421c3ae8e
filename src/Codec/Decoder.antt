-- ===== src/Codec/Decoder.antt =====
-- `struct Decoder` of crates/arbor-codec/src/canonical.rs: a cursor over the input.
-- A method is an action on the decoder that fails or returns a value with the moved cursor.
use arbor.Base.{
  ℕ, zero, suc, ◌+◌, ◌^◌, Bool, true, false, not, List, [], ◌∷◌, String, Result, ok, err,
}
use arbor.Base.{length, take as take_list, drop, ltb, leb, ◌==◌, if◌then◌else◌, ◌&&◌}
use arbor.Base.Bytes.{from_be_bytes}
use arbor.Codec.Limits.{CodecError, unexpected_eof, invalid_tag, unknown_version, trailing_bytes}
use arbor.Codec.Limits.{invalid_utf8, check_limit, max_canonical_object_bytes}
use arbor.Base.Utf8.{is_utf8}
use arbor.Codec.Encoder.{canonical_codec_version}

pub record Decoder : Type 0 where
  pub input : List ℕ
  pub position : ℕ

abbrev pub Parse : Type 0 → Type 0
Parse A = Decoder → Result CodecError (A × Decoder)

unfoldable pub pure : {A : Type 0} → A → Parse A
pure a d = ok (a, d)

unfoldable pub fail : {A : Type 0} → CodecError → Parse A
fail e d = err e

-- The `?` operator.
infixl 5 ◌>>=◌ ◌>>◌
unfoldable pub ◌>>=◌ : {A B : Type 0} → Parse A → (A → Parse B) → Parse B
◌>>=◌ m f d = elim (m d) [ ok (a, d') ↦ f a d' | err e ↦ err e ]

abbrev pub ◌>>◌ : {B : Type 0} → Parse (Unit {0}) → Parse B → Parse B
m >> k = m >>= λ _. k

-- A check that does not touch the decoder.
unfoldable pub require : Result CodecError (Unit {0}) → Parse (Unit {0})
require (ok _) d = ok (tt, d)
require (err e) d = err e

-- `if test { return Err(error) }`
unfoldable pub reject_if : Bool → CodecError → Parse (Unit {0})
reject_if true e d = err e
reject_if false e d = ok (tt, d)

-- `position.checked_add(length)` on 64 bits, then `input.get(position..end)`.
unfoldable pub take : ℕ → Parse (List ℕ)
take n d =
    if leb (2 ^ 64) (d.position + n)
    then err unexpected_eof
    else if ltb (length d.input) (d.position + n)
    then err unexpected_eof
    else ok (take_list n (drop d.position d.input), record d { position = d.position + n })

-- `array::<N>` and `from_be_bytes`, or `B256::from`, on what it returns.
unfoldable pub word : ℕ → Parse ℕ
word n = do bs ← take n; pure (from_be_bytes bs)

abbrev pub u8 : Parse ℕ
u8 = word 1

abbrev pub u32 : Parse ℕ
u32 = word 4

abbrev pub u64 : Parse ℕ
u64 = word 8

abbrev pub u128 : Parse ℕ
u128 = word 16

abbrev pub b256 : Parse ℕ
b256 = word 32

abbrev pub address : Parse ℕ
address = word 20

abbrev pub bloom : Parse ℕ
bloom = word 256

abbrev pub u256 : Parse ℕ
u256 = word 32

unfoldable pub count : String → ℕ → Parse ℕ
count field limit = do n ← u32; require (check_limit field n limit); pure n

unfoldable pub bytes : String → ℕ → Parse (List ℕ)
bytes field limit = do n ← u32; require (check_limit field n limit); take n

unfoldable pub text : String → ℕ → Parse (List ℕ)
text field limit = do
  value ← bytes field limit
  reject_if (not (is_utf8 value)) (invalid_utf8 field)
  pure value

-- `decoder.take(tag.len())? != tag`
unfoldable pub same_bytes : List ℕ → List ℕ → Bool
same_bytes [] [] = true
same_bytes [] (y ∷ ys) = false
same_bytes (x ∷ xs) [] = false
same_bytes (x ∷ xs) (y ∷ ys) = x == y && same_bytes xs ys

unfoldable pub expect_tag : List ℕ → Parse (Unit {0})
unfolding same_bytes
expect_tag tag = do
  found ← take (length tag)
  reject_if (not (same_bytes found tag)) invalid_tag
  version ← u8
  reject_if (not (version == canonical_codec_version)) (unknown_version version)

unfoldable pub tagged : List ℕ → List ℕ → Result CodecError Decoder
tagged input tag = elim (check_limit "canonical object" (length input) max_canonical_object_bytes) [
  | err e ↦ err e
  | ok _ ↦ elim (expect_tag tag (record { input = input; position = 0 })) [
    | err e ↦ err e
    | ok (_, d) ↦ ok d
  ]
]

unfoldable pub finish : Parse (Unit {0})
finish d = if d.position == length d.input then ok (tt, d) else err trailing_bytes

unfoldable pub value_of : {A : Type 0} → Result CodecError (A × Decoder) → Result CodecError A
value_of (ok (a, _)) = ok a
value_of (err e) = err e

-- The frame of every `decode_*` function: `Decoder::tagged`, its own fields, `finish`.
unfoldable pub decode_object : {A : Type 0} → List ℕ → Parse A → List ℕ → Result CodecError A
decode_object tag fields input = elim (tagged input tag) [
  | err e ↦ err e
  | ok d ↦ value_of ((do value ← fields; finish; pure value) d)
]

-- `for _ in 0..count { items.push(item(decoder)?) }`
unfoldable pub repeat : {A : Type 0} → ℕ → Parse A → Parse (List A)
repeat zero m = pure []
repeat (suc n) m = do x ← m; xs ← repeat n m; pure (x ∷ xs)
