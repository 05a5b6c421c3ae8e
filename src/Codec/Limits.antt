-- ===== src/Codec/Limits.antt =====
-- Errors and limits of crates/arbor-codec/src/lib.rs, and the two checks of canonical.rs that
-- encoders and decoders share.
use arbor.Base.{ℕ, ◌*◌, Bool, true, List, [], ◌∷◌, ◌&&◌, String, Result, ok, err, ltb}
use arbor.Base.{if◌then◌else◌}
use Prim.Native.Char.{code}

-- The bytes of an ASCII literal, `b"…"`.
abbrev pub ascii : String → List ℕ
ascii String.[] = []
ascii (String.◌∷◌ c s) = code c ∷ ascii s

pub data CodecError : Type 0 where
  unexpected_eof invalid_tag trailing_bytes : CodecError
  unknown_version : ℕ → CodecError
  -- the kind or the field, the limit and the observed length
  input_too_large : String → ℕ → ℕ → CodecError
  limit_exceeded : String → ℕ → ℕ → CodecError
  invalid_utf8 invalid_value non_canonical_order rlp : String → CodecError

abbrev pub max_transaction_envelope_bytes : ℕ
max_transaction_envelope_bytes = 256 * 1024

abbrev pub max_transactions_per_batch : ℕ
max_transactions_per_batch = 10000

abbrev pub max_active_validators : ℕ
max_active_validators = 100

abbrev pub max_canonical_object_bytes : ℕ
max_canonical_object_bytes = 16 * 1024 * 1024

-- `Err(..)` under a test, with `?` behind it.
unfoldable pub check_limit : String → ℕ → ℕ → Result CodecError (Unit {0})
check_limit field actual limit =
    if ltb limit actual then err (limit_exceeded field limit actual) else ok tt

-- `values.windows(2).all(|pair| pair[0] < pair[1])`, which holds of fewer than two values.
unfoldable pub strictly_sorted : List ℕ → Bool
strictly_sorted [] = true
strictly_sorted (x ∷ []) = true
strictly_sorted (x ∷ y ∷ r) = ltb x y && strictly_sorted (y ∷ r)

unfoldable pub check_strictly_sorted : List ℕ → String → Result CodecError (Unit {0})
check_strictly_sorted values field =
    if strictly_sorted values then ok tt else err (non_canonical_order field)
