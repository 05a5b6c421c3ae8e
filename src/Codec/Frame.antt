-- ===== src/Codec/Frame.antt =====
-- What `Encoder::finish` returns, and the round trip of a whole object: the tag, the version and
-- the bytes of the fields.
use arbor.Base.{
  ℕ, String, true, ◌≡◌, ◌≤◌, ◌+◌, sym, ap, ◌∙◌, List, [], ◌∷◌, ◌++◌, ok, arith, length,
  length-append,
}
use arbor.Base.Bytes.{IsBytes}
use arbor.Codec.Limits.{
  strictly_sorted, check_strictly_sorted, max_canonical_object_bytes, check_limit,
}
use arbor.Codec.Encoder.{Encoder, finish, canonical_codec_version}
use arbor.Codec.Decoder.{Parse, decode_object}
use arbor.Codec.Reads.{Reads, decode_object-Reads}
use arbor.Codec.Yields.{Yields, decode_object-eq_ok}

unfoldable pub frame : List ℕ → List ℕ → List ℕ
frame tag bs = (tag ++ (canonical_codec_version ∷ [])) ++ bs

pub length-frame : (tag bs : List ℕ) → length (frame tag bs) ≡ length tag + 1 + length bs
unfolding frame
length-frame tag bs = omega (
  arith,
  length-append (tag ++ (canonical_codec_version ∷ [])) bs,
  length-append tag (canonical_codec_version ∷ []),
)

pub Encoder-eq : {e f : Encoder} → e.bytes ≡ f.bytes → e ≡ f
Encoder-eq p = λ i. record { bytes = p i }

pub sorted_of :
    (ids : List ℕ) (field : String)
    → check_strictly_sorted ids field ≡ ok tt
    → strictly_sorted ids ≡ true
unfolding check_strictly_sorted
sorted_of ids field h = ground arith

-- `finish` returns the bytes exactly when they are within the budget.
pub finish-eq_ok :
    (e : Encoder) {bs : List ℕ}
    → finish e ≡ ok bs
    → (bs ≡ e.bytes) × (length e.bytes ≤ max_canonical_object_bytes)
unfolding finish check_limit
finish-eq_ok e h = ground arith

pub finish_fits :
    (e : Encoder) → length e.bytes ≤ max_canonical_object_bytes → finish e ≡ ok e.bytes
unfolding finish check_limit
finish_fits e h = ground arith

-- What an encoder wrote as a frame decodes to the value that its fields read.
pub decode_object-finish :
    {A : Type 0} (tag : List ℕ) (fields : Parse A) (e : Encoder) {bs out : List ℕ} {a : A}
    → Reads fields bs a
    → e.bytes ≡ frame tag bs
    → finish e ≡ ok out
    → decode_object tag fields out ≡ ok a
unfolding frame
decode_object-finish tag fields e {bs = bs} r framed h =
    let (same, fits) = finish-eq_ok e h in
    rw (same, framed) (decode_object-Reads tag fields r (rw framed at fits))

-- A decoder whose fields ensure that they are what `e` writes accepts only what `e` encodes to.
pub finish-decode_object :
    {A : Type 0} (tag : List ℕ) (fields : Parse A) (e : A → Encoder) {P : A → Type 0}
    {input : List ℕ} {a : A}
    → Yields (tag ++ (canonical_codec_version ∷ [])) fields (λ all b. (all ≡ (e b).bytes) × P b)
    → IsBytes input
    → decode_object tag fields input ≡ ok a
    → (finish (e a) ≡ ok input) × P a
finish-decode_object tag fields e {input = input} {a = a} y are_bytes h =
    let (q, fits) = decode_object-eq_ok tag fields input y are_bytes h in
    let done : finish (e a) ≡ ok (e a).bytes = finish_fits (e a) (rw (← q.0) fits) in
    (done ∙ ap ok (sym q.0), q.1)
