-- ===== src/Codec/Reads.antt =====
-- Decoding what was encoded: an action `Reads` a byte string if it takes exactly that string off
-- the input, wherever it stands, and returns the value.
use arbor.Base.{ℕ, ◌%◌, ◌^◌, ◌<◌, ◌≤◌, ◌≡◌, refl, ◌∙◌, Bool, true, false, arith}
use arbor.Base.{List, [], ◌∷◌, ◌++◌, append_assoc, append-nil, String, Result, ok, length}
use arbor.Base.{length-append, take-length, drop-length, All}
use arbor.Base.Bytes.{to_be_bytes, from_be_bytes, length-to_be_bytes, from_be_bytes-to_be_bytes}
use arbor.Primitives.{IsWord}
use arbor.Codec.Limits.{CodecError, check_limit, max_canonical_object_bytes}
use arbor.Base.Utf8.{is_utf8}
use arbor.Codec.Encoder.{canonical_codec_version}
use arbor.Codec.Decoder.{
  Decoder, Parse, pure, ◌>>=◌, ◌>>◌, require, reject_if, take, word, count, bytes,
}
use arbor.Codec.Decoder.{
  value_of, text, same_bytes, expect_tag, tagged, finish, decode_object, repeat,
}

-- The cursor between `pre` and `rest`.
abbrev pub at : List ℕ → List ℕ → Decoder
at pre rest = record { input = pre ++ rest; position = length pre }

-- Inputs stay below the size at which a 64-bit position could wrap.
abbrev pub Fits : List ℕ → Type 0
Fits bs = length bs < 2 ^ 64

pub record Reads {A : Type 0} (m : Parse A) (bs : List ℕ) (a : A) : Type 0 where
  pub run :
      (pre rest : List ℕ)
      → Fits (pre ++ (bs ++ rest))
      → m (at pre (bs ++ rest)) ≡ ok (a, at (pre ++ bs) rest)

-- One step of a chain, with the value that the first action returns.
pub bind-ok :
    {A B : Type 0} (m : Parse A) (f : A → Parse B) {d d' : Decoder} {a : A}
    → m d ≡ ok (a, d')
    → (m >>= f) d ≡ f a d'
unfolding ◌>>=◌
bind-ok m f h = rw (h, ◌>>=◌)

module _ {A : Type 0} where
  pub pure-Reads : (a : A) → Reads (pure a) [] a
  unfolding pure
  pure-Reads a = record { run = λ pre rest _. rw append-nil }

  pub bind-Reads :
      {B : Type 0} (m : Parse A) (f : A → Parse B) {bs cs : List ℕ} {a : A} {b : B}
      → Reads m bs a
      → Reads (f a) cs b
      → Reads (m >>= f) (bs ++ cs) b
  bind-Reads m f {bs = bs} {cs = cs} r s = record {
    run = λ pre rest fits.
        let e : (bs ++ cs) ++ rest ≡ bs ++ (cs ++ rest) = append_assoc bs cs rest in
        let e' : (pre ++ bs) ++ (cs ++ rest) ≡ pre ++ (bs ++ (cs ++ rest)) =
          append_assoc pre bs (cs ++ rest) in
        let fits' : Fits (pre ++ (bs ++ (cs ++ rest))) = rw (← e) fits in
        let step : m (at pre (bs ++ (cs ++ rest))) ≡ ok (_, at (pre ++ bs) (cs ++ rest)) =
          r.run pre (cs ++ rest) fits' in
        rw (e, ← append_assoc pre bs cs) (bind-ok m f step ∙ s.run (pre ++ bs) rest (rw e' fits'));
  }

pub reject_if-Reads : {c : Bool} (e : CodecError) → c ≡ false → Reads (reject_if c e) [] tt
unfolding reject_if
reject_if-Reads e h = record { run = λ pre rest _. rw (h, append-nil) }

pub require-Reads : {r : Result CodecError (Unit {0})} → r ≡ ok tt → Reads (require r) [] tt
unfolding require
require-Reads h = record { run = λ pre rest _. rw (h, append-nil) }

take-at :
    (n : ℕ) (pre bs rest : List ℕ)
    → length bs ≡ n
    → Fits (pre ++ (bs ++ rest))
    → take n (at pre (bs ++ rest)) ≡ ok (bs, at (pre ++ bs) rest)
unfolding take
take-at n pre bs rest h fits = rw (← h) (
    ground (
      arith,
      length-append pre (bs ++ rest),
      length-append bs rest,
      length-append pre bs,
      drop-length pre (bs ++ rest),
      take-length bs rest,
      append_assoc pre bs rest,
    ))

pub take-Reads : (n : ℕ) (bs : List ℕ) → length bs ≡ n → Reads (take n) bs bs
take-Reads n bs h = record { run = λ pre rest fits. take-at n pre bs rest h fits }

pub word-Reads : (n v : ℕ) → IsWord n v → Reads (word n) (to_be_bytes n v) v
unfolding word
word-Reads n v h =
    rw (append-nil, from_be_bytes-to_be_bytes n v h) at
      (bind-Reads _ (λ bs. pure (from_be_bytes bs))
        (take-Reads n (to_be_bytes n v) (length-to_be_bytes n v))
        (pure-Reads (from_be_bytes (to_be_bytes n v))))

-- One byte, as `push` writes it.
pub byte-Reads : {v : ℕ} → IsWord 1 v → Reads (word 1) (v ∷ []) v
unfolding to_be_bytes
byte-Reads {v} h = let e : v % 256 ≡ v = omega arith in rw e at (word-Reads 1 v h)

-- A value that is computed from what one action returns.
pub map-Reads :
    {A B : Type 0} (m : Parse A) (g : A → B) {bs : List ℕ} {a : A}
    → Reads m bs a
    → Reads (m >>= λ x. pure (g x)) bs (g a)
map-Reads m g {a = a} r = rw append-nil at (bind-Reads m (λ x. pure (g x)) r (pure-Reads (g a)))

-- An action before or after which nothing is read.
pub before-Reads :
    {A B : Type 0} (m : Parse A) (f : A → Parse B) {cs : List ℕ} {a : A} {b : B}
    → Reads m [] a
    → Reads (f a) cs b
    → Reads (m >>= f) cs b
before-Reads m f r s = bind-Reads m f r s

pub after-Reads :
    {A B : Type 0} (m : Parse A) (f : A → Parse B) {bs : List ℕ} {a : A} {b : B}
    → Reads m bs a
    → Reads (f a) [] b
    → Reads (m >>= f) bs b
after-Reads m f r s = rw append-nil at (bind-Reads m f r s)

pub check_limit-le : (field : String) {n limit : ℕ} → n ≤ limit → check_limit field n limit ≡ ok tt
unfolding check_limit
check_limit-le field h = ground arith

pub count-Reads :
    (field : String) (limit n : ℕ)
    → IsWord 4 n
    → n ≤ limit
    → Reads (count field limit) (to_be_bytes 4 n) n
unfolding count
count-Reads field limit n w h =
    after-Reads _ _ (word-Reads 4 n w)
      (before-Reads _ _ (require-Reads (check_limit-le field h)) (pure-Reads n))

pub bytes-Reads :
    (field : String) (limit : ℕ) (bs : List ℕ)
    → IsWord 4 (length bs)
    → length bs ≤ limit
    → Reads (bytes field limit) (to_be_bytes 4 (length bs) ++ bs) bs
unfolding bytes
bytes-Reads field limit bs w h =
    bind-Reads _ _ (word-Reads 4 (length bs) w)
      (before-Reads _ _ (require-Reads (check_limit-le field h)) (take-Reads _ bs refl))

pub text-Reads :
    (field : String) (limit : ℕ) (bs : List ℕ)
    → IsWord 4 (length bs)
    → length bs ≤ limit
    → is_utf8 bs ≡ true
    → Reads (text field limit) (to_be_bytes 4 (length bs) ++ bs) bs
unfolding text
text-Reads field limit bs w h u =
    after-Reads _ _ (bytes-Reads field limit bs w h)
      (before-Reads _ _ (reject_if-Reads _ (rw u refl)) (pure-Reads bs))

-- The encodings of the items of a list, one behind the other.
abbrev pub concat_map : {A : Type 0} → (A → List ℕ) → List A → List ℕ
concat_map enc [] = []
concat_map enc (x ∷ xs) = enc x ++ concat_map enc xs

pub repeat-Reads :
    {A : Type 0} (m : Parse A) (enc : A → List ℕ) (xs : List A)
    → All (λ x. Reads m (enc x) x) xs
    → Reads (repeat (length xs) m) (concat_map enc xs) xs
unfolding repeat
repeat-Reads m enc [] h = pure-Reads []
repeat-Reads m enc (x ∷ xs) h =
    bind-Reads _ _ h.0 (map-Reads _ (λ l. x ∷ l) (repeat-Reads m enc xs h.1))

pub same_bytes_self : (bs : List ℕ) → same_bytes bs bs ≡ true
unfolding same_bytes
same_bytes_self [] = refl
same_bytes_self (b ∷ bs) = ground (arith, same_bytes_self bs)

expect_tag-Reads :
    (tag : List ℕ) → Reads (expect_tag tag) (tag ++ (canonical_codec_version ∷ [])) tt
unfolding expect_tag to_be_bytes
expect_tag-Reads tag = bind-Reads _ _ (take-Reads _ tag refl) (
    before-Reads _ _ (reject_if-Reads _ (rw same_bytes_self refl)) (
      after-Reads _ _ (word-Reads 1 canonical_codec_version (omega arith))
        (reject_if-Reads _ refl)))

finish-at_end : (bs : List ℕ) → finish (at bs []) ≡ ok (tt, at bs [])
unfolding finish
finish-at_end bs = rw append-nil (ground arith)

tagged_start :
    (tag bs : List ℕ)
    → length ((tag ++ (canonical_codec_version ∷ [])) ++ bs) ≤ max_canonical_object_bytes
    → tagged ((tag ++ (canonical_codec_version ∷ [])) ++ bs) tag
      ≡ ok (at (tag ++ (canonical_codec_version ∷ [])) bs)
unfolding tagged
tagged_start tag bs h =
    rw (check_limit-le "canonical object" h, (expect_tag-Reads tag).run [] bs (omega arith), tagged)

-- The whole of an object: if its fields read the bytes behind the tag and the version, then the
-- object decodes, and nothing is left over.
pub decode_object-Reads :
    {A : Type 0} (tag : List ℕ) (fields : Parse A) {bs : List ℕ} {a : A}
    → Reads fields bs a
    → length ((tag ++ (canonical_codec_version ∷ [])) ++ bs) ≤ max_canonical_object_bytes
    → decode_object tag fields ((tag ++ (canonical_codec_version ∷ [])) ++ bs) ≡ ok a
unfolding decode_object
decode_object-Reads tag fields {bs = bs} {a = a} r h =
    let start : List ℕ = tag ++ (canonical_codec_version ∷ []) in
    let read : fields (at start bs) ≡ ok (a, at (start ++ bs) []) =
      rw (append-nil bs) at (r.run start [] (rw (append-nil bs) (omega arith))) in
    let closed : (do value ← fields; finish; pure value) (at start bs)
        ≡ pure a (at (start ++ bs) []) =
      bind-ok _ _ read ∙ bind-ok _ _ (finish-at_end (start ++ bs)) in
    rw (tagged_start tag bs h, closed, decode_object) (unfold pure value_of in refl)
