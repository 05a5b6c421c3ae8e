-- ===== src/Codec/Yields.antt =====
-- Encoding what was decoded: a logic for what an action took off the input.
-- `Yields pre m Q` says of every run of `m` behind the bytes `pre`, on bytes, that returns: the
-- cursor stands behind `all`, which is `pre` and what was taken, and `Q all` holds of the value.
use arbor.Base.{
  ℕ, ◌%◌, ap, zero, suc, ◌+◌, ◌≤◌, ◌≡◌, refl, sym, ◌∙◌, subst, Bool, true, false, not, arith,
}
use arbor.Base.{List, [], ◌∷◌, ◌++◌, append_assoc, append-nil, String, Result, ok, err, length}
use arbor.Base.{length-append, drop-length, take-append-drop, All, All-take, All-drop}
use arbor.Base.{take as take_list, drop}
use arbor.Base.Bytes.{
  IsByte, IsBytes, to_be_bytes, from_be_bytes, to_be_bytes-from_be_bytes, from_be_bytes-lt,
}
use arbor.Primitives.{IsWord}
use arbor.Codec.Limits.{CodecError, check_limit, max_canonical_object_bytes}
use arbor.Base.Utf8.{is_utf8}
use arbor.Codec.Decoder.{
  Decoder, Parse, pure, fail, ◌>>=◌, require, reject_if, take, word, count, bytes, text, repeat,
}
use arbor.Codec.Decoder.{expect_tag, same_bytes, tagged, finish, decode_object, value_of}
use arbor.Codec.Encoder.{canonical_codec_version}
use arbor.Codec.Reads.{at, concat_map}

pub record Taken {A : Type 0} (Q : List ℕ → A → Type 0) (pre rest : List ℕ) (a : A) (d : Decoder)
    : Type 0 where
  pub all : List ℕ
  pub left : List ℕ
  pub stands : d ≡ at all left
  pub splits : pre ++ rest ≡ all ++ left
  pub are_bytes : IsBytes left
  pub holds : Q all a

pub record Yields {A : Type 0} (pre : List ℕ) (m : Parse A) (Q : List ℕ → A → Type 0) : Type 0 where
  pub run :
      (rest : List ℕ) (a : A) (d : Decoder)
      → IsBytes rest
      → m (at pre rest) ≡ ok (a, d)
      → Taken Q pre rest a d

-- An action that takes exactly the encoding of the value that it returns, and ensures `P` of it.
abbrev pub Takes : {A : Type 0} → Parse A → (A → List ℕ) → (A → Type 0) → Type 0
Takes {A} m enc P = (pre : List ℕ) → Yields pre m (λ all (a : A). (all ≡ pre ++ enc a) × P a)

after_ok :
    {A B : Type 0} (f : A → Parse B) (r : Result CodecError (A × Decoder)) (b : B) (d : Decoder)
    → ◌≡◌ {A = Result CodecError (B × Decoder)}
        (elim r [ ok (a, d') ↦ f a d' | err e ↦ err e ])
        (ok (b, d))
    → (a : A) × (d' : Decoder) × (r ≡ ok (a, d')) × (f a d' ≡ ok (b, d))
after_ok f (ok (a, d')) b d h = (a, d', refl, h)
after_ok f (err e) b d h = absurd (cc)

>>=-eq_ok :
    {A B : Type 0} (m : Parse A) (f : A → Parse B) (d : Decoder) (b : B) (e : Decoder)
    → (m >>= f) d ≡ ok (b, e)
    → (a : A) × (d' : Decoder) × (m d ≡ ok (a, d')) × (f a d' ≡ ok (b, e))
unfolding ◌>>=◌
>>=-eq_ok m f d b e h = after_ok f (m d) b e h

pub pure-Yields :
    {A : Type 0} {pre : List ℕ} (a : A) (Q : List ℕ → A → Type 0) → Q pre a → Yields pre (pure a) Q
unfolding pure
pure-Yields {pre = pre} a Q q = record {
  run = λ rest a' d bytes h.
      let e : a ≡ a' = cc in
      record {
        all = pre;
        left = rest;
        stands = cc;
        splits = refl;
        are_bytes = bytes;
        holds = subst (Q pre) e q;
      };
}

pub fail-Yields :
    {A : Type 0} {pre : List ℕ} (e : CodecError) {Q : List ℕ → A → Type 0} → Yields pre (fail e) Q
unfolding fail
fail-Yields e = record { run = λ rest a d bytes h. absurd (cc) }

pub bind-Yields :
    {A B : Type 0} {pre : List ℕ} (m : Parse A) (f : A → Parse B) {P : List ℕ → A → Type 0}
    {Q : List ℕ → B → Type 0}
    → Yields pre m P
    → ((all : List ℕ) (a : A) → P all a → Yields all (f a) Q)
    → Yields pre (m >>= f) Q
unfolding ◌>>=◌
bind-Yields {pre = pre} m f {P = P} {Q = Q} y z = record {
  run = λ rest b d bytes h.
      let (a, d', first, second) = after_ok f (m (at pre rest)) b d h in
      let s = y.run rest a d' bytes first in
      let t =
        (z s.all a s.holds).run s.left b d s.are_bytes
          (subst (λ c. f a c ≡ ok (b, d)) s.stands second) in
      record {
        all = t.all;
        left = t.left;
        stands = t.stands;
        splits = s.splits ∙ t.splits;
        are_bytes = t.are_bytes;
        holds = t.holds;
      };
}

-- A check passes, and what follows may use that.
pub reject_if-Yields :
    {B : Type 0} {pre : List ℕ} (c : Bool) (e : CodecError) (k : Unit {0} → Parse B)
    {Q : List ℕ → B → Type 0}
    → (c ≡ false → Yields pre (k tt) Q)
    → Yields pre (reject_if c e >>= k) Q
unfolding ◌>>=◌ reject_if
reject_if-Yields true e k y = record { run = λ rest b d bytes h. absurd (cc) }
reject_if-Yields false e k y = record { run = λ rest b d bytes h. (y refl).run rest b d bytes h }

pub require-Yields :
    {B : Type 0} {pre : List ℕ} (r : Result CodecError (Unit {0})) (k : Unit {0} → Parse B)
    {Q : List ℕ → B → Type 0}
    → (r ≡ ok tt → Yields pre (k tt) Q)
    → Yields pre (require r >>= k) Q
unfolding ◌>>=◌ require
require-Yields (err e) k y = record { run = λ rest b d bytes h. absurd (cc) }
require-Yields (ok u) k y = record { run = λ rest b d bytes h. (y refl).run rest b d bytes h }

-- The step of most chains: a field, with what it took appended.
pub field-Yields :
    {A B : Type 0} {pre : List ℕ} (m : Parse A) (f : A → Parse B) (enc : A → List ℕ)
    {P : A → Type 0} {Q : List ℕ → B → Type 0}
    → Takes m enc P
    → ((a : A) → P a → Yields (pre ++ enc a) (f a) Q)
    → Yields pre (m >>= f) Q
field-Yields {pre = pre} m f enc {Q = Q} t z =
    bind-Yields m f (t pre) (λ all a h. subst (λ l. Yields l (f a) Q) (sym h.0) (z a h.1))

-- A weaker postcondition.
pub weaken-Yields :
    {A : Type 0} {pre : List ℕ} {m : Parse A} {P Q : List ℕ → A → Type 0}
    → Yields pre m P
    → ((all : List ℕ) (a : A) → P all a → Q all a)
    → Yields pre m Q
weaken-Yields y w = record {
  run = λ rest a d bytes h.
      let t = y.run rest a d bytes h in
      record {
        all = t.all;
        left = t.left;
        stands = t.stands;
        splits = t.splits;
        are_bytes = t.are_bytes;
        holds = w t.all a t.holds;
      };
}

not-eq_false : (b : Bool) → not b ≡ false → b ≡ true
not-eq_false true h = refl
not-eq_false false h = absurd (cc)

pub eq_of_same_bytes : (xs ys : List ℕ) → same_bytes xs ys ≡ true → xs ≡ ys
unfolding same_bytes
eq_of_same_bytes [] [] h = refl
eq_of_same_bytes [] (y ∷ ys) h = absurd (cc)
eq_of_same_bytes (x ∷ xs) [] h = absurd (cc)
eq_of_same_bytes (x ∷ xs) (y ∷ ys) h = ground (arith, eq_of_same_bytes xs ys)

last_check :
    {pre : List ℕ} (c : Bool) (e : CodecError) {Q : List ℕ → Unit {0} → Type 0}
    → (c ≡ false → Q pre tt)
    → Yields pre (reject_if c e) Q
unfolding reject_if
last_check true e q = record { run = λ rest b d bytes h. absurd (cc) }
last_check false e {Q = Q} q = unfold pure in pure-Yields tt Q (q refl)

take_inv :
    (n : ℕ) (pre rest bs : List ℕ) (d : Decoder)
    → take n (at pre rest) ≡ ok (bs, d)
    → (bs ≡ take_list n rest)
      × (n ≤ length rest)
      × (d ≡ record { input = pre ++ rest; position = length pre + n })
unfolding take
take_inv n pre rest bs d h = ground (arith, length-append pre rest, drop-length pre rest)

pub length-take_le : (n : ℕ) (xs : List ℕ) → n ≤ length xs → length (take_list n xs) ≡ n
length-take_le zero xs h = refl
length-take_le (suc n) [] h = absurd (omega arith)
length-take_le (suc n) (x ∷ xs) h = omega (arith, length-take_le n xs)

abbrev path_of : {x y : Decoder} → x.input ≡ y.input → x.position ≡ y.position → x ≡ y
path_of p q = λ i. record { input = p i; position = q i }

pub take-Takes : (n : ℕ) → Takes (take n) (λ bs. bs) (λ bs. (length bs ≡ n) × IsBytes bs)
take-Takes n pre = record {
  run = λ rest bs d are_bytes h.
      let (e, long, moved) = take_inv n pre rest bs d h in
      let size : length bs ≡ n = rw e (length-take_le n rest long) in
      let split : pre ++ rest ≡ (pre ++ bs) ++ drop n rest =
        rw (append_assoc pre bs (drop n rest), e, take-append-drop n rest) in
      record {
        all = pre ++ bs;
        left = drop n rest;
        stands = moved ∙ path_of split (omega (arith, length-append pre bs));
        splits = split;
        are_bytes = All-drop IsByte n rest are_bytes;
        holds = (refl, (size, rw e (All-take IsByte n rest are_bytes)));
      };
}

-- An action that takes an encoding, and a value that is computed from what it returns.
pub map-Takes :
    {A B : Type 0} (m : Parse A) (g : A → B) (enc : A → List ℕ) (enc' : B → List ℕ) {P : A → Type 0}
    {Q : B → Type 0}
    → Takes m enc P
    → ((a : A) → P a → (enc a ≡ enc' (g a)) × Q (g a))
    → Takes (m >>= λ a. pure (g a)) enc' Q
map-Takes m g enc enc' t same pre =
    field-Yields m (λ a. pure (g a)) enc t
      (λ a p. pure-Yields (g a) _ (ap (λ l. pre ++ l) (same a p).0, (same a p).1))

pub word-Takes : (n : ℕ) → Takes (word n) (to_be_bytes n) (IsWord n)
unfolding word
word-Takes n =
    map-Takes (take n) from_be_bytes (λ bs. bs) (to_be_bytes n) (take-Takes n)
      (λ bs h.
        (rw (← h.0) (sym (to_be_bytes-from_be_bytes bs h.1)), rw (← h.0) (from_be_bytes-lt bs h.1)))

one_byte : (v : ℕ) → IsWord 1 v → to_be_bytes 1 v ≡ v ∷ []
unfolding to_be_bytes
one_byte v h = let e : v % 256 ≡ v = omega arith in rw e

pub byte-Takes : Takes (word 1) (λ v. v ∷ []) (IsWord 1)
byte-Takes pre =
    weaken-Yields (word-Takes 1 pre) (λ all v h. (h.0 ∙ ap (λ l. pre ++ l) (one_byte v h.1), h.1))

check_limit-le_of : (field : String) {n limit : ℕ} → check_limit field n limit ≡ ok tt → n ≤ limit
unfolding check_limit
check_limit-le_of field h = ground arith

pub count-Takes :
    (field : String) (limit : ℕ)
    → Takes (count field limit) (to_be_bytes 4) (λ n. IsWord 4 n × (n ≤ limit))
unfolding count
count-Takes field limit pre =
    field-Yields (word 4) _ (to_be_bytes 4) (word-Takes 4)
      (λ n w. require-Yields _ _ (λ h. pure-Yields n _ (refl, (w, check_limit-le_of field h))))

-- What `Encoder::bytes` writes: the length and the bytes.
abbrev pub sized : List ℕ → List ℕ
sized bs = to_be_bytes 4 (length bs) ++ bs

abbrev pub IsSized : ℕ → List ℕ → Type 0
IsSized limit bs = (length bs ≤ limit) × IsBytes bs

pub bytes-Takes : (field : String) (limit : ℕ) → Takes (bytes field limit) sized (IsSized limit)
unfolding bytes
bytes-Takes field limit pre = field-Yields (word 4) _ (to_be_bytes 4) (word-Takes 4) (λ n w.
    require-Yields _ _ (λ h. weaken-Yields (take-Takes n (pre ++ to_be_bytes 4 n)) (λ all bs q. (
      rw (q.1.0) (q.0 ∙ append_assoc pre (to_be_bytes 4 n) bs),
      (rw (q.1.0) (check_limit-le_of field h), q.1.1),
    ))))

pub text-Takes :
    (field : String) (limit : ℕ)
    → Takes (text field limit) sized (λ bs. IsSized limit bs × (is_utf8 bs ≡ true))
unfolding text
text-Takes field limit pre =
    field-Yields (bytes field limit) _ sized (bytes-Takes field limit) (λ bs h.
      reject_if-Yields _ _ _ (λ u. pure-Yields bs _ (refl, (h, not-eq_false (is_utf8 bs) u))))

pub repeat-Takes :
    {A : Type 0} (m : Parse A) (enc : A → List ℕ) {P : A → Type 0}
    → Takes m enc P
    → (n : ℕ) → Takes (repeat n m) (concat_map enc) (λ xs. (length xs ≡ n) × All P xs)
unfolding repeat
repeat-Takes m enc t zero pre = pure-Yields [] _ (sym (append-nil pre), (refl, tt))
repeat-Takes m enc {P = P} t (suc n) pre = field-Yields m _ enc t (λ x p.
    field-Yields (repeat n m) _ (concat_map enc) (repeat-Takes m enc {P = P} t n) (λ xs q.
      pure-Yields (x ∷ xs) _
        (append_assoc pre (enc x) (concat_map enc xs), (ap suc q.0, (p, q.1)))))

expect_tag-Takes :
    (tag : List ℕ)
    → Takes (expect_tag tag) (λ _. tag ++ (canonical_codec_version ∷ [])) (λ _. Unit {0})
unfolding expect_tag
expect_tag-Takes tag pre =
    field-Yields (take (length tag)) _ (λ bs. bs) (take-Takes (length tag))
      (λ found p. reject_if-Yields _ _ _ (λ same.
        let e : found ≡ tag =
          eq_of_same_bytes found tag (not-eq_false (same_bytes found tag) same) in
        field-Yields (word 1) _ (λ v. v ∷ []) byte-Takes
          (λ v w. last_check _ _ (λ h.
            let one : v ≡ canonical_codec_version = ground arith in
            (rw (e, one) (append_assoc pre tag (canonical_codec_version ∷ [])), tt)))))

-- Inversion of the frame of a decoder.
tagged_inv :
    (input tag : List ℕ) (d : Decoder)
    → tagged input tag ≡ ok d
    → (length input ≤ max_canonical_object_bytes) × (expect_tag tag (at [] input) ≡ ok (tt, d))
unfolding tagged check_limit
tagged_inv input tag d h = ground arith

value_of-eq_ok :
    {A : Type 0} (r : Result CodecError (A × Decoder)) (a : A)
    → value_of r ≡ ok a
    → (d : Decoder) × (r ≡ ok (a, d))
unfolding value_of
value_of-eq_ok (ok (b, d)) a h = (d, cc)
value_of-eq_ok (err e) a h = absurd (cc)

opened_inv :
    {A : Type 0} (k : Decoder → Result CodecError A) (r : Result CodecError Decoder) (a : A)
    → ◌≡◌ {A = Result CodecError A} (elim r [ err e ↦ err e | ok d ↦ k d ]) (ok a)
    → (d : Decoder) × (r ≡ ok d) × (k d ≡ ok a)
opened_inv k (ok d) a h = (d, refl, h)
opened_inv k (err e) a h = absurd (cc)

nil_of_length : (all left : List ℕ) → length all ≡ length (all ++ left) → left ≡ []
nil_of_length all [] h = refl
nil_of_length all (x ∷ left) h = absurd (omega (arith, length-append all (x ∷ left)))

finish_inv : (all left : List ℕ) (d : Decoder) → finish (at all left) ≡ ok (tt, d) → left ≡ []
unfolding finish
finish_inv all left d h = nil_of_length all left (ground arith)

-- The whole of an object: what its fields ensure of the bytes behind the tag and the version
-- holds of the whole input.
pub decode_object-eq_ok :
    {A : Type 0} (tag : List ℕ) (fields : Parse A) {Q : List ℕ → A → Type 0} (input : List ℕ)
    {a : A}
    → Yields (tag ++ (canonical_codec_version ∷ [])) fields Q
    → IsBytes input
    → decode_object tag fields input ≡ ok a
    → Q input a × (length input ≤ max_canonical_object_bytes)
unfolding decode_object
decode_object-eq_ok tag fields {Q = Q} input {a = a} y are_bytes h =
    let (d, open_ok, rest_ok) = opened_inv _ (tagged input tag) a h in
    let (e, run_ok) = value_of-eq_ok _ a rest_ok in
    let (fits, tag_ok) = tagged_inv input tag d open_ok in
    let opened = (expect_tag-Takes tag []).run input tt d are_bytes tag_ok in
    let (v, d', fields_ok, close_ok) = >>=-eq_ok fields _ d a e run_ok in
    let start : List ℕ = tag ++ (canonical_codec_version ∷ []) in
    let here : d ≡ at start opened.left =
      opened.stands ∙ ap (λ l. at l opened.left) opened.holds.0 in
    let read =
      y.run opened.left v d' opened.are_bytes (subst (λ c. fields c ≡ ok (v, d')) here fields_ok) in
    let (u, d'', finish_ok, pure_ok) = >>=-eq_ok finish _ d' a e close_ok in
    let none_left : read.left ≡ [] =
      finish_inv read.all read.left d''
        (subst (λ c. finish c ≡ ok (u, d'')) read.stands finish_ok) in
    let same : v ≡ a = unfold pure in cc in
    let whole : input ≡ read.all =
      opened.splits
      ∙ ap (λ l. l ++ opened.left) opened.holds.0
      ∙ read.splits
      ∙ ap (λ l. read.all ++ l) none_left
      ∙ append-nil read.all in
    (subst (λ i. Q i a) (sym whole) (subst (Q read.all) same read.holds), fits)
