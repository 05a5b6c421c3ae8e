-- ===== src/System/Names.antt =====
-- `normalize_name` and `normalize_symbol` of crates/arbor-system/src/lib.rs, with what they use of `str`.
use arbor.Base.{
  ℕ, zero, suc, ◌-◌, ◌≤◌, ◌≡◌, Bool, true, false, not, ◌&&◌, ◌||◌, List, [], ◌∷◌, ◌++◌, map, Result,
  ok, length, ltb, leb, ◌==◌, if◌then◌else◌, arith,
}
use arbor.Base.Outcome.{◌>>◌, fail_if}
use arbor.Base.Utf8.{is_utf8}
use arbor.Primitives.{Bytes}
use arbor.System.{ChainRegistryError, invalid_metadata}

-- The space, tab, line feed, form feed and carriage return.
unfoldable pub is_ascii_whitespace : ℕ → Bool
is_ascii_whitespace b = (b == 32) || (b == 9) || (b == 10) || (b == 12) || (b == 13)

unfoldable pub is_ascii_alphanumeric : ℕ → Bool
is_ascii_alphanumeric b =
    (leb 48 b && leb b 57) || (leb 65 b && leb b 90) || (leb 97 b && leb b 122)

unfoldable pub to_ascii_uppercase : ℕ → ℕ
to_ascii_uppercase b = if leb 97 b && leb b 122 then b - 32 else b

unfoldable pub all_bytes : (ℕ → Bool) → Bytes → Bool
all_bytes p [] = true
all_bytes p (b ∷ bs) = p b && all_bytes p bs

unfoldable pub add_word : Bytes → List Bytes → List Bytes
add_word [] words = words
add_word (b ∷ bs) words = (b ∷ bs) ∷ words

-- The words of a text that stands behind the start of a word.
unfoldable pub split_ascii_whitespace : Bytes → Bytes → List Bytes
split_ascii_whitespace word [] = add_word word []
split_ascii_whitespace word (b ∷ bs) = elim (is_ascii_whitespace b) [
  | true ↦ add_word word (split_ascii_whitespace [] bs)
  | false ↦ split_ascii_whitespace (word ++ b ∷ []) bs
]

-- `join(" ")`
unfoldable pub join : List Bytes → Bytes
join [] = []
join (word ∷ []) = word
join (word ∷ next ∷ words) = word ++ (32 ∷ join (next ∷ words))

unfoldable pub is_empty : Bytes → Bool
is_empty [] = true
is_empty (b ∷ bs) = false

unfoldable pub normalize_name : Bytes → Result ChainRegistryError Bytes
normalize_name bytes =
    let normalized = join (split_ascii_whitespace [] bytes) in
    do
      fail_if (not (is_utf8 bytes)) invalid_metadata
      fail_if
          (is_empty normalized
            || ltb 64 (length normalized)
            || not (
                all_bytes
                  (λ b. is_ascii_alphanumeric b || (b == 32) || (b == 45) || (b == 95) || (b == 46))
                  normalized))
          invalid_metadata
      ok normalized

-- The bytes of the whitespace character that a text starts with, zero if it starts with none: those of
-- the Unicode property White_Space.
unfoldable pub whitespace_width : Bytes → ℕ
whitespace_width [] = 0
whitespace_width (a ∷ []) = if (leb 9 a && leb a 13) || (a == 32) then 1 else 0
whitespace_width (a ∷ b ∷ []) =
    if (leb 9 a && leb a 13) || (a == 32)
    then 1
    else if (a == 0xC2) && ((b == 0x85) || (b == 0xA0))
    then 2
    else 0
whitespace_width (a ∷ b ∷ c ∷ bs) =
    if (leb 9 a && leb a 13) || (a == 32)
    then 1
    else if (a == 0xC2) && ((b == 0x85) || (b == 0xA0))
    then 2
    else if ((a == 0xE1) && (b == 0x9A) && (c == 0x80))
        || ((a == 0xE2)
            && (b == 0x80)
            && ((leb 0x80 c && leb c 0x8A) || (c == 0xA8) || (c == 0xA9) || (c == 0xAF)))
        || ((a == 0xE2) && (b == 0x81) && (c == 0x9F))
        || ((a == 0xE3) && (b == 0x80) && (c == 0x80))
    then 3
    else 0

-- The text without its first bytes, so many, and without the whitespace behind them.
unfoldable pub trim_start : ℕ → Bytes → Bytes
trim_start skip [] = []
trim_start (suc skip) (b ∷ bs) = trim_start skip bs
trim_start zero (b ∷ bs) = elim (whitespace_width (b ∷ bs)) [
  | zero ↦ b ∷ bs
  | suc skip ↦ trim_start skip bs
]

-- The text up to its last character that is not whitespace: of a text that is all whitespace, nothing.
unfoldable pub trim_end : Bytes → Bytes
trim_end [] = []
trim_end (b ∷ bs) = if is_empty (trim_start 0 (b ∷ bs)) then [] else b ∷ trim_end bs

unfoldable pub normalize_symbol : Bytes → Result ChainRegistryError Bytes
normalize_symbol bytes =
    let normalized = map to_ascii_uppercase (trim_end (trim_start 0 bytes)) in
    do
      fail_if (not (is_utf8 bytes)) invalid_metadata
      fail_if
          (is_empty normalized
            || ltb 16 (length normalized)
            || not (all_bytes is_ascii_alphanumeric normalized))
          invalid_metadata
      ok normalized

pub length-normalize_name :
    (bytes : Bytes) {name : Bytes} → normalize_name bytes ≡ ok name → length name ≤ 64
unfolding normalize_name
length-normalize_name bytes h = ground (arith, h)

pub length-normalize_symbol :
    (bytes : Bytes) {symbol : Bytes} → normalize_symbol bytes ≡ ok symbol → length symbol ≤ 16
unfolding normalize_symbol
length-normalize_symbol bytes h = ground (arith, h)
