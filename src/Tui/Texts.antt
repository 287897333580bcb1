-- ===== src/Tui/Texts.antt =====
-- The functions on texts and lists of internal/tui/commands.go.
use new_era.Prelude.{
  ℕ, ◌+◌, ◌-◌, ◌*◌, ◌/◌, ◌%◌, Bool, true, false, not, ◌&&◌, ◌||◌, Option, none, some, List, [], ◌∷◌,
  ◌++◌, map, Result, ok, err, if◌then◌else◌, ltb, leb, ◌==◌, length, take, drop,
}
use new_era.Prelude.Int.{ℤ, pos, leb_ℤ, to_ℕ}
use new_era.Prelude.Text.{Text, codes, is_empty, is_space, trim_space, to_lower, has_prefix}
use new_era.Reader18.Crc.{Bytes}
use new_era.Sdk.Receive.{upper_hex}

-- strings.Fields
unfoldable pub starts_word : Text → Bool
starts_word [] = false
starts_word (c ∷ s) = not (is_space c)

unfoldable pub prepend : ℕ → List Text → List Text
prepend c [] = (c ∷ []) ∷ []
prepend c (word ∷ words) = (c ∷ word) ∷ words

unfoldable pub fields : Text → List Text
unfolding starts_word prepend
fields [] = []
fields (c ∷ s) =
    let words = fields s in
    if is_space c then words else if starts_word s then prepend c words else (c ∷ []) ∷ words

-- The replacer: ',', ':', '\n', '\r' and '\t' become spaces.
unfoldable pub separate : ℕ → ℕ
separate c = if c == 44 || c == 58 || c == 10 || c == 13 || c == 9 then 32 else c

-- hex.DecodeString
unfoldable pub hex_value : ℕ → Option ℕ
hex_value c =
    if leb 48 c && leb c 57
    then some (c - 48)
    else if leb 97 c && leb c 102
    then some (c - 87)
    else if leb 65 c && leb c 70
    then some (c - 55)
    else none

abbrev pub join_digits : Option ℕ → Option ℕ → Option Bytes → Option Bytes
join_digits (some high) (some low) (some bytes) = some ((high * 16 + low) ∷ bytes)
join_digits _ _ _ = none

unfoldable pub decode_hex : Text → Option Bytes
unfolding hex_value
decode_hex [] = some []
decode_hex (c ∷ []) = none
decode_hex (c ∷ d ∷ s) = join_digits (hex_value c) (hex_value d) (decode_hex s)

pub data HexError : Type 0 where
  empty_input no_hex_bytes_found no_hex_bytes_parsed : HexError
  invalid_token : Text → HexError

-- A token without its prefix, filled up to an even length.
unfoldable pub normal_token : Text → Text
normal_token token =
    let lowered = to_lower (trim_space token) in
    let norm = if has_prefix lowered (codes "0x") then drop 2 lowered else lowered in
    if is_empty norm then [] else if length norm % 2 == 0 then norm else 48 ∷ norm

-- The loop over the tokens; an empty token decodes to nothing.
unfoldable pub decode_tokens : List Text → Result HexError Bytes
unfolding normal_token decode_hex
decode_tokens [] = ok []
decode_tokens (token ∷ tokens) =
    let rest = decode_tokens tokens in
    elim (decode_hex (normal_token token)) [
      | none ↦ err (invalid_token token)
      | some bytes ↦ (elim rest [ err e ↦ err e | ok more ↦ ok (bytes ++ more) ])
    ]

abbrev pub some_bytes : Result HexError Bytes → Result HexError Bytes
some_bytes (err e) = err e
some_bytes (ok bytes) = if length bytes == 0 then err no_hex_bytes_parsed else ok bytes

unfoldable pub parse_hex_input : Text → Result HexError Bytes
unfolding fields separate decode_tokens
parse_hex_input input =
    let text = trim_space input in
    let tokens = fields (map separate text) in
    if is_empty text
    then err empty_input
    else if length tokens == 0
    then err no_hex_bytes_found
    else some_bytes (decode_tokens tokens)

unfoldable pub pairs : Text → List Text
pairs [] = []
pairs (c ∷ []) = []
pairs (c ∷ d ∷ s) = (c ∷ d ∷ []) ∷ pairs s

-- strings.Join(parts, " ")
unfoldable pub join_words : List Text → Text
join_words [] = []
join_words (word ∷ []) = word
join_words (word ∷ next ∷ words) = word ++ (32 ∷ join_words (next ∷ words))

unfoldable pub format_hex : Bytes → ℕ → Text
unfolding pairs join_words
format_hex bytes max_bytes =
    let out = join_words (pairs (upper_hex (take max_bytes bytes))) in
    if length bytes == 0
    then []
    else if ltb max_bytes (length bytes)
    then out ++ codes " ..."
    else out

-- strings.ReplaceAll(text, " ", "")
unfoldable pub without_spaces : Text → Text
without_spaces [] = []
without_spaces (c ∷ s) = let rest = without_spaces s in if c == 32 then rest else c ∷ rest

-- The digits 1 to 9 count from 0; the second part is whether the key is one.
unfoldable pub parse_digit : Text → ℕ × Bool
parse_digit [] = (0, false)
parse_digit (c ∷ []) = if leb 49 c && leb c 57 then (c - 49, true) else (0, false)
parse_digit (c ∷ d ∷ s) = (0, false)

-- A text is a list of runes.
unfoldable pub trim_text : Text → ℤ → Text
trim_text input max =
    if leb_ℤ max (pos 0)
    then []
    else if leb (length input) (to_ℕ max)
    then input
    else if leb_ℤ max (pos 3)
    then take (to_ℕ max) input
    else take (to_ℕ max - 3) input ++ codes "..."

-- The places of a list that a window shows; `total` and `window` are not negative, and the start is
-- 0 where the source's is negative.
unfoldable pub list_window : ℕ → ℕ → ℕ → ℕ × ℕ
list_window cursor total window =
    let start = cursor - window / 2 in
    if total == 0
    then (0, 0)
    else if window == 0 || leb total window
    then (0, total)
    else if ltb total (start + window)
    then (total - window, total)
    else (start, start + window)
