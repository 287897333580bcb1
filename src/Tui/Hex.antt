-- ===== src/Tui/Hex.antt =====
-- parseHexInput of internal/tui/commands.go reads what formatHex writes.
use new_era.Prelude.{
  ℕ, ◌+◌, ◌*◌, ◌/◌, ◌%◌, ◌≤◌, ◌<◌, ◌≡◌, refl, ap, ◌∙◌, Bool, true, false, ◌&&◌, ◌||◌, some, List,
  [], ◌∷◌, map, Result, ok, err, if◌then◌else◌, leb, ◌==◌, length, drop, take_all, All, arith,
}
use new_era.Prelude.Text.{
  Text, codes, is_empty, is_space, trim_space, trim_left, trim_right, to_lower, lower, has_prefix,
}
use new_era.Reader18.Crc.{Bytes, IsByte}
use new_era.Sdk.Receive.{upper_hex, hex_digit}
use new_era.Tui.Texts.{
  HexError, empty_input, no_hex_bytes_found, starts_word, prepend, fields, separate, hex_value,
  join_digits, decode_hex, normal_token, decode_tokens, some_bytes, parse_hex_input, pairs,
  join_words, format_hex,
}

-- A digit that formatHex writes: 0 to 9 or A to F.
abbrev is_digit : ℕ → Bool
is_digit c = leb 48 c && leb c 57 || leb 65 c && leb c 70

digit_of : (d : ℕ) → d < 16 → is_digit (hex_digit d) ≡ true
digit_of d h = ground arith

-- One digit, read back from its small letter.
value_of : (d : ℕ) → d < 16 → hex_value (lower (hex_digit d)) ≡ some d
unfolding hex_value lower
value_of d h = ground arith

digits_of :
    (b : ℕ)
    → b < 256
    → (is_digit (hex_digit (b / 16)) ≡ true) × (is_digit (hex_digit (b % 16)) ≡ true)
digits_of b h = (digit_of (b / 16) (omega arith), digit_of (b % 16) (omega arith))

trim_two : (x y : ℕ) → is_digit x ≡ true → is_digit y ≡ true → trim_space (x ∷ y ∷ []) ≡ x ∷ y ∷ []
unfolding trim_space trim_left trim_right is_space is_empty
trim_two x y hx hy = ground arith

normal_two :
    (x y : ℕ)
    → is_digit x ≡ true
    → is_digit y ≡ true
    → normal_token (x ∷ y ∷ []) ≡ lower x ∷ lower y ∷ []
unfolding normal_token to_lower has_prefix is_empty lower
normal_two x y hx hy =
    ap
      (λ (t : Text).
        let lowered = to_lower t in
        let norm = if has_prefix lowered (codes "0x") then drop 2 lowered else lowered in
        if is_empty norm then [] else if length norm % 2 == 0 then norm else 48 ∷ norm)
      (trim_two x y hx hy)
    ∙ ground arith

decode_two :
    (b : ℕ)
    → b < 256
    → decode_hex (normal_token (hex_digit (b / 16) ∷ hex_digit (b % 16) ∷ [])) ≡ some (b ∷ [])
unfolding decode_hex
decode_two b h =
    let (high, low) = digits_of b h in
    let whole : b / 16 * 16 + b % 16 ≡ b = omega arith in
    ap decode_hex (normal_two (hex_digit (b / 16)) (hex_digit (b % 16)) high low)
    ∙ (λ i.
        join_digits (value_of (b / 16) (omega arith) i) (value_of (b % 16) (omega arith) i)
          (some []))
    ∙ (λ i. some (whole i ∷ []))

decode_pairs :
    (bytes : Bytes) → All IsByte bytes → decode_tokens (pairs (upper_hex bytes)) ≡ ok bytes
unfolding decode_tokens pairs upper_hex
decode_pairs [] h = refl
decode_pairs (b ∷ bytes) (h, k) = ground (arith, decode_two b h, decode_pairs bytes k)

abbrev joined : Bytes → Text
joined bytes = join_words (pairs (upper_hex bytes))

separate_digit : (x : ℕ) → is_digit x ≡ true → separate x ≡ x
unfolding separate
separate_digit x h = ground arith

separate-joined : (bytes : Bytes) → All IsByte bytes → map separate (joined bytes) ≡ joined bytes
unfolding join_words pairs upper_hex separate
separate-joined [] h = refl
separate-joined (b ∷ []) (h, k) =
    let (high, low) = digits_of b h in
    λ i. separate_digit (hex_digit (b / 16)) high i ∷ separate_digit (hex_digit (b % 16)) low i ∷ []
separate-joined (b ∷ c ∷ bytes) (h, k) =
    let (high, low) = digits_of b h in
    λ i.
      separate_digit (hex_digit (b / 16)) high i
      ∷ separate_digit (hex_digit (b % 16)) low i
      ∷ 32
      ∷ separate-joined (c ∷ bytes) k i

not_space : (x : ℕ) → is_digit x ≡ true → is_space x ≡ false
unfolding is_space
not_space x h = ground arith

trim_right_step :
    (x y : ℕ) (rest : Text)
    → is_space x ≡ false
    → is_space y ≡ false
    → is_empty rest ≡ false
    → trim_right rest ≡ rest
    → trim_right (x ∷ y ∷ 32 ∷ rest) ≡ x ∷ y ∷ 32 ∷ rest
unfolding trim_right
trim_right_step x y rest hx hy e h = rw h (ground (arith, hx, hy, e))

trim_right_two :
    (x y : ℕ) → is_space x ≡ false → is_space y ≡ false → trim_right (x ∷ y ∷ []) ≡ x ∷ y ∷ []
unfolding trim_right
trim_right_two x y hx hy = ground (arith, hx, hy)

joined_nonempty : (b : ℕ) (bytes : Bytes) → is_empty (joined (b ∷ bytes)) ≡ false
unfolding join_words pairs upper_hex is_empty
joined_nonempty b [] = refl
joined_nonempty b (c ∷ bytes) = refl

trim_right-joined :
    (b : ℕ) (bytes : Bytes)
    → All IsByte (b ∷ bytes)
    → trim_right (joined (b ∷ bytes)) ≡ joined (b ∷ bytes)
unfolding join_words pairs upper_hex
trim_right-joined b [] (h, k) =
    let (high, low) = digits_of b h in
    trim_right_two _ _ (not_space (hex_digit (b / 16)) high) (not_space (hex_digit (b % 16)) low)
trim_right-joined b (c ∷ bytes) (h, k) =
    let (high, low) = digits_of b h in
    trim_right_step (hex_digit (b / 16)) (hex_digit (b % 16)) (joined (c ∷ bytes))
      (not_space (hex_digit (b / 16)) high) (not_space (hex_digit (b % 16)) low)
      (joined_nonempty c bytes) (trim_right-joined c bytes k)

trim_left_first : (x : ℕ) (s : Text) → is_space x ≡ false → trim_left (x ∷ s) ≡ x ∷ s
unfolding trim_left
trim_left_first x s h = ground (arith, h)

trim_left-joined :
    (b : ℕ) (bytes : Bytes)
    → All IsByte (b ∷ bytes)
    → trim_left (joined (b ∷ bytes)) ≡ joined (b ∷ bytes)
unfolding join_words pairs upper_hex
trim_left-joined b [] (h, k) =
    trim_left_first (hex_digit (b / 16)) _ (not_space (hex_digit (b / 16)) (digits_of b h).0)
trim_left-joined b (c ∷ bytes) (h, k) =
    trim_left_first (hex_digit (b / 16)) _ (not_space (hex_digit (b / 16)) (digits_of b h).0)

trim_space-joined :
    (b : ℕ) (bytes : Bytes)
    → All IsByte (b ∷ bytes)
    → trim_space (joined (b ∷ bytes)) ≡ joined (b ∷ bytes)
unfolding trim_space
trim_space-joined b bytes h =
    ap trim_right (trim_left-joined b bytes h) ∙ trim_right-joined b bytes h

fields-joined : (bytes : Bytes) → All IsByte bytes → fields (joined bytes) ≡ pairs (upper_hex bytes)
unfolding join_words pairs upper_hex fields starts_word prepend is_space
fields-joined [] h = refl
fields-joined (b ∷ []) (h, k) = ground (arith, digits_of b h)
fields-joined (b ∷ c ∷ bytes) (h, k) = ground (arith, digits_of b h, fields-joined (c ∷ bytes) k)

-- What parseHexInput does with the text from its trimmed form on, for any tokens.
abbrev from_tokens : Text → List Text → Result HexError Bytes
from_tokens text tokens =
    if is_empty text
    then err empty_input
    else if length tokens == 0
    then err no_hex_bytes_found
    else some_bytes (decode_tokens tokens)

one_token : (b : ℕ) (bytes : Bytes) → (length (pairs (upper_hex (b ∷ bytes))) == 0) ≡ false
unfolding pairs upper_hex
one_token b bytes = ground arith

parse_hex_input-joined :
    (b : ℕ) (bytes : Bytes)
    → All IsByte (b ∷ bytes)
    → parse_hex_input (joined (b ∷ bytes)) ≡ ok (b ∷ bytes)
unfolding parse_hex_input
parse_hex_input-joined b bytes h =
    let trimmed = trim_space-joined b bytes h in
    let tokens : fields (map separate (trim_space (joined (b ∷ bytes))))
        ≡ pairs (upper_hex (b ∷ bytes)) =
      ap (λ (t : Text). fields (map separate t)) trimmed
      ∙ ap fields (separate-joined (b ∷ bytes) h)
      ∙ fields-joined (b ∷ bytes) h in
    (λ i. from_tokens (trimmed i) (tokens i))
    ∙ (λ i.
        if joined_nonempty b bytes i
        then err empty_input
        else if one_token b bytes i
        then err no_hex_bytes_found
        else some_bytes (decode_pairs (b ∷ bytes) h i))
    ∙ ground arith

format_hex-joined :
    (b : ℕ) (bytes : Bytes) (most : ℕ)
    → length (b ∷ bytes) ≤ most
    → format_hex (b ∷ bytes) most ≡ joined (b ∷ bytes)
unfolding format_hex
format_hex-joined b bytes most h = ground (arith, take_all most (b ∷ bytes) h)

-- Bytes that formatHex writes in full, one at least, are what parseHexInput reads from its text.
pub parse_hex_input-format_hex :
    (b : ℕ) (bytes : Bytes) (most : ℕ)
    → All IsByte (b ∷ bytes)
    → length (b ∷ bytes) ≤ most
    → parse_hex_input (format_hex (b ∷ bytes) most) ≡ ok (b ∷ bytes)
parse_hex_input-format_hex b bytes most h l =
    ap parse_hex_input (format_hex-joined b bytes most l) ∙ parse_hex_input-joined b bytes h
