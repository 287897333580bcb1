-- ===== src/Reader18/Frames/Packets.antt =====
-- VerifyPacket on the packets that BuildCommand writes, and on those that were changed on the way.
use new_era.Prelude.{
  ℕ, ◌+◌, ◌-◌, ◌<◌, ◌%◌, ◌≡◌, ◌≢◌, refl, sym, ap, ◌∙◌, true, false, ◌&&◌, [], ◌∷◌, ◌++◌,
  append_assoc, length, length-append, take-append, take-append_left, Bool-cases, inl, inr,
  get_or-append_right, leb, ◌==◌, arith, All, All-append,
}
use new_era.Reader18.Crc.{Bytes, IsByte, crc16_mcrf4xx}
use new_era.Reader18.Crc.Laws.{crc16-IsWord}
use new_era.Reader18.Crc.Detects.{crc16_one_byte}
use new_era.Reader18.Commands.{packet_body, low_byte, high_byte, build_command}
use new_era.Reader18.Frames.{verify_packet}

-- A message with two bytes behind it.
abbrev pub sealed : Bytes → ℕ → ℕ → Bytes
sealed body low high = body ++ (low ∷ high ∷ [])

length-sealed : (body : Bytes) (low high : ℕ) → length (sealed body low high) ≡ length body + 2
length-sealed body low high = omega (arith, length-append body (low ∷ high ∷ []))

-- VerifyPacket on such a message: the length byte counts what follows it, and the two bytes are
-- the checksum of the rest.
pub verify-sealed :
    (b : ℕ) (body : Bytes) (low high : ℕ)
    → verify_packet (sealed (b ∷ body) low high) ≡ (
        leb 3 (length body)
        && (b == length body + 2
            && (low_byte (crc16_mcrf4xx (b ∷ body)) == low
                && high_byte (crc16_mcrf4xx (b ∷ body)) == high)))
unfolding verify_packet
verify-sealed b body low high =
    let n = length-sealed (b ∷ body) low high in
    let t =
      take-append_left (length (sealed (b ∷ body) low high) - 2) (b ∷ body) (low ∷ high ∷ [])
        (omega (arith, n)) in
    let l =
      get_or-append_right (b ∷ body) (low ∷ high ∷ []) (length (sealed (b ∷ body) low high) - 2) 0 0
        (omega (arith, n)) in
    let h =
      get_or-append_right (b ∷ body) (low ∷ high ∷ []) (length (sealed (b ∷ body) low high) - 1) 1 0
        (omega (arith, n)) in
    ground (arith, n, t, l, h)

-- BuildCommand's packet passes VerifyPacket exactly if its payload has 1 to 251 bytes: with none the
-- packet is shorter than the shortest response, and from 252 on its length byte wraps.
pub verify-build_command :
    (address command : ℕ) (payload : Bytes)
    → verify_packet (build_command address command payload)
      ≡ (leb 1 (length payload) && leb (length payload) 251)
unfolding build_command
verify-build_command address command payload = ground (
  arith,
  verify-sealed ((length payload + 4) % 256) (address ∷ command ∷ payload)
      (low_byte (crc16_mcrf4xx (packet_body address command payload)))
      (high_byte (crc16_mcrf4xx (packet_body address command payload))),
)

verify_parts :
    (b : ℕ) (body : Bytes) (low high : ℕ)
    → verify_packet (sealed (b ∷ body) low high) ≡ true
    → (b ≡ length body + 2)
      × (low_byte (crc16_mcrf4xx (b ∷ body)) ≡ low)
      × (high_byte (crc16_mcrf4xx (b ∷ body)) ≡ high)
verify_parts b body low high h = ground (arith, verify-sealed b body low high)

verify_length : (b : ℕ) (rest : Bytes) → verify_packet (b ∷ rest) ≡ true → b ≡ length rest
unfolding verify_packet
verify_length b rest h = ground arith

-- The checksum is its two bytes.
word_of_bytes :
    (c d : ℕ) → c < 65536 → d < 65536 → low_byte c ≡ low_byte d → high_byte c ≡ high_byte d → c ≡ d
word_of_bytes c d h k p q = omega arith

-- Two verified packets that differ in at most one byte of the body are the same.
body_byte :
    (b : ℕ) (front back : Bytes) (low high x y : ℕ)
    → All IsByte (b ∷ front)
    → All IsByte back
    → IsByte x
    → IsByte y
    → verify_packet (sealed (b ∷ front ++ (x ∷ back)) low high) ≡ true
    → verify_packet (sealed (b ∷ front ++ (y ∷ back)) low high) ≡ true
    → x ≡ y
body_byte b front back low high x y hf hb hx hy p q =
    let (_, lx, gx) = verify_parts b (front ++ (x ∷ back)) low high p in
    let (_, ly, gy) = verify_parts b (front ++ (y ∷ back)) low high q in
    crc16_one_byte (b ∷ front) back x y hf hb hx hy (
      word_of_bytes _ _
        (crc16-IsWord (b ∷ front ++ (x ∷ back))
          (All-append IsByte (b ∷ front) (x ∷ back) hf (hx, hb)))
        (crc16-IsWord (b ∷ front ++ (y ∷ back))
          (All-append IsByte (b ∷ front) (y ∷ back) hf (hy, hb)))
        (lx ∙ sym ly) (gx ∙ sym gy))

-- The last two of at least two bytes.
split_last_two :
    (a b : ℕ) (bs : Bytes)
    → All IsByte (a ∷ b ∷ bs)
    → (front : Bytes) × (low : ℕ) × (high : ℕ) × (a ∷ b ∷ bs ≡ sealed front low high)
      × All IsByte front
split_last_two a b [] h = ([], a, b, refl, tt)
split_last_two a b (c ∷ bs) h =
    let (front, low, high, e, k) = split_last_two b c bs h.1 in
    (a ∷ front, low, high, ap (◌∷◌ a) e, (h.0, k))

last_byte :
    (b : ℕ) (front : Bytes) (x y : ℕ)
    → verify_packet (b ∷ front ++ (x ∷ [])) ≡ true
    → verify_packet (b ∷ front ++ (y ∷ [])) ≡ true
    → x ≡ y
unfolding verify_packet
last_byte b front x y p q =
    let whole = b ∷ front in
    let n = λ (z : ℕ). length-append whole (z ∷ []) in
    let k = length whole - 1 in
    let t = λ (z : ℕ). take-append k whole (z ∷ []) (omega arith) in
    let g = λ (z : ℕ). get_or-append_right whole (z ∷ []) (length whole) 0 0 (omega arith) in
    ground (arith, n x, n y, t x, t y, g x, g y)

-- The same packet, its last two bytes set apart.
regroup :
    (b x : ℕ) (front back mid : Bytes) (low high : ℕ)
    → back ≡ sealed mid low high
    → b ∷ front ++ (x ∷ back) ≡ sealed (b ∷ front ++ (x ∷ mid)) low high
regroup b x front back mid low high e =
    ap (λ t. b ∷ front ++ (x ∷ t)) e ∙ sym (append_assoc (b ∷ front) (x ∷ mid) (low ∷ high ∷ []))

one_byte_after :
    (b : ℕ) (front back : Bytes) (x y : ℕ)
    → All IsByte (b ∷ front)
    → All IsByte back
    → IsByte x
    → IsByte y
    → verify_packet (b ∷ front ++ (x ∷ back)) ≡ true
    → verify_packet (b ∷ front ++ (y ∷ back)) ≡ true
    → x ≡ y
one_byte_after b front [] x y hf hb hx hy p q = last_byte b front x y p q
one_byte_after b front (high ∷ []) x y hf hb hx hy p q =
    let (_, lx, _) = verify_parts b front x high p in
    let (_, ly, _) = verify_parts b front y high q in sym lx ∙ ly
one_byte_after b front (k ∷ l ∷ back) x y hf hb hx hy p q =
    let (mid, low, high, e, hm) = split_last_two k l back hb in
    body_byte b front mid low high x y hf hm hx hy
      (ap verify_packet (sym (regroup b x front (k ∷ l ∷ back) mid low high e)) ∙ p)
      (ap verify_packet (sym (regroup b y front (k ∷ l ∷ back) mid low high e)) ∙ q)

-- No packet that passes VerifyPacket still passes after one of its bytes, at any place, was changed.
pub verify_one_byte :
    (front back : Bytes) (x y : ℕ)
    → All IsByte front
    → All IsByte back
    → IsByte x
    → IsByte y
    → verify_packet (front ++ (x ∷ back)) ≡ true
    → x ≢ y
    → verify_packet (front ++ (y ∷ back)) ≡ false
verify_one_byte front back x y hf hb hx hy p d =
    elim (Bool-cases (verify_packet (front ++ (y ∷ back)))) [
      | inr bad ↦ bad
      | inl good ↦ absurd (d (same front hf p good))
    ]
  where
    same :
        (front : Bytes)
        → All IsByte front
        → verify_packet (front ++ (x ∷ back)) ≡ true
        → verify_packet (front ++ (y ∷ back)) ≡ true
        → x ≡ y
    same [] hf p q = verify_length x back p ∙ sym (verify_length y back q)
    same (b ∷ front) hf p q = one_byte_after b front back x y hf hb hx hy p q
