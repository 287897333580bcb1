-- ===== src/Reader18/Crc/Detects.antt =====
-- The checksum tells apart any two messages that differ in one byte.
use new_era.Prelude.{ℕ, ◌≡◌, [], ◌∷◌, ◌++◌, foldl, arith, All}
use new_era.Reader18.Crc.{Bytes, IsByte, IsWord, crc_byte, crc16_mcrf4xx}
use new_era.Reader18.Crc.Laws.{crc_from_injective, crc_byte_injective_input, crc_byte-IsWord}

crc_from_one_byte :
    (c : ℕ) (front back : Bytes) (a b : ℕ)
    → IsWord c
    → All IsByte front
    → All IsByte back
    → IsByte a
    → IsByte b
    → foldl crc_byte c (front ++ (a ∷ back)) ≡ foldl crc_byte c (front ++ (b ∷ back))
    → a ≡ b
crc_from_one_byte c [] back a b h hf hk ha hb e = crc_byte_injective_input c a b h ha hb (
    crc_from_injective (crc_byte c a) (crc_byte c b) back (crc_byte-IsWord c a h ha)
      (crc_byte-IsWord c b h hb) hk e)
crc_from_one_byte c (x ∷ front) back a b h hf hk ha hb e =
    crc_from_one_byte (crc_byte c x) front back a b (crc_byte-IsWord c x h hf.0) hf.1 hk ha hb e

-- If two byte sequences agree but in one place, and have the same checksum, they agree there too.
pub crc16_one_byte :
    (front back : Bytes) (a b : ℕ)
    → All IsByte front
    → All IsByte back
    → IsByte a
    → IsByte b
    → crc16_mcrf4xx (front ++ (a ∷ back)) ≡ crc16_mcrf4xx (front ++ (b ∷ back))
    → a ≡ b
unfolding crc16_mcrf4xx
crc16_one_byte front back a b hf hk ha hb e =
    crc_from_one_byte 0xFFFF front back a b (omega arith) hf hk ha hb e
