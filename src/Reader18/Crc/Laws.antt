-- ===== src/Reader18/Crc/Laws.antt =====
-- crc16MCRF4XX keeps to 16 bits, and one round of it can be undone.
use new_era.Prelude.{
  ℕ, zero, suc, ◌+◌, ◌*◌, ◌≡◌, refl, sym, ap, ◌∙◌, bit_xor, [], ◌∷◌, foldl, true, ltb, ltb→lt, ◌==◌,
  ==_iff, arith, if◌then◌else◌, All,
}
use new_era.Prelude.Bits.{holds_below, holds_at, bit_xor_twice, bit_xor_comm, xor_word}
use new_era.Reader18.Crc.{Bytes, IsByte, IsWord, crc_bit, crc_bits, crc_byte, crc16_mcrf4xx}

crc_bit_table : holds_below (λ c. ltb (crc_bit c) 65536) 65536 ≡ true
unfolding holds_below crc_bit
crc_bit_table = refl

crc_bit-IsWord : (c : ℕ) → IsWord c → IsWord (crc_bit c)
crc_bit-IsWord c h = ltb→lt (crc_bit c) 65536 (holds_at _ 65536 crc_bit_table c h)

-- The top bit of the result tells whether the polynomial was applied.
crc_unbit : ℕ → ℕ
crc_unbit o = if ltb o 32768 then 2 * o else 2 * bit_xor o 0x8408 + 1

crc_unbit_table : holds_below (λ c. crc_unbit (crc_bit c) == c) 65536 ≡ true
unfolding holds_below crc_bit crc_unbit
crc_unbit_table = refl

crc_unbit-crc_bit : (c : ℕ) → IsWord c → crc_unbit (crc_bit c) ≡ c
crc_unbit-crc_bit c h = (==_iff _ c).0 (holds_at _ 65536 crc_unbit_table c h)

crc_bit_injective : (c d : ℕ) → IsWord c → IsWord d → crc_bit c ≡ crc_bit d → c ≡ d
crc_bit_injective c d h k e = sym (crc_unbit-crc_bit c h) ∙ ap crc_unbit e ∙ crc_unbit-crc_bit d k

crc_bits-IsWord : (n c : ℕ) → IsWord c → IsWord (crc_bits n c)
unfolding crc_bits
crc_bits-IsWord zero c h = h
crc_bits-IsWord (suc n) c h = crc_bits-IsWord n (crc_bit c) (crc_bit-IsWord c h)

crc_bits_injective : (n c d : ℕ) → IsWord c → IsWord d → crc_bits n c ≡ crc_bits n d → c ≡ d
unfolding crc_bits
crc_bits_injective zero c d h k e = e
crc_bits_injective (suc n) c d h k e =
    crc_bit_injective c d h k
      (crc_bits_injective n (crc_bit c) (crc_bit d) (crc_bit-IsWord c h) (crc_bit-IsWord d k) e)

pub crc_byte-IsWord : (c b : ℕ) → IsWord c → IsByte b → IsWord (crc_byte c b)
unfolding crc_byte
crc_byte-IsWord c b h k = crc_bits-IsWord 8 (bit_xor c b) (xor_word c b h (omega arith))

xor_cancel_right : (a b c : ℕ) → bit_xor a c ≡ bit_xor b c → a ≡ b
xor_cancel_right a b c e =
    sym (bit_xor_twice a c) ∙ ap (λ (t : ℕ). bit_xor t c) e ∙ bit_xor_twice b c

-- A round loses nothing: neither of the state before it nor of the byte that went in.
pub crc_byte_injective_state :
    (c d b : ℕ) → IsWord c → IsWord d → IsByte b → crc_byte c b ≡ crc_byte d b → c ≡ d
unfolding crc_byte
crc_byte_injective_state c d b h k hb e =
    xor_cancel_right c d b
      (crc_bits_injective 8 _ _ (xor_word c b h (omega arith)) (xor_word d b k (omega arith)) e)

pub crc_byte_injective_input :
    (c a b : ℕ) → IsWord c → IsByte a → IsByte b → crc_byte c a ≡ crc_byte c b → a ≡ b
unfolding crc_byte
crc_byte_injective_input c a b h ha hb e = xor_cancel_right a b c (
    bit_xor_comm a c
    ∙ crc_bits_injective 8 _ _ (xor_word c a h (omega arith)) (xor_word c b h (omega arith)) e
    ∙ bit_xor_comm c b)

pub crc_from-IsWord : (c : ℕ) (bs : Bytes) → IsWord c → All IsByte bs → IsWord (foldl crc_byte c bs)
crc_from-IsWord c [] h hb = h
crc_from-IsWord c (b ∷ bs) h hb =
    crc_from-IsWord (crc_byte c b) bs (crc_byte-IsWord c b h hb.0) hb.1

pub crc16-IsWord : (bs : Bytes) → All IsByte bs → IsWord (crc16_mcrf4xx bs)
unfolding crc16_mcrf4xx
crc16-IsWord bs h = crc_from-IsWord 0xFFFF bs (omega arith) h

pub crc_from_injective :
    (c d : ℕ) (bs : Bytes)
    → IsWord c
    → IsWord d
    → All IsByte bs
    → foldl crc_byte c bs ≡ foldl crc_byte d bs
    → c ≡ d
crc_from_injective c d [] h k hb e = e
crc_from_injective c d (b ∷ bs) h k hb e = crc_byte_injective_state c d b h k hb.0 (
    crc_from_injective (crc_byte c b) (crc_byte d b) bs (crc_byte-IsWord c b h hb.0)
      (crc_byte-IsWord d b k hb.0) hb.1 e)
