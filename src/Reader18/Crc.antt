-- ===== src/Reader18/Crc.antt =====
-- crc16MCRF4XX of internal/protocol/reader18/protocol.go. A byte is a number below 256.
pub mod Laws
pub mod Detects
use new_era.Prelude.{ℕ, zero, suc, ◌/◌, ◌<◌, bit_and, bit_xor, List, foldl, ◌==◌, if◌then◌else◌}

abbrev pub Bytes : Type 0
Bytes = List ℕ

abbrev pub IsByte : ℕ → Type 0
IsByte b = b < 256

abbrev pub IsWord : ℕ → Type 0
IsWord c = c < 65536

-- One round of the inner loop. `crc >> 1` is `crc / 2`.
pub crc_bit : ℕ → ℕ
crc_bit crc = if bit_and crc 0x0001 == 0 then crc / 2 else bit_xor (crc / 2) 0x8408

pub crc_bits : ℕ → ℕ → ℕ
unfolding crc_bit
crc_bits zero crc = crc
crc_bits (suc n) crc = crc_bits n (crc_bit crc)

-- One round of the outer loop.
pub crc_byte : ℕ → ℕ → ℕ
unfolding crc_bits
crc_byte crc b = crc_bits 8 (bit_xor crc b)

unfoldable pub crc16_mcrf4xx : Bytes → ℕ
unfolding crc_byte
crc16_mcrf4xx = foldl crc_byte 0xFFFF
