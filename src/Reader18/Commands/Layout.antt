-- ===== src/Reader18/Commands/Layout.antt =====
-- The shape of the packets that BuildCommand writes.
use new_era.Prelude.{ℕ, ◌+◌, ◌≡◌, [], ◌∷◌, length, length-append, arith, All, All-append}
use new_era.Reader18.Crc.{Bytes, IsByte, crc16_mcrf4xx}
use new_era.Reader18.Commands.{packet_body, low_byte, high_byte, build_command}

pub length-build_command :
    (address command : ℕ) (payload : Bytes)
    → length (build_command address command payload) ≡ length payload + 5
unfolding build_command
length-build_command address command payload = omega (
  arith,
  length-append (packet_body address command payload) (0 ∷ 0 ∷ []),
  length-append payload (
      low_byte (crc16_mcrf4xx (packet_body address command payload))
      ∷ high_byte (crc16_mcrf4xx (packet_body address command payload))
      ∷ []),
)

-- Whatever the payload's length, what goes out on the wire are bytes.
pub build_command_bytes :
    (address command : ℕ) (payload : Bytes)
    → IsByte address
    → IsByte command
    → All IsByte payload
    → All IsByte (build_command address command payload)
unfolding build_command
build_command_bytes address command payload ha hc hp =
    (omega arith, (ha, (hc, All-append IsByte payload _ hp (omega arith, (omega arith, tt)))))
