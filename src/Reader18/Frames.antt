-- ===== src/Reader18/Frames.antt =====
-- VerifyPacket and ParseFrames of internal/protocol/reader18/protocol.go.
pub mod Packets
pub mod Steps
pub mod Stream
pub mod Resume
pub mod RoundTrip
pub mod Examples
use new_era.Prelude.{
  ℕ, zero, suc, ◌+◌, ◌-◌, ◌/◌, ◌%◌, Bool, true, false, not, ◌&&◌, List, [], ◌∷◌, ◌++◌, ltb, ◌==◌,
  if◌then◌else◌, length, get_or, take, drop,
}
use new_era.Reader18.Crc.{Bytes, crc16_mcrf4xx}
use new_era.Reader18.Commands.{low_byte, high_byte}

pub record Frame : Type 0 where
  pub frame_length : ℕ
  pub address : ℕ
  pub command : ℕ
  pub status : ℕ
  pub payload : Bytes
  pub raw : Bytes
  pub crc_valid : Bool

-- packet[i], where i is in range.
abbrev pub byte_at : Bytes → ℕ → ℕ
byte_at packet i = get_or packet i 0

unfoldable pub verify_packet : Bytes → Bool
verify_packet packet =
    if ltb (length packet) 6
    then false
    else if not (byte_at packet 0 + 1 == length packet)
    then false
    else (let crc = crc16_mcrf4xx (take (length packet - 2) packet) in
        low_byte crc == byte_at packet (length packet - 2)
        && high_byte crc == byte_at packet (length packet - 1))

-- The frame that ParseFrames makes of a verified packet.
pub decode : Bytes → Frame
decode raw = record {
  frame_length = byte_at raw 0;
  address = byte_at raw 1;
  command = byte_at raw 2;
  status = byte_at raw 3;
  payload = drop 4 (take (length raw - 2) raw);
  raw = raw;
  crc_valid = true;
}

-- What one round of the loop does: it leaves the loop, drops a byte, or takes a packet.
pub data Step : Type 0 where
  wait skip emit : Step

abbrev pub total_of : Bytes → ℕ
total_of buf = byte_at buf 0 + 1

pub step : Bytes → Step
step buf =
    if ltb (length buf) 6
    then wait
    else if ltb (total_of buf) 6
    then skip
    else if ltb (length buf) (total_of buf)
    then wait
    else if not (verify_packet (take (total_of buf) buf))
    then skip
    else emit

-- Each round but the last takes at least one byte, so `length buf` rounds are enough.
pub parse_loop : ℕ → Bytes → List Frame × Bytes
parse_loop zero buf = ([], buf)
parse_loop (suc fuel) buf = elim (step buf) [
  | wait ↦ ([], buf)
  | skip ↦ parse_loop fuel (drop 1 buf)
  | emit ↦
      (let (frames, remaining) = parse_loop fuel (drop (total_of buf) buf) in
        (decode (take (total_of buf) buf) ∷ frames, remaining))
]

unfoldable pub parse_frames : Bytes → List Frame × Bytes
unfolding parse_loop step decode
parse_frames stream = parse_loop (length stream) stream
