-- ===== src/Reader18/Frames/Examples.antt =====
-- Concrete packets: the theorems about frames at them.
use new_era.Prelude.{ℕ, ◌≡◌, refl, ◌↔◌, false, [], ◌∷◌, ◌++◌, leb, ◌&&◌, length, map, arith}
use new_era.Reader18.Crc.{Bytes, crc16_mcrf4xx}
use new_era.Reader18.Commands.{build_command, get_reader_info_command}
use new_era.Reader18.Frames.{verify_packet, parse_frames}
use new_era.Reader18.Frames.Packets.{verify-build_command, verify_one_byte}
use new_era.Reader18.Frames.Stream.{resume, parse_frames-append}
use new_era.Reader18.Frames.Resume.{Cut, IsPartial, parse_frames_cuts, parse_frames_rest}
use new_era.Reader18.Frames.RoundTrip.{
  Response, encode_response, encode_all, frame_of, parse_frames-encode_all,
}

-- The command of the text field's placeholder in internal/tui/model.go, and that of its tests.
get_info_packet : get_reader_info_command 0 ≡ 0x04 ∷ 0x00 ∷ 0x21 ∷ 0xD9 ∷ 0x6A ∷ []
unfolding get_reader_info_command build_command crc16_mcrf4xx
get_info_packet = refl

abbrev no_tag : Response
no_tag = record { address = 0; command = 1; status = 0xFB; payload = [] }

abbrev one_tag : Response
one_tag = record {
  address = 0;
  command = 1;
  status = 1;
  payload = 1 ∷ 1 ∷ 2 ∷ 0xE2 ∷ 0x80 ∷ 60 ∷ [];
}

-- The second response, cut in its third byte.
abbrev head_part : Bytes
head_part = 0x05 ∷ 0x00 ∷ 0x01 ∷ []

parse_frames-append_example :
    parse_frames ((0x02 ∷ encode_response no_tag ++ head_part) ++ (0xFB ∷ 0xF2 ∷ 0x3D ∷ []))
    ≡ resume (parse_frames (0x02 ∷ encode_response no_tag ++ head_part)) (0xFB ∷ 0xF2 ∷ 0x3D ∷ [])
parse_frames-append_example =
    parse_frames-append (0x02 ∷ encode_response no_tag ++ head_part) (0xFB ∷ 0xF2 ∷ 0x3D ∷ [])

noisy_count : length (parse_frames (0x02 ∷ encode_response no_tag ++ encode_response one_tag)).0 ≡ 2
unfolding parse_frames verify_packet build_command crc16_mcrf4xx
noisy_count = refl

parse_frames_cuts_example :
    (parse_frames (0x02 ∷ encode_response no_tag ++ head_part) ≡ (frame_of no_tag ∷ [], head_part))
    ↔ Cut head_part (0x02 ∷ encode_response no_tag ++ head_part) (frame_of no_tag ∷ [])
parse_frames_cuts_example =
    parse_frames_cuts (0x02 ∷ encode_response no_tag ++ head_part) (frame_of no_tag ∷ []) head_part

parse_frames_rest_example :
    IsPartial (parse_frames head_part).1
    × (parse_frames (parse_frames head_part).1 ≡ ([], (parse_frames head_part).1))
parse_frames_rest_example = parse_frames_rest head_part

parse_frames-encode_all_example : parse_frames (encode_all (no_tag ∷ one_tag ∷ []) ++ head_part) ≡ (
  map frame_of (no_tag ∷ one_tag ∷ []) ++ (parse_frames head_part).0,
  (parse_frames head_part).1,
)
parse_frames-encode_all_example =
    parse_frames-encode_all (no_tag ∷ one_tag ∷ []) head_part (omega arith)

verify-build_command_example :
    verify_packet (build_command 0 1 (0xFB ∷ []))
    ≡ (leb 1 (length {A = ℕ} (0xFB ∷ [])) && leb (length {A = ℕ} (0xFB ∷ [])) 251)
verify-build_command_example = verify-build_command 0 1 (0xFB ∷ [])

abbrev valid_front : Bytes
valid_front = 0x05 ∷ 0x00 ∷ 0x01 ∷ []

verify_one_byte_example : verify_packet (valid_front ++ (0x7B ∷ 0xF2 ∷ 0x3D ∷ [])) ≡ false
unfolding verify_packet crc16_mcrf4xx
verify_one_byte_example =
    verify_one_byte valid_front (0xF2 ∷ 0x3D ∷ []) 0xFB 0x7B (omega arith) (omega arith)
      (omega arith) (omega arith) refl (omega arith)
