-- ===== src/Reader18/Frames/RoundTrip.antt =====
-- ParseFrames reads back the responses that were framed by BuildCommand.
use new_era.Prelude.{
  ℕ, ◌+◌, ◌≤◌, ◌≡◌, refl, ap, ◌∙◌, true, List, [], ◌∷◌, ◌++◌, map, append_assoc, length,
  length-append, take-append_left, drop-append_left, arith, All,
}
use mathlib.Core.Path.{ap₂}
use new_era.Reader18.Crc.{Bytes, crc16_mcrf4xx}
use new_era.Reader18.Commands.{build_command, packet_body, low_byte, high_byte}
use new_era.Reader18.Commands.Layout.{length-build_command}
use new_era.Reader18.Frames.{Frame, emit, total_of, step, decode, parse_frames}
use new_era.Reader18.Frames.Steps.{cons_frame, parse_emit}
use new_era.Reader18.Frames.Packets.{verify-build_command}

-- What a reader sends: a status byte, and up to 250 bytes of data.
pub record Response : Type 0 where
  pub address : ℕ
  pub command : ℕ
  pub status : ℕ
  pub payload : Bytes

abbrev pub encode_response : Response → Bytes
encode_response r = build_command r.address r.command (r.status ∷ r.payload)

abbrev pub Fits : Response → Type 0
Fits r = length r.payload ≤ 250

abbrev pub frame_of : Response → Frame
frame_of r = record {
  frame_length = length r.payload + 5;
  address = r.address;
  command = r.command;
  status = r.status;
  payload = r.payload;
  raw = encode_response r;
  crc_valid = true;
}

total_of-encode :
    (r : Response) (rest : Bytes)
    → Fits r
    → total_of (encode_response r ++ rest) ≡ length (encode_response r)
unfolding build_command
total_of-encode r rest h =
    omega (arith, length-build_command r.address r.command (r.status ∷ r.payload))

decode-encode : (r : Response) → Fits r → decode (encode_response r) ≡ frame_of r
unfolding build_command decode
decode-encode r h = ground (
  arith,
  length-build_command r.address r.command (r.status ∷ r.payload),
  take-append_left (length r.payload + 4) (packet_body r.address r.command (r.status ∷ r.payload))
      (low_byte (crc16_mcrf4xx (packet_body r.address r.command (r.status ∷ r.payload)))
        ∷ high_byte (crc16_mcrf4xx (packet_body r.address r.command (r.status ∷ r.payload)))
        ∷ [])
      (omega arith),
)

step-encode : (r : Response) (rest : Bytes) → Fits r → step (encode_response r ++ rest) ≡ emit
unfolding step
step-encode r rest h = ground (
  arith,
  total_of-encode r rest h,
  length-append (encode_response r) rest,
  length-build_command r.address r.command (r.status ∷ r.payload),
  take-append_left (length (encode_response r)) (encode_response r) rest refl,
  verify-build_command r.address r.command (r.status ∷ r.payload),
)

parse_frames-encode_one :
    (r : Response) (rest : Bytes)
    → Fits r
    → parse_frames (encode_response r ++ rest) ≡ cons_frame (frame_of r) (parse_frames rest)
parse_frames-encode_one r rest h =
    let t = total_of-encode r rest h in
    parse_emit (encode_response r ++ rest) (step-encode r rest h)
    ∙ ap₂ (λ raw later. cons_frame (decode raw) (parse_frames later))
        (take-append_left _ (encode_response r) rest t)
        (drop-append_left _ (encode_response r) rest t)
    ∙ ap (λ f. cons_frame f (parse_frames rest)) (decode-encode r h)

abbrev pub encode_all : List Response → Bytes
encode_all [] = []
encode_all (r ∷ rs) = encode_response r ++ encode_all rs

-- A stream of framed responses, with anything behind it, is read as their frames, in their order,
-- followed by what is read from the bytes behind; each response has at most 250 bytes of data.
pub parse_frames-encode_all :
    (rs : List Response) (rest : Bytes)
    → All Fits rs
    → parse_frames (encode_all rs ++ rest)
      ≡ (map frame_of rs ++ (parse_frames rest).0, (parse_frames rest).1)
parse_frames-encode_all [] rest h = refl
parse_frames-encode_all (r ∷ rs) rest h =
    ap parse_frames (append_assoc (encode_response r) (encode_all rs) rest)
    ∙ parse_frames-encode_one r (encode_all rs ++ rest) h.0
    ∙ ap (cons_frame (frame_of r)) (parse_frames-encode_all rs rest h.1)
