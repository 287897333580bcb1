-- ===== src/Reader18/Frames/Resume.antt =====
-- What ParseFrames returns, against a description of it that does not mention its loop.
use mathlib.Core.Path.{ap₂, subst}
use new_era.Prelude.{
  ℕ, ◌≤◌, ◌<◌, ◌≡◌, refl, sym, ap, ◌∙◌, ◌⊎◌, inl, inr, ◌↔◌, true, List, [], ◌∷◌, ◌++◌, length,
  length-append, take, drop, take-append-drop, take-append_left, drop-append_left, get_or-append,
  arith,
}
use new_era.Reader18.Crc.{Bytes}
use new_era.Reader18.Frames.{
  Frame, wait, skip, emit, total_of, step, decode, verify_packet, parse_frames,
}
use new_era.Reader18.Frames.Steps.{
  step-cases, step_emit, step_skip, step_wait, cons_frame, parse_wait, parse_skip, parse_emit,
  by_rounds,
}

-- Too short for any packet, or shorter than the packet that its first byte announces.
pub IsPartial : Bytes → Type 0
IsPartial buf = (length buf < 6) ⊎ (length buf < total_of buf)

-- A packet that VerifyPacket accepts stands at the front.
abbrev pub BeginsPacket : Bytes → Type 0
BeginsPacket stream =
    (raw : Bytes) × (later : Bytes) × (verify_packet raw ≡ true) × (stream ≡ raw ++ later)

-- How a stream is read, by what stands at its front: a partial one is left as the rest, a verified
-- packet is taken, and one byte is dropped from a stream of neither kind.
pub data Cut (rest : Bytes) : Bytes → List Frame → Type 0 where
  unread : (stream : Bytes) → IsPartial stream → stream ≡ rest → Cut rest stream []
  noise :
      (b : ℕ) (stream later : Bytes) (frames : List Frame)
      → ¬ IsPartial stream
      → ¬ BeginsPacket stream
      → stream ≡ b ∷ later
      → Cut rest later frames
      → Cut rest stream frames
  packet :
      (raw stream later : Bytes) (frames : List Frame)
      → verify_packet raw ≡ true
      → stream ≡ raw ++ later
      → Cut rest later frames
      → Cut rest stream (decode raw ∷ frames)

step_partial : (buf : Bytes) → IsPartial buf → step buf ≡ wait
unfolding step IsPartial
step_partial buf h = ground arith

step_skip_whole : (buf : Bytes) → step buf ≡ skip → ¬ IsPartial buf
unfolding IsPartial
step_skip_whole buf e h = absurd (cc (step_partial buf h))

-- A verified packet is as long as its first byte says.
verified_size :
    (raw : Bytes) → verify_packet raw ≡ true → (6 ≤ length raw) × (total_of raw ≡ length raw)
unfolding verify_packet
verified_size raw h = ground arith

packet_total : (raw later : Bytes) → verify_packet raw ≡ true → total_of (raw ++ later) ≡ length raw
packet_total raw later h =
    let (big, size) = verified_size raw h in ground (arith, get_or-append raw later 0 0, size)

packet_front :
    (raw later : Bytes)
    → verify_packet raw ≡ true
    → take (total_of (raw ++ later)) (raw ++ later) ≡ raw
packet_front raw later h =
    ap (λ (n : ℕ). take n (raw ++ later)) (packet_total raw later h)
    ∙ take-append_left (length raw) raw later refl

packet_back :
    (raw later : Bytes)
    → verify_packet raw ≡ true
    → drop (total_of (raw ++ later)) (raw ++ later) ≡ later
packet_back raw later h =
    ap (λ (n : ℕ). drop n (raw ++ later)) (packet_total raw later h)
    ∙ drop-append_left (length raw) raw later refl

-- A round takes a packet exactly if one stands at the front.
step_packet : (raw later : Bytes) → verify_packet raw ≡ true → step (raw ++ later) ≡ emit
unfolding step
step_packet raw later h = ground (
  arith,
  verified_size raw h,
  packet_total raw later h,
  length-append raw later,
  ap verify_packet (packet_front raw later h),
)

step_skip_no_packet : (buf : Bytes) → step buf ≡ skip → ¬ BeginsPacket buf
step_skip_no_packet buf e (raw, later, valid, eq) =
    let taken : step buf ≡ emit = ap step eq ∙ step_packet raw later valid in absurd (cc)

step_noise : (buf : Bytes) → ¬ IsPartial buf → ¬ BeginsPacket buf → step buf ≡ skip
unfolding IsPartial
step_noise buf whole no_packet = elim (step-cases buf) [
  | inl w ↦ absurd (whole (step_wait buf w))
  | inr (inl s) ↦ s
  | inr (inr e) ↦
      (let (_, _, valid) = step_emit buf e in
        absurd (
          no_packet (
            take (total_of buf) buf,
            drop (total_of buf) buf,
            valid,
            sym (take-append-drop (total_of buf) buf),
          )))
]

abbrev CutBy : Bytes → Type 0
CutBy buf = Cut (parse_frames buf).1 buf (parse_frames buf).0

cut_wait : (buf : Bytes) → step buf ≡ wait → CutBy buf
unfolding IsPartial
cut_wait buf w = rw (parse_wait buf w) (unread buf (step_wait buf w) refl)

cut_skip : (buf : Bytes) → step buf ≡ skip → CutBy (drop 1 buf) → CutBy buf
cut_skip [] e c = absurd (omega (arith, step_skip [] e))
cut_skip (b ∷ buf) e c = rw (parse_skip (b ∷ buf) e) (
    noise b (b ∷ buf) buf (parse_frames buf).0 (step_skip_whole (b ∷ buf) e)
      (step_skip_no_packet (b ∷ buf) e) refl c)

cut_emit : (buf : Bytes) → step buf ≡ emit → CutBy (drop (total_of buf) buf) → CutBy buf
cut_emit buf e c =
    let (_, _, valid) = step_emit buf e in
    let n = total_of buf in
    rw (parse_emit buf e) (
      packet (take n buf) buf (drop n buf) (parse_frames (drop n buf)).0 valid
        (sym (take-append-drop n buf)) c)

cut_found : (stream : Bytes) → CutBy stream
cut_found stream = by_rounds CutBy cut_wait cut_skip cut_emit (length stream) stream (omega arith)

-- There is one way to read a stream.
Cut-parse_frames :
    (rest stream : Bytes) (frames : List Frame)
    → Cut rest stream frames
    → parse_frames stream ≡ (frames, rest)
Cut-parse_frames rest _ _ (unread stream partial eq) =
    parse_wait stream (step_partial stream partial) ∙ ap (λ r. ([], r)) eq
Cut-parse_frames rest _ _ (noise b stream later frames whole no_packet eq c) =
    parse_skip stream (step_noise stream whole no_packet)
    ∙ ap (λ s. parse_frames (drop 1 s)) eq
    ∙ Cut-parse_frames rest later frames c
Cut-parse_frames rest _ _ (packet raw stream later frames valid eq c) =
    ap parse_frames eq
    ∙ parse_emit (raw ++ later) (step_packet raw later valid)
    ∙ ap₂ (λ r s. cons_frame (decode r) (parse_frames s)) (packet_front raw later valid)
        (packet_back raw later valid)
    ∙ ap (cons_frame (decode raw)) (Cut-parse_frames rest later frames c)

-- ParseFrames returns some frames and a rest exactly if the stream is read as these frames up to this
-- rest: at each place a verified packet is taken whole, one byte is dropped if there is none and
-- the announced packet is not partial, and a partial one ends the reading and is the rest.
pub parse_frames_cuts :
    (stream : Bytes) (frames : List Frame) (rest : Bytes)
    → (parse_frames stream ≡ (frames, rest)) ↔ Cut rest stream frames
parse_frames_cuts stream frames rest = (
  λ e. subst (λ (r : List Frame × Bytes). Cut r.1 stream r.0) e (cut_found stream),
  Cut-parse_frames rest stream frames,
)

abbrev LeavesPartial : Bytes → Type 0
LeavesPartial buf = step (parse_frames buf).1 ≡ wait

parse_frames_waits : (stream : Bytes) → LeavesPartial stream
parse_frames_waits stream =
    by_rounds LeavesPartial (λ buf w. rw (parse_wait buf w) w)
      (λ buf e ih. rw (parse_skip buf e) ih) (λ buf e ih. rw (parse_emit buf e) ih) (length stream)
      stream (omega arith)

-- What ParseFrames leaves is no more than one packet still on its way, and parsing it again finds
-- nothing and leaves it as it is.
pub parse_frames_rest :
    (stream : Bytes)
    → IsPartial (parse_frames stream).1
      × (parse_frames (parse_frames stream).1 ≡ ([], (parse_frames stream).1))
unfolding IsPartial
parse_frames_rest stream = (
  step_wait (parse_frames stream).1 (parse_frames_waits stream),
  parse_wait (parse_frames stream).1 (parse_frames_waits stream),
)
