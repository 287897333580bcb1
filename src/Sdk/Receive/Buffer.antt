-- ===== src/Sdk/Receive/Buffer.antt =====
-- The packets of sdk/client.go's consumePacket are pieces of one stream.
use new_era.Prelude.{
  ℕ, ◌≤◌, ◌≡◌, refl, sym, ap, ◌∙◌, List, [], ◌∷◌, ◌++◌, append_assoc, foldl, Result, ok, err,
  length, length-drop, length-append, arith,
}
use new_era.Reader18.Crc.{Bytes}
use new_era.Reader18.Frames.{Frame, total_of, parse_frames}
use mathlib.Core.List.{foldl-append}
use new_era.Reader18.Frames.Steps.{parse_wait, parse_skip, parse_emit, by_rounds}
use new_era.Reader18.Frames.Stream.{resume, parse_frames-append}
use new_era.Reader18.Tags.{
  TagError, InventoryG2Tag, parse_inventory_g2_tags, parse_single_inventory_result,
}
use new_era.Sdk.Client.{Client}
use new_era.Sdk.Events.{Source}
use new_era.Sdk.Receive.{
  learn_address, note_tag, record_tag, record_g2, observe_no_tag, handle_no_tags, handle_g2_result,
  handle_inventory_frame, handle_inventory_single_frame, handle_frame, consume_frame, limit_buffer,
  consume_packet,
}

-- The client with another unread end of the stream.
abbrev pub with_buffer : Bytes → Client → Client
with_buffer buffer c = record c { parser_buffer = buffer }

-- What becomes of the frames and the rest of a stream.
abbrev consume : List Frame × Bytes → Client → Client
consume (frames, remaining) c = foldl consume_frame (with_buffer remaining c) frames

-- A handler neither reads nor changes the unread end.
abbrev Ignores : (Client → Client) → Type 0
Ignores f = (buffer : Bytes) (c : Client) → f (with_buffer buffer c) ≡ with_buffer buffer (f c)

record_tag-Ignores :
    (source : Source) (antenna rssi : ℕ) (epc : Bytes)
    → Ignores (record_tag source antenna rssi epc)
unfolding record_tag note_tag
record_tag-Ignores source antenna rssi epc buffer c = ground arith

observe_no_tag-Ignores : (status : ℕ) → Ignores (observe_no_tag status)
unfolding observe_no_tag
observe_no_tag-Ignores status buffer c = ground arith

handle_no_tags-Ignores : (frame : Frame) → Ignores (handle_no_tags frame)
unfolding handle_no_tags
handle_no_tags-Ignores frame buffer c = ground (arith, observe_no_tag-Ignores frame.status buffer c)

record_all-Ignores :
    (tags : List InventoryG2Tag) (buffer : Bytes) (c : Client)
    → foldl record_g2 (with_buffer buffer c) tags ≡ with_buffer buffer (foldl record_g2 c tags)
record_all-Ignores [] buffer c = refl
record_all-Ignores (tag ∷ tags) buffer c =
    ap (λ d. foldl record_g2 d tags)
      (record_tag-Ignores Source.inventory_g2 tag.antenna tag.rssi tag.epc buffer c)
    ∙ record_all-Ignores tags buffer (record_g2 c tag)

handle_g2_result-Ignores :
    (frame : Frame) (r : Result TagError (List InventoryG2Tag)) → Ignores (handle_g2_result frame r)
unfolding handle_g2_result
handle_g2_result-Ignores frame (err e) buffer c = ground arith
handle_g2_result-Ignores frame (ok []) buffer c = handle_no_tags-Ignores frame buffer c
handle_g2_result-Ignores frame (ok (tag ∷ tags)) buffer c =
    ground (arith, record_all-Ignores (tag ∷ tags) buffer c)

handle_inventory_frame-Ignores : (frame : Frame) → Ignores (handle_inventory_frame frame)
unfolding handle_inventory_frame
handle_inventory_frame-Ignores frame =
    handle_g2_result-Ignores frame (parse_inventory_g2_tags frame)

handle_inventory_single_frame-Ignores :
    (frame : Frame) → Ignores (handle_inventory_single_frame frame)
unfolding handle_inventory_single_frame
handle_inventory_single_frame-Ignores frame buffer c = elim (parse_single_inventory_result frame) [
  | err e ↦ ground arith
  | ok result ↦ ground (
    arith,
    record_tag-Ignores Source.inventory_single result.antenna 0 result.epc buffer c,
    observe_no_tag-Ignores frame.status buffer c,
  )
]

consume_frame-Ignores :
    (frame : Frame) (buffer : Bytes) (c : Client)
    → consume_frame (with_buffer buffer c) frame ≡ with_buffer buffer (consume_frame c frame)
unfolding consume_frame handle_frame
consume_frame-Ignores frame buffer c =
    let learned = learn_address frame c in
    ground (
      arith,
      handle_inventory_frame-Ignores frame buffer learned,
      handle_inventory_single_frame-Ignores frame buffer learned,
    )

consume_all-Ignores :
    (frames : List Frame) (buffer : Bytes) (c : Client)
    → foldl consume_frame (with_buffer buffer c) frames
      ≡ with_buffer buffer (foldl consume_frame c frames)
consume_all-Ignores [] buffer c = refl
consume_all-Ignores (frame ∷ frames) buffer c =
    ap (λ d. foldl consume_frame d frames) (consume_frame-Ignores frame buffer c)
    ∙ consume_all-Ignores frames buffer (consume_frame c frame)

limit_kept : (buffer : Bytes) → length buffer ≤ 8192 → limit_buffer buffer ≡ buffer
unfolding limit_buffer
limit_kept buffer h = ground arith

-- What ParseFrames leaves is not longer than what it read.
rest_shorter : (buf : Bytes) → length (parse_frames buf).1 ≤ length buf
rest_shorter buf =
    by_rounds (λ b. length (parse_frames b).1 ≤ length b)
      (λ b e. omega (arith, ap (λ (r : List Frame × Bytes). length r.1) (parse_wait b e)))
      (λ b e ih.
        omega (
          arith,
          ih,
          ap (λ (r : List Frame × Bytes). length r.1) (parse_skip b e),
          length-drop 1 b,
        ))
      (λ b e ih. omega (
        arith,
        ih,
        ap (λ (r : List Frame × Bytes). length r.1) (parse_emit b e),
        length-drop (total_of b) b,
      ))
      (length buf) buf (omega arith)

-- consumePacket where nothing is cut off.
consume_packet_short :
    (data_bytes : Bytes) (c : Client)
    → length (c.parser_buffer ++ data_bytes) ≤ 8192
    → consume_packet data_bytes c ≡ consume (parse_frames (c.parser_buffer ++ data_bytes)) c
unfolding consume_packet limit_buffer
consume_packet_short data_bytes c h =
    let buffer = c.parser_buffer ++ data_bytes in
    ap (λ (b : Bytes). consume (parse_frames b) c) (limit_kept buffer h)

-- Two packets that the reader sent one after the other have the effect of one packet with the bytes
-- of both, as long as no more than 8192 bytes are there with the unread end before them.
pub consume_packet-append :
    (first second : Bytes) (c : Client)
    → length (c.parser_buffer ++ first ++ second) ≤ 8192
    → consume_packet second (consume_packet first c) ≡ consume_packet (first ++ second) c
unfolding resume
consume_packet-append first second c h =
    let stream = c.parser_buffer ++ first in
    let (frames, rest) = parse_frames stream in
    let (later, end) = parse_frames (rest ++ second) in
    let done = foldl consume_frame c frames in
    let whole : stream ++ second ≡ c.parser_buffer ++ (first ++ second) =
      append_assoc c.parser_buffer first second in
    ap (consume_packet second) (
      consume_packet_short first c (omega (arith, h, length-append stream second))
      ∙ consume_all-Ignores frames rest c)
    ∙ consume_packet_short second (with_buffer rest done) (
        omega
          (arith, h, rest_shorter stream, length-append stream second, length-append rest second))
    ∙ ap (λ d. foldl consume_frame d later) (sym (consume_all-Ignores frames end c))
    ∙ sym (foldl-append consume_frame (with_buffer end c) frames later)
    ∙ ap (λ (r : List Frame × Bytes). consume r c) (sym (parse_frames-append stream second))
    ∙ ap (λ (b : Bytes). consume (parse_frames b) c) whole
    ∙ sym (
        consume_packet_short (first ++ second) c
          (omega (arith, h, ap (λ (b : Bytes). length b) whole)))
