-- ===== src/Sdk/Receive.antt =====
-- The receiving side of sdk/client.go: consumePacket, the handlers of frames, and the loop of
-- inventoryRun. A handler is one step.
pub mod Buffer
pub mod Unique
use new_era.Prelude.{
  ℕ, ◌+◌, ◌-◌, ◌/◌, ◌%◌, bit_and, bit_xor, Bool, true, false, not, ◌&&◌, ◌||◌, Option, none, some,
  [], ◌∷◌, ◌++◌, foldl, List, Result, ok, err, if◌then◌else◌, ltb, ◌==◌, length, drop,
}
use new_era.Prelude.Int.{pos, ltb_ℤ, leb_ℤ}
use new_era.Prelude.Keys.{contains}
use new_era.Prelude.Text.{Text, text_eq, is_empty}
use new_era.Reader18.Crc.{Bytes}
use new_era.Reader18.Commands.{
  cmd_inventory, cmd_inventory_single, cmd_get_reader_info, status_success, status_no_tag,
  status_no_tag_or_timeout,
}
use new_era.Reader18.Frames.{Frame, parse_frames}
use new_era.Reader18.Tags.{
  TagError, truncated, invalid_epc_len, InventoryG2Tag, inventory_tag_count,
  parse_inventory_g2_tags, parse_single_inventory_result,
}
use new_era.Sdk.Client.{Client, emit_tag, emit_status, emit_err}
use new_era.Sdk.Events.{
  Source, inventory_g2, inventory_single, info_received, count_only, target_switched, tag_error,
  SdkError, packets_unavailable, errors_unavailable, packets_closed, errors_closed,
}

-- strings.ToUpper(hex.EncodeToString(epc)), as character codes.
abbrev pub hex_digit : ℕ → ℕ
hex_digit d = if ltb d 10 then 48 + d else 55 + d

unfoldable pub upper_hex : Bytes → Text
upper_hex [] = []
upper_hex (b ∷ bytes) = hex_digit (b / 16) ∷ hex_digit (b % 16) ∷ upper_hex bytes

-- The critical section of recordTag.
unfoldable pub note_tag : Text → Client → Client
note_tag epc_text c =
    let exists = contains epc_text c.seen in
    record c {
      no_tag_hit = 0;
      seen = if exists then c.seen else epc_text ∷ c.seen;
      unique_tags = if exists then c.unique_tags else c.unique_tags + 1;
      last_tag_epc = epc_text;
    }

unfoldable pub record_tag : Source → ℕ → ℕ → Bytes → Client → Client
unfolding note_tag
record_tag source antenna rssi epc c =
    let epc_text = upper_hex epc in
    if is_empty epc_text
    then c
    else (let noted = note_tag epc_text c in
        emit_tag
          (record {
            source = source;
            epc = epc_text;
            antenna = antenna;
            rssi = rssi;
            is_new = not (contains epc_text c.seen);
            event_rounds = noted.rounds;
            event_unique = noted.unique_tags;
          })
          noted)

abbrev pub is_no_tag_status : ℕ → Bool
is_no_tag_status status =
    status == status_no_tag
    || status == status_no_tag_or_timeout
    || status == 0x02
    || status == 0x03
    || status == 0x04

-- The test whether the hit count `hit` switches the target.
abbrev pub switches : Client → ℕ → Bool
switches c hit =
    ltb 1 c.cfg.session
    && ltb_ℤ (pos 0) c.cfg.no_tag_ab_switch
    && leb_ℤ c.cfg.no_tag_ab_switch (pos hit)

unfoldable pub observe_no_tag : ℕ → Client → Client
observe_no_tag status c =
    let hit = c.no_tag_hit + 1 in
    if not (is_no_tag_status status)
    then c
    else if switches c hit
    then (let target = bit_xor c.target_value 0x01 in
        emit_status (target_switched target) (record c { target_value = target; no_tag_hit = 0 }))
    else record c { no_tag_hit = hit }

-- `target_switched` shows a target by this label, A or B.
abbrev pub target_is_a : ℕ → Bool
target_is_a target = bit_and target 0x01 == 0

-- The errors whose text has the word "truncated" or "invalid".
abbrev pub is_reported : TagError → Bool
is_reported (truncated i) = true
is_reported (invalid_epc_len i) = true
is_reported _ = false

abbrev pub record_g2 : Client → InventoryG2Tag → Client
record_g2 c tag = record_tag inventory_g2 tag.antenna tag.rssi tag.epc c

-- An inventory response without a tag.
unfoldable pub handle_no_tags : Frame → Client → Client
unfolding observe_no_tag
handle_no_tags frame c =
    if frame.status == status_success
    then (elim (inventory_tag_count frame) [
      | ok count ↦ (if ltb 0 count then emit_status (count_only count) c else c)
      | err e ↦ c
    ])
    else observe_no_tag frame.status c

-- What becomes of the tags, or of the error.
unfoldable pub handle_g2_result : Frame → Result TagError (List InventoryG2Tag) → Client → Client
unfolding handle_no_tags record_tag
handle_g2_result frame (err e) c = if is_reported e then emit_err (tag_error e) c else c
handle_g2_result frame (ok tags) c =
    if ltb 0 (length tags) then foldl record_g2 c tags else handle_no_tags frame c

unfoldable pub handle_inventory_frame : Frame → Client → Client
unfolding handle_g2_result
handle_inventory_frame frame c = handle_g2_result frame (parse_inventory_g2_tags frame) c

unfoldable pub handle_inventory_single_frame : Frame → Client → Client
unfolding record_tag observe_no_tag
handle_inventory_single_frame frame c = elim (parse_single_inventory_result frame) [
  | err e ↦ c
  | ok result ↦
      (if ltb 0 result.tag_count && ltb 0 (length result.epc)
        then record_tag inventory_single result.antenna 0 result.epc c
        else observe_no_tag frame.status c)
]

abbrev pub learn_address : Frame → Client → Client
learn_address frame c = record c {
  reader_addr = if c.cfg.auto_address then frame.address else c.reader_addr;
}

unfoldable pub handle_frame : Frame → Client → Client
unfolding handle_inventory_frame handle_inventory_single_frame
handle_frame frame c =
    if frame.command == cmd_inventory
    then handle_inventory_frame frame c
    else if frame.command == cmd_inventory_single
    then handle_inventory_single_frame frame c
    else if frame.command == cmd_get_reader_info
    then emit_status info_received c
    else c

unfoldable pub consume_frame : Client → Frame → Client
unfolding handle_frame
consume_frame c frame = handle_frame frame (learn_address frame c)

-- Of more than 8192 bytes only the last 4096 are kept.
unfoldable pub limit_buffer : Bytes → Bytes
limit_buffer buffer =
    if ltb 8192 (length buffer) then drop (length buffer - 4096) buffer else buffer

unfoldable pub consume_packet : Bytes → Client → Client
unfolding consume_frame limit_buffer
consume_packet data_bytes c =
    let (frames, remaining) = parse_frames (limit_buffer (c.parser_buffer ++ data_bytes)) in
    foldl consume_frame (record c { parser_buffer = remaining }) frames

-- inventoryRun before its loop, by the channels that the transport has, and whether the loop begins.
unfoldable pub run_begins : Bool → Bool → Client → Client × Bool
run_begins has_packets has_errors c =
    if not has_packets
    then (emit_err packets_unavailable c, false)
    else if not has_errors
    then (emit_err errors_unavailable c, false)
    else (c, true)

-- What the select of inventoryRun receives; an error may be nil.
pub data RunEvent : Type 0 where
  run_done packets_end errors_end : RunEvent
  packet : Bytes → RunEvent
  error : Option SdkError → RunEvent

-- One round of its loop, and whether the loop goes on.
unfoldable pub run_round : RunEvent → Client → Client × Bool
unfolding consume_packet
run_round run_done c = (c, false)
run_round packets_end c = (emit_err packets_closed c, false)
run_round errors_end c = (emit_err errors_closed c, false)
run_round (packet bytes) c = (consume_packet bytes c, true)
run_round (error none) c = (c, true)
run_round (error (some e)) c = (emit_err e c, false)
