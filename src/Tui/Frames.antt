-- ===== src/Tui/Frames.antt =====
-- handleProtocolFrame and onNoTagObserved of internal/tui/update.go.
use Prim.Native.String.{String}
use new_era.Prelude.{
  ℕ, ◌+◌, ◌%◌, bit_xor, Bool, true, false, not, ◌&&◌, ◌||◌, List, [], ◌∷◌, Result, ok, err,
  if◌then◌else◌, ltb, ◌==◌,
}
use new_era.Prelude.Int.{pos, leb_ℤ}
use new_era.Prelude.Keys.{contains}
use new_era.Prelude.Text.{Text, text_eq, is_empty}
use new_era.Reader18.Crc.{Bytes}
use new_era.Reader18.Commands.{
  cmd_inventory, cmd_inventory_single, cmd_get_reader_info, status_success, status_no_tag,
  status_no_tag_or_timeout, status_antenna_error, status_cmd_error, status_crc_error,
}
use new_era.Reader18.Frames.{Frame}
use new_era.Reader18.Tags.{
  TagError, InventoryG2Tag, SingleInventoryResult, inventory_tag_count, parse_inventory_g2_tags,
  parse_single_inventory_result,
}
use new_era.Tui.Texts.{format_hex, without_spaces, trim_text}
use new_era.Tui.Model.{
  Model, Arg, Line, Screen, control, num, str, lit, push_log, set_status, call_bot, new_epc, say,
}
use new_era.Tui.Tune.{target_label}

-- strings.ReplaceAll(formatHex(epc, 96), " ", "")
unfoldable pub epc_text : Bytes → Text
unfolding format_hex without_spaces
epc_text epc = without_spaces (format_hex epc 96)

abbrev pub is_control : Screen → Bool
is_control control = true
is_control _ = false

module _ {S : Type 0} where
  -- A status line that is shown on the control screen alone, every so many rounds.
  abbrev pub on_control : Bool → Line → Model S → Model S
  on_control test line m =
      if is_control m.view.active_screen && test then record m { status = line } else m

  abbrev pub every : ℕ → Model S → Bool
  every n m = m.reading.rounds % n == 0

  unfoldable pub on_no_tag_observed : Model S → Model S
  on_no_tag_observed m =
      let hit = m.reading.no_tag_hit + 1 in
      let counted = record m { reading = record m.reading { no_tag_hit = hit } } in
      if not m.reading.running
      then m
      else if not (ltb 1 m.tuning.session) || leb_ℤ m.tuning.no_tag_ab (pos 0)
      then counted
      else if leb_ℤ m.tuning.no_tag_ab (pos hit)
      then (let target = bit_xor m.tuning.target 0x01 in
          push_log "no-tag threshold reached, target switched to %s"
            (lit (target_label target) ∷ [])
            (record m {
              tuning = record m.tuning { target = target };
              reading = record m.reading { no_tag_hit = 0 };
            }))
      else counted

  -- The first lines of both inventory branches.
  unfoldable pub detect_address : Frame → Model S → Model S
  detect_address frame m =
      let answered = record m { reading = record m.reading { awaiting_probe = false } } in
      if m.reading.auto_addr
      then push_log "inventory address detected: 0x%02X" (num frame.address ∷ []) (record answered {
        reading = record answered.reading { address = frame.address; auto_addr = false };
      })
      else answered

  -- A tag that was not seen before.
  abbrev pub add_seen : Text → Model S → Model S
  add_seen text m = call_bot (new_epc text) (record m {
    reading = record m.reading {
      seen_tag_epc = text ∷ m.reading.seen_tag_epc;
      tag_total = m.reading.tag_total + 1;
    };
  })

  -- One round of the loop over the tags, and whether the tag is new.
  unfoldable pub see_tag : InventoryG2Tag → Model S → Model S × Bool
  unfolding epc_text
  see_tag tag m =
      let text = epc_text tag.epc in
      let last = record m {
        reading = record m.reading {
          last_tag_epc = text;
          last_tag_antenna = tag.antenna;
          last_tag_rssi = tag.rssi;
        };
      } in
      let added = add_seen text last in
      if is_empty text
      then (m, false)
      else if contains text m.reading.seen_tag_epc
      then (last, false)
      else (
        push_log "new tag ant=%d epc=%s rssi=%d total=%d"
            (num tag.antenna ∷ str text ∷ num tag.rssi ∷ num added.reading.tag_total ∷ []) added,
        true,
      )

  -- The loop, with the number of new tags so far.
  unfoldable pub see_tags : List InventoryG2Tag → ℕ → Model S → Model S × ℕ
  unfolding see_tag
  see_tags [] new_count m = (m, new_count)
  see_tags (tag ∷ tags) new_count m =
      let (next, is_new) = see_tag tag m in
      see_tags tags (if is_new then new_count + 1 else new_count) next

  abbrev pub tell_tags : ℕ → Model S → Model S
  tell_tags new_count m =
      if ltb 0 new_count
      then on_control true
          (say "New tag(s): +%d total=%d" (num new_count ∷ num m.reading.tag_total ∷ [])) m
      else if m.reading.running && every 12 m && not (is_empty m.reading.last_tag_epc)
      then on_control true
          (say "Tag seen again: %s" (str (trim_text m.reading.last_tag_epc (pos 28)) ∷ [])) m
      else m

  -- By the count that the frame reports.
  unfoldable pub reported_count : Result TagError ℕ → Model S → Model S
  reported_count (err e) m = m
  reported_count (ok count) m =
      let told =
        on_control (every 6 m)
          (say "Reader reports %d tag(s), waiting EPC frame..." (num count ∷ [])) m in
      if not (ltb 0 count)
      then m
      else if every 30 m
      then push_log "inventory count-only response: %d tag(s)" (num count ∷ []) told
      else told

  abbrev pub no_tag_round : Model S → Model S
  no_tag_round m =
      let observed = on_no_tag_observed m in
      on_control (m.reading.running && every 24 m)
        (say "Reading... no tag (rounds=%d)" (num m.reading.rounds ∷ [])) observed

  abbrev pub antenna_check : Model S → Model S
  antenna_check m =
      if m.reading.running && every 20 m
      then set_status "Reading... antenna check (rounds=%d)" (num m.reading.rounds ∷ []) m
      else m

  -- A line for the log only while no inventory runs.
  abbrev pub log_idle : String → List Arg → Model S → Model S
  log_idle format args m = if m.reading.running then m else push_log format args m

  -- A status that is an error: what is logged for an illegal command, for an error of the
  -- parameters, and else.
  unfoldable pub error_status : ℕ → String → String → String → Model S → Model S
  error_status status illegal parameter other m =
      if status == status_cmd_error
      then log_idle illegal [] m
      else if status == status_crc_error
      then log_idle parameter [] m
      else log_idle other (num status ∷ []) m

  -- An inventory response without tags whose status is not a success.
  unfoldable pub inventory_status : ℕ → Model S → Model S
  unfolding on_no_tag_observed error_status
  inventory_status status m =
      if status == status_no_tag
        || status == 0x02
        || status == 0x03
        || status == 0x04
        || status == status_no_tag_or_timeout
      then no_tag_round m
      else if status == status_antenna_error
      then antenna_check m
      else error_status status "inventory status: illegal command (0xFE)"
          "inventory status: parameter error (0xFF)" "inventory status: 0x%02X" m

  unfoldable pub inventory_tags : Frame → Result TagError (List InventoryG2Tag) → Model S → Model S
  unfolding see_tags reported_count inventory_status
  inventory_tags frame (err e) m = log_idle "inventory parse error" [] m
  inventory_tags frame (ok []) m =
      if frame.status == status_success
      then reported_count (inventory_tag_count frame) m
      else inventory_status frame.status m
  inventory_tags frame (ok (tag ∷ tags)) m =
      let (seen, new_count) =
        see_tags (tag ∷ tags) 0 (record m { reading = record m.reading { no_tag_hit = 0 } }) in
      tell_tags new_count seen

  -- A single tag that was not seen before.
  unfoldable pub new_single : SingleInventoryResult → Text → Model S → Model S
  new_single result text m =
      let added = add_seen text m in
      push_log "new tag ant=%d epc=%s total=%d"
        (num result.antenna ∷ str text ∷ num added.reading.tag_total ∷ [])
        (on_control true
          (say "New tag: ant=%d epc=%s" (num result.antenna ∷ str (trim_text text (pos 28)) ∷ []))
          added)

  -- In this branch an empty EPC counts as a tag too.
  unfoldable pub see_single : SingleInventoryResult → Model S → Model S
  unfolding epc_text new_single
  see_single result m =
      let text = epc_text result.epc in
      let last = record m {
        reading = record m.reading {
          last_tag_epc = text;
          last_tag_antenna = result.antenna;
          last_tag_rssi = 0;
          no_tag_hit = 0;
        };
      } in
      if contains text m.reading.seen_tag_epc
      then on_control (m.reading.running && every 24 m)
          (say "Tag seen again: %s" (str (trim_text text (pos 28)) ∷ [])) last
      else new_single result text last

  unfoldable pub single_result : Result TagError SingleInventoryResult → Model S → Model S
  unfolding see_single on_no_tag_observed
  single_result (err e) m = log_idle "single inventory parse error" [] m
  single_result (ok result) m =
      if ltb 0 result.tag_count then see_single result m else no_tag_round m

  unfoldable pub single_status : Frame → Model S → Model S
  unfolding single_result error_status
  single_status frame m =
      if frame.status == status_no_tag
      then single_result (parse_single_inventory_result frame) m
      else if frame.status == status_no_tag_or_timeout
      then no_tag_round m
      else if frame.status == status_antenna_error
      then antenna_check m
      else error_status frame.status "single inventory status: command error (0xFE)"
          "single inventory status: parameter error (0xFF)" "single inventory status: 0x%02X" m

  unfoldable pub reader_info : Frame → Model S → Model S
  reader_info frame m =
      let answered = record m { reading = record m.reading { awaiting_probe = false } } in
      if frame.status == status_success
      then push_log "reader info: %s" (str (format_hex frame.payload 48) ∷ [])
          (set_status "Reader info received" [] answered)
      else push_log "reader info status: 0x%02X" (num frame.status ∷ []) answered

  unfoldable pub handle_protocol_frame : Frame → Model S → Model S
  unfolding detect_address inventory_tags single_status reader_info
  handle_protocol_frame frame model =
      let m = record model { last_rx = format_hex frame.raw 52 } in
      if frame.command == cmd_inventory
      then inventory_tags frame (parse_inventory_g2_tags frame) (detect_address frame m)
      else if frame.command == cmd_inventory_single
      then single_status frame (detect_address frame m)
      else if frame.command == cmd_get_reader_info
      then reader_info frame m
      else log_idle "rx cmd=0x%02X status=0x%02X" (num frame.command ∷ num frame.status ∷ []) m
