-- ===== src/Tui/Invariant/Frames.antt =====
-- The reader's frames keep the invariant: each new EPC is counted once, and the bot is told of it
-- once.
use Prim.Native.String.{String}
use new_era.Prelude.{
  ℕ, ◌+◌, ◌≡◌, ◌∙◌, Bool, true, false, not, ◌&&◌, ◌||◌, List, [], ◌∷◌, ◌++◌, Result, ok, err,
  if◌then◌else◌, if_keeps, if_by, ltb, ◌==◌, arith,
}
use new_era.Prelude.Int.{pos, leb_ℤ}
use new_era.Prelude.Keys.{contains}
use new_era.Prelude.Text.{Text, text_eq, is_empty}
use new_era.Reader18.Commands.{
  cmd_inventory, cmd_inventory_single, cmd_get_reader_info, status_success, status_no_tag,
  status_no_tag_or_timeout, status_antenna_error, status_cmd_error, status_crc_error,
}
use new_era.Reader18.Frames.{Frame}
use new_era.Reader18.Tags.{
  TagError, InventoryG2Tag, SingleInventoryResult, inventory_tag_count, parse_inventory_g2_tags,
  parse_single_inventory_result,
}
use new_era.Tui.Model.{Model, BotCall, new_epc, say, Line, Arg, num, str, say}
use new_era.Tui.Texts.{format_hex, trim_text}
use new_era.Tui.Frames.{
  epc_text, is_control, on_control, every, on_no_tag_observed, detect_address, add_seen, see_tag,
  see_tags, tell_tags, reported_count, no_tag_round, antenna_check, log_idle, error_status,
  inventory_status, inventory_tags, new_single, see_single, single_result, single_status,
  reader_info, handle_protocol_frame,
}
use new_era.Tui.Invariant.{IsReading, Safe, push_line_short, note_call, told_epcs, told_epcs-snoc}

told_new :
    (calls : List BotCall) (seen : List Text) (text : Text)
    → told_epcs calls ≡ seen
    → told_epcs (calls ++ (new_epc text ∷ [])) ≡ text ∷ seen
unfolding note_call
told_new calls seen text h = told_epcs-snoc calls (new_epc text) ∙ (λ i. text ∷ h i)

added_IsReading :
    (calls : List BotCall) (seen : List Text) (total ant_idx : ℕ) (text : Text)
    → contains text seen ≡ false
    → IsReading calls seen total ant_idx
    → IsReading (calls ++ (new_epc text ∷ [])) (text ∷ seen) (total + 1) ant_idx
added_IsReading calls seen total ant_idx text n (told, once, counts, idx) =
    (told_new calls seen text told, (n, once), omega (arith, counts), idx)

module _ {S : Type 0} where
  on_control-Safe :
      (test : Bool) (line : Line) (m : Model S) → Safe m → Safe (on_control test line m)
  on_control-Safe test line m s = if_keeps Safe (is_control m.view.active_screen && test) s s

  log_idle-Safe :
      (format : String) (args : List Arg) (m : Model S) → Safe m → Safe (log_idle format args m)
  log_idle-Safe format args m s =
      let (v, p, t, r, l) = s in if_keeps Safe m.reading.running s (v, p, t, r, push_line_short _ _)

  on_no_tag_observed-Safe : (m : Model S) → Safe m → Safe (on_no_tag_observed m)
  unfolding on_no_tag_observed
  on_no_tag_observed-Safe m (v, p, t, r, l) =
      if_keeps Safe (not m.reading.running) (v, p, t, r, l)
        (if_keeps Safe (not (ltb 1 m.tuning.session) || leb_ℤ m.tuning.no_tag_ab (pos 0))
          (v, p, t, r, l)
          (if_keeps Safe (leb_ℤ m.tuning.no_tag_ab (pos (m.reading.no_tag_hit + 1)))
            (v, p, t, r, push_line_short _ _) (v, p, t, r, l)))

  detect_address-Safe : (frame : Frame) (m : Model S) → Safe m → Safe (detect_address frame m)
  unfolding detect_address
  detect_address-Safe frame m (v, p, t, r, l) =
      if_keeps Safe m.reading.auto_addr (v, p, t, r, push_line_short _ _) (v, p, t, r, l)

  see_tag-Safe : (tag : InventoryG2Tag) (m : Model S) → Safe m → Safe (see_tag tag m).0
  unfolding see_tag
  see_tag-Safe tag m (v, p, t, r, l) =
      if_keeps (λ (q : Model S × Bool). Safe q.0) (is_empty (epc_text tag.epc)) (v, p, t, r, l)
        (if_by (λ (q : Model S × Bool). Safe q.0)
          (contains (epc_text tag.epc) m.reading.seen_tag_epc) (λ e. (v, p, t, r, l))
          (λ e. (
            v,
            p,
            t,
            added_IsReading m.bot_calls m.reading.seen_tag_epc m.reading.tag_total m.reading.ant_idx
                (epc_text tag.epc) e r,
            push_line_short _ _,
          )))

  see_tags-Safe :
      (tags : List InventoryG2Tag) (new_count : ℕ) (m : Model S)
      → Safe m
      → Safe (see_tags tags new_count m).0
  unfolding see_tags
  see_tags-Safe [] new_count m s = s
  see_tags-Safe (tag ∷ tags) new_count m s =
      see_tags-Safe tags (if (see_tag tag m).1 then new_count + 1 else new_count) (see_tag tag m).0
        (see_tag-Safe tag m s)

  tell_tags-Safe : (new_count : ℕ) (m : Model S) → Safe m → Safe (tell_tags new_count m)
  tell_tags-Safe new_count m s = if_keeps Safe (ltb 0 new_count) (on_control-Safe true _ m s) (
      if_keeps Safe (m.reading.running && every 12 m && not (is_empty m.reading.last_tag_epc))
        (on_control-Safe true _ m s) s)

  counted-Safe : (r : Result TagError ℕ) (m : Model S) → Safe m → Safe (reported_count r m)
  unfolding reported_count
  counted-Safe (err e) m s = s
  counted-Safe (ok count) m s =
      let (v, p, t, r, l) =
        on_control-Safe (every 6 m)
          (say "Reader reports %d tag(s), waiting EPC frame..." (num count ∷ [])) m s in
      if_keeps Safe (not (ltb 0 count)) s
        (if_keeps Safe (every 30 m) (v, p, t, r, push_line_short _ _) (v, p, t, r, l))

  no_tag_round-Safe : (m : Model S) → Safe m → Safe (no_tag_round m)
  no_tag_round-Safe m s = on_control-Safe _ _ (on_no_tag_observed m) (on_no_tag_observed-Safe m s)

  antenna_check-Safe : (m : Model S) → Safe m → Safe (antenna_check m)
  antenna_check-Safe m s = if_keeps Safe (m.reading.running && every 20 m) s s

  error_status-Safe :
      (status : ℕ) (illegal parameter other : String) (m : Model S)
      → Safe m
      → Safe (error_status status illegal parameter other m)
  unfolding error_status
  error_status-Safe status illegal parameter other m s =
      if_keeps Safe (status == status_cmd_error) (log_idle-Safe illegal [] m s) (
        if_keeps Safe (status == status_crc_error) (log_idle-Safe parameter [] m s)
          (log_idle-Safe other (num status ∷ []) m s))

  inventory_status-Safe : (status : ℕ) (m : Model S) → Safe m → Safe (inventory_status status m)
  unfolding inventory_status
  inventory_status-Safe status m s =
      if_keeps Safe
        (status == status_no_tag
          || status == 0x02
          || status == 0x03
          || status == 0x04
          || status == status_no_tag_or_timeout)
        (no_tag_round-Safe m s)
        (if_keeps Safe (status == status_antenna_error) (antenna_check-Safe m s)
          (error_status-Safe status _ _ _ m s))

  inventory_tags-Safe :
      (frame : Frame) (tags : Result TagError (List InventoryG2Tag)) (m : Model S)
      → Safe m
      → Safe (inventory_tags frame tags m)
  unfolding inventory_tags
  inventory_tags-Safe frame (err e) m s = log_idle-Safe "inventory parse error" [] m s
  inventory_tags-Safe frame (ok []) m s =
      if_keeps Safe (frame.status == status_success) (counted-Safe (inventory_tag_count frame) m s)
        (inventory_status-Safe frame.status m s)
  inventory_tags-Safe frame (ok (tag ∷ tags)) m s =
      let hit = record m { reading = record m.reading { no_tag_hit = 0 } } in
      tell_tags-Safe (see_tags (tag ∷ tags) 0 hit).1 (see_tags (tag ∷ tags) 0 hit).0
        (see_tags-Safe (tag ∷ tags) 0 hit s)

  new_single-Safe :
      (result : SingleInventoryResult) (text : Text) (m : Model S)
      → contains text m.reading.seen_tag_epc ≡ false
      → Safe m
      → Safe (new_single result text m)
  unfolding new_single
  new_single-Safe result text m e (v, p, t, r, l) =
      let added =
        added_IsReading m.bot_calls m.reading.seen_tag_epc m.reading.tag_total m.reading.ant_idx
          text e r in
      let (w, q, u, k, n) =
        on_control-Safe true
          (say "New tag: ant=%d epc=%s" (num result.antenna ∷ str (trim_text text (pos 28)) ∷ []))
          (add_seen text m) (v, p, t, added, l) in
      (w, q, u, k, push_line_short _ _)

  see_single-Safe :
      (result : SingleInventoryResult) (m : Model S) → Safe m → Safe (see_single result m)
  unfolding see_single
  see_single-Safe result m s =
      if_by Safe (contains (epc_text result.epc) m.reading.seen_tag_epc)
        (λ e.
          if_keeps Safe (is_control m.view.active_screen && (m.reading.running && every 24 m)) s s)
        (λ e. new_single-Safe result (epc_text result.epc) _ e s)

  single_result-Safe :
      (r : Result TagError SingleInventoryResult) (m : Model S) → Safe m → Safe (single_result r m)
  unfolding single_result
  single_result-Safe (err e) m s = log_idle-Safe "single inventory parse error" [] m s
  single_result-Safe (ok result) m s =
      if_keeps Safe (ltb 0 result.tag_count) (see_single-Safe result m s) (no_tag_round-Safe m s)

  single_status-Safe : (frame : Frame) (m : Model S) → Safe m → Safe (single_status frame m)
  unfolding single_status
  single_status-Safe frame m s =
      if_keeps Safe (frame.status == status_no_tag)
        (single_result-Safe (parse_single_inventory_result frame) m s)
        (if_keeps Safe (frame.status == status_no_tag_or_timeout) (no_tag_round-Safe m s) (
          if_keeps Safe (frame.status == status_antenna_error) (antenna_check-Safe m s)
            (error_status-Safe frame.status _ _ _ m s)))

  reader_info-Safe : (frame : Frame) (m : Model S) → Safe m → Safe (reader_info frame m)
  unfolding reader_info
  reader_info-Safe frame m (v, p, t, r, l) =
      if_keeps Safe (frame.status == status_success) (v, p, t, r, push_line_short _ _)
        (v, p, t, r, push_line_short _ _)

  pub handle_protocol_frame-Safe :
      (frame : Frame) (m : Model S) → Safe m → Safe (handle_protocol_frame frame m)
  unfolding handle_protocol_frame
  handle_protocol_frame-Safe frame model s =
      let m = record model { last_rx = format_hex frame.raw 52 } in
      if_keeps Safe (frame.command == cmd_inventory)
        (inventory_tags-Safe frame (parse_inventory_g2_tags frame) (detect_address frame m)
          (detect_address-Safe frame m s))
        (if_keeps Safe (frame.command == cmd_inventory_single)
          (single_status-Safe frame (detect_address frame m) (detect_address-Safe frame m s))
          (if_keeps Safe (frame.command == cmd_get_reader_info) (reader_info-Safe frame m s) (
            log_idle-Safe "rx cmd=0x%02X status=0x%02X" (num frame.command ∷ num frame.status ∷ [])
              m s)))
