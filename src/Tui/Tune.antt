-- ===== src/Tui/Tune.antt =====
-- The inventory settings of internal/tui/update.go: clampInt, adjustInventorySetting,
-- applyInventoryPreset and runInventoryAction.
use Prim.Native.String.{String}
use new_era.Prelude.{ℕ, ◌*◌, ◌/◌, Bool, not, bit_xor, bit_and, List, [], ◌∷◌, if◌then◌else◌, ◌==◌}
use new_era.Prelude.Int.{ℤ, pos, ◌+ℤ◌, ltb_ℤ, to_ℕ, scale}
use new_era.Reader18.Commands.{set_scan_time_command, set_antenna_mux_command}
use new_era.Sdk.Config.{millisecond}
use new_era.Tui.Model.{
  Model, Tuning, Line, num, int, lit, Cmd, send_silent, say, push_log, set_status,
  effective_inventory_interval,
}

unfoldable pub clamp_int : ℤ → ℤ → ℤ → ℤ
clamp_int value min_value max_value =
    if ltb_ℤ value min_value then min_value else if ltb_ℤ max_value value then max_value else value

abbrev pub clamp_byte : ℕ → ℤ → ℕ → ℕ → ℕ
clamp_byte value delta min_value max_value =
    to_ℕ (clamp_int (pos value +ℤ delta) (pos min_value) (pos max_value))

-- The rows of the tune screen, invTuneQValue to invTunePresetLongRange.
pub data Row : Type 0 where
  q_value session target scan_time no_tag_ab phase_freq antenna_mask poll_interval : Row
  apply scan_mask preset_fast preset_balanced preset_long_range : Row

abbrev pub inv_tune_count : ℕ
inv_tune_count = 13

abbrev pub inv_tune_apply : ℕ
inv_tune_apply = 8

unfoldable pub row_of : ℕ → Row
row_of n =
    if n == 0
    then q_value
    else if n == 1
    then session
    else if n == 2
    then target
    else if n == 3
    then scan_time
    else if n == 4
    then no_tag_ab
    else if n == 5
    then phase_freq
    else if n == 6
    then antenna_mask
    else if n == 7
    then poll_interval
    else if n == 8
    then apply
    else if n == 9
    then scan_mask
    else if n == 10
    then preset_fast
    else if n == 11
    then preset_balanced
    else preset_long_range

abbrev pub target_label : ℕ → String
target_label side = if bit_and side 0x01 == 0 then "A" else "B"

-- inventoryInterval / time.Millisecond; the interval is not negative.
abbrev pub interval_ms : Tuning → ℕ
interval_ms t = to_ℕ t.interval / millisecond

-- What adjustInventorySetting does to the settings.
unfoldable pub adjust_tuning : Row → ℤ → Tuning → Tuning
unfolding clamp_int
adjust_tuning q_value delta t = record t { q_value = clamp_byte t.q_value delta 0 15 }
adjust_tuning session delta t = record t { session = clamp_byte t.session delta 0 3 }
adjust_tuning target delta t = record t { target = bit_xor t.target 0x01 }
adjust_tuning scan_time delta t = record t { scan_time = clamp_byte t.scan_time delta 1 255 }
adjust_tuning no_tag_ab delta t = record t {
  no_tag_ab = clamp_int (t.no_tag_ab +ℤ delta) (pos 0) (pos 255);
}
adjust_tuning phase_freq delta t = record t { show_phase_freq = not t.show_phase_freq }
adjust_tuning antenna_mask delta t = record t { ant_mask = clamp_byte t.ant_mask delta 1 255 }
adjust_tuning poll_interval delta t = record t {
  interval =
      scale (clamp_int (pos (interval_ms t) +ℤ scale delta 10) (pos 20) (pos 1000)) millisecond;
}
adjust_tuning _ delta t = t

-- The status after it.
abbrev pub adjust_status : Row → Tuning → Line
adjust_status q_value t = say "Q value set to %d" (num t.q_value ∷ [])
adjust_status session t = say "Session set to %d" (num t.session ∷ [])
adjust_status target t = say "Target set to %s" (lit (target_label t.target) ∷ [])
adjust_status scan_time t =
    say "Scan time set to %d (x100ms), effective cycle %s"
      (num t.scan_time ∷ int (effective_inventory_interval t) ∷ [])
adjust_status no_tag_ab t = say "No-tag A/B switch count set to %d" (int t.no_tag_ab ∷ [])
adjust_status phase_freq t =
    say "Phase/freq columns %s" (lit (if t.show_phase_freq then "on" else "off") ∷ [])
adjust_status antenna_mask t = say "Antenna mask set to 0x%02X" (num t.ant_mask ∷ [])
adjust_status poll_interval t =
    say "Poll interval set to %s, effective cycle %s"
      (int t.interval ∷ int (effective_inventory_interval t) ∷ [])
adjust_status _ t = say "Select a parameter row to edit" []

unfoldable pub preset_tuning : Row → Tuning → Tuning
preset_tuning preset_fast t = record t {
  q_value = 4;
  session = 1;
  target = 0;
  scan_time = 1;
  no_tag_ab = pos 4;
  interval = pos (40 * millisecond);
  ant_mask = 0x01;
}
preset_tuning preset_balanced t = record t {
  q_value = 4;
  session = 1;
  target = 0;
  scan_time = 2;
  no_tag_ab = pos 4;
  interval = pos (70 * millisecond);
  ant_mask = 0x01;
}
preset_tuning preset_long_range t = record t {
  q_value = 4;
  session = 2;
  target = 0;
  scan_time = 8;
  no_tag_ab = pos 5;
  interval = pos (120 * millisecond);
  ant_mask = 0x01;
}
preset_tuning _ t = t

module _ {S : Type 0} where
  unfoldable pub adjust_inventory_setting : Row → ℤ → Model S → Model S × List Cmd
  unfolding adjust_tuning
  adjust_inventory_setting row delta m =
      let tuned = adjust_tuning row delta m.tuning in
      (record m { tuning = tuned; status = adjust_status row tuned }, [])

  unfoldable pub apply_inventory_preset : Row → String → Model S → Model S × List Cmd
  unfolding preset_tuning
  apply_inventory_preset row name m =
      let t = preset_tuning row m.tuning in
      (
        push_log "preset %s: q=%d s=%d target=%d scan=%d poll=%s effective=%s mask=0x%02X"
            (lit name
              ∷ num t.q_value
              ∷ num t.session
              ∷ num t.target
              ∷ num t.scan_time
              ∷ int t.interval
              ∷ int (effective_inventory_interval t)
              ∷ num t.ant_mask
              ∷ [])
            (record m { tuning = t; status = say "Preset applied: %s" (lit name ∷ []) }),
        [],
      )

  abbrev pub log_tune : Model S → Model S
  log_tune m =
      let t = m.tuning in
      push_log "apply tune q=%d s=%d t=%d scan=%d mask=0x%02X poll=%s effective=%s"
        (num t.q_value
          ∷ num t.session
          ∷ num t.target
          ∷ num t.scan_time
          ∷ num t.ant_mask
          ∷ int t.interval
          ∷ int (effective_inventory_interval t)
          ∷ [])
        m

  abbrev pub mask_command : Model S → Cmd
  mask_command m =
      send_silent "cfg-ant-mask" (set_antenna_mux_command m.reading.address m.tuning.ant_mask)

  unfoldable pub apply_tuning : Bool → Model S → Model S × List Cmd
  apply_tuning is_connected m =
      if not is_connected
      then (
        push_log "inventory tune saved local" []
            (set_status "Parameters saved locally (apply when connected)" [] m),
        [],
      )
      else (
        log_tune (set_status "Applying inventory parameters..." [] m),
        send_silent "cfg-scan-time" (set_scan_time_command m.reading.address m.tuning.scan_time)
            ∷ mask_command m
            ∷ [],
      )

  unfoldable pub set_scan_mask : Bool → Model S → Model S × List Cmd
  set_scan_mask is_connected m =
      let mask = if m.tuning.ant_mask == 0 then 0x01 else m.tuning.ant_mask in
      let set = record m {
        tuning = record m.tuning { ant_mask = mask };
        reading = record m.reading { ant_idx = 0 };
      } in
      if is_connected
      then (
        push_log "antenna scan mask set: 0x%02X" (num mask ∷ [])
            (set_status "Antenna scan configured: mask=0x%02X" (num mask ∷ []) set),
        mask_command set ∷ [],
      )
      else (set_status "Antenna scan mask saved: 0x%02X" (num mask ∷ []) set, [])

  -- On the row under the cursor.
  unfoldable pub run_inventory_action : Bool → Row → Model S → Model S × List Cmd
  unfolding adjust_inventory_setting apply_tuning set_scan_mask apply_inventory_preset
  run_inventory_action is_connected apply m = apply_tuning is_connected m
  run_inventory_action is_connected scan_mask m = set_scan_mask is_connected m
  run_inventory_action is_connected preset_fast m = apply_inventory_preset preset_fast "fast" m
  run_inventory_action is_connected preset_balanced m =
      apply_inventory_preset preset_balanced "balanced" m
  run_inventory_action is_connected preset_long_range m =
      apply_inventory_preset preset_long_range "long-range" m
  run_inventory_action is_connected row m = adjust_inventory_setting row (pos 1) m
