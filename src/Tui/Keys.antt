-- ===== src/Tui/Keys.antt =====
-- The keys in internal/tui/update.go: updateKey, one function per screen, and updateRawInput.
-- A key is the text that bubbletea gives it. `edit` is what the input field of bubbles makes of its
-- text on a key, which is library code.
use Prim.Native.String.{String}
use new_era.Prelude.{
  ℕ, ◌+◌, ◌-◌, ◌%◌, Bool, true, false, ◌&&◌, ◌||◌, Option, none, some, List, [], ◌∷◌, Result, ok,
  err, if◌then◌else◌, ltb, leb, ◌==◌, length,
}
use new_era.Prelude.Int.{pos, negsuc, leb_ℤ, to_ℕ}
use new_era.Prelude.Keys.{same}
use new_era.Prelude.Text.{Text, codes, text_eq}
use new_era.Reader18.Crc.{Bytes}
use new_era.Tui.Texts.{HexError, parse_hex_input, parse_digit}
use new_era.Tui.Regions.{Region, catalog, region_at}
use new_era.Tui.Model.{
  Model, View, Screen, home, devices, control, inventory, regions, logs, help, mode_none, num, lit,
  Cmd, run_scan, quit, send, edit_input, say, push_log, set_status,
}
use new_era.Tui.Tune.{
  inv_tune_count, inv_tune_apply, row_of, adjust_inventory_setting, run_inventory_action,
}
use new_era.Tui.Connect.{clear_queue, begin_connect_plan, run_quick_connect}
use new_era.Tui.Actions.{
  home_count, control_count, show_screen, clear_logs, run_home_action, run_control_action,
  enter_raw_mode,
}

abbrev pub is_key : Text → String → Bool
is_key key name = same key (codes name)

-- A name of a key and its letter.
abbrev pub one_of : Text → String → String → Bool
one_of key name letter = is_key key name || is_key key letter

-- The cursor one place up and one place down a list of `total` rows, round its ends.
unfoldable pub row_above : ℕ → ℕ → ℕ
row_above total i = (i + total - 1) % total

unfoldable pub row_below : ℕ → ℕ → ℕ
row_below total i = (i + 1) % total

-- The rows of the log that fit on the screen.
unfoldable pub log_view_size : View → ℕ
log_view_size v =
    let size = to_ℕ v.height - 10 in
    if leb_ℤ v.height (pos 0)
    then 12
    else if ltb size 6
    then 6
    else if ltb 24 size
    then 24
    else size

abbrev pub is_home : Screen → Bool
is_home home = true
is_home _ = false

module _ {S : Type 0} where
  abbrev pub with_view : View → Model S → Model S
  with_view view m = record m { view = view }

  unfoldable pub update_home_keys : Text → Model S → Model S × List Cmd
  unfolding run_home_action
  update_home_keys key m =
      let i = m.view.home_index in
      let (idx, is_digit) = parse_digit key in
      if one_of key "up" "k"
      then (with_view (record m.view { home_index = row_above home_count i }) m, [])
      else if one_of key "down" "j"
      then (with_view (record m.view { home_index = row_below home_count i }) m, [])
      else if is_key key "enter"
      then run_home_action i m
      else if is_digit && ltb idx home_count
      then run_home_action idx (with_view (record m.view { home_index = idx }) m)
      else (m, [])

  unfoldable pub connect_selected_device : Model S → Model S × List Cmd
  unfolding begin_connect_plan
  connect_selected_device m =
      if length m.plan.candidates == 0
      then (set_status "No devices, press 's' to scan" [] m, [])
      else begin_connect_plan "Manual Connect" m.view.device_index m

  unfoldable pub manual_scan : Model S → Model S × List Cmd
  manual_scan m = if m.plan.scanning then (set_status "Scan already running" [] m, []) else (
    push_log "manual scan" [] (record m {
      plan = record (clear_queue m.plan) { scanning = true; pending_connect = false };
      status = say "Scanning LAN..." [];
    }),
    run_scan ∷ [],
  )

  -- Up and down do nothing while there is no candidate.
  unfoldable pub update_device_keys : Text → Model S → Model S × List Cmd
  unfolding run_quick_connect connect_selected_device manual_scan
  update_device_keys key m =
      let i = m.view.device_index in
      let total = length m.plan.candidates in
      let (idx, is_digit) = parse_digit key in
      let above = if ltb 0 total then row_above total i else i in
      let below = if ltb 0 total then row_below total i else i in
      if one_of key "up" "k"
      then (with_view (record m.view { device_index = above }) m, [])
      else if one_of key "down" "j"
      then (with_view (record m.view { device_index = below }) m, [])
      else if is_key key "s"
      then manual_scan m
      else if is_key key "a"
      then run_quick_connect m
      else if is_key key "enter"
      then connect_selected_device m
      else if is_digit && ltb idx total
      then connect_selected_device (with_view (record m.view { device_index = idx }) m)
      else (m, [])

  unfoldable pub update_control_keys : Bool → Text → Model S → Model S × List Cmd
  unfolding run_control_action enter_raw_mode
  update_control_keys is_connected key m =
      let i = m.view.control_index in
      let (idx, is_digit) = parse_digit key in
      if one_of key "up" "k"
      then (with_view (record m.view { control_index = row_above control_count i }) m, [])
      else if one_of key "down" "j"
      then (with_view (record m.view { control_index = row_below control_count i }) m, [])
      else if is_key key "/"
      then enter_raw_mode is_connected m
      else if is_key key "enter"
      then run_control_action is_connected i m
      else if is_digit && ltb idx control_count
      then run_control_action is_connected idx (with_view (record m.view { control_index = idx }) m)
      else (m, [])

  unfoldable pub update_inventory_keys : Bool → Text → Model S → Model S × List Cmd
  unfolding adjust_inventory_setting run_inventory_action
  update_inventory_keys is_connected key m =
      let i = m.view.inventory_index in
      let (idx, is_digit) = parse_digit key in
      let moved = with_view (record m.view { inventory_index = idx }) m in
      if one_of key "up" "k"
      then (with_view (record m.view { inventory_index = row_above inv_tune_count i }) m, [])
      else if one_of key "down" "j"
      then (with_view (record m.view { inventory_index = row_below inv_tune_count i }) m, [])
      else if one_of key "left" "h"
      then adjust_inventory_setting (row_of i) (negsuc 0) m
      else if one_of key "right" "l"
      then adjust_inventory_setting (row_of i) (pos 1) m
      else if is_key key "enter"
      then run_inventory_action is_connected (row_of i) m
      else if is_digit && ltb idx inv_tune_count
      then (if leb inv_tune_apply idx
          then run_inventory_action is_connected (row_of idx) moved
          else (moved, []))
      else (m, [])

  -- The region at the cursor; the cursor is in range, so that the source's access does not panic.
  abbrev pub selected : ℕ → Option Region → Model S → Model S
  selected i none m = m
  selected i (some r) m = push_log "region selected: %s" (lit r.code ∷ []) (
      set_status "Region selected: %s (%s)" (lit r.code ∷ lit r.band ∷ [])
        (with_view (record m.view { region_cursor = i; region_index = i }) m))

  unfoldable pub select_region : ℕ → Model S → Model S
  select_region i m = selected i (region_at catalog i) m

  unfoldable pub update_region_keys : Text → Model S → Model S × List Cmd
  unfolding select_region
  update_region_keys key m =
      let i = m.view.region_cursor in
      let total = length catalog in
      let (idx, is_digit) = parse_digit key in
      if one_of key "up" "k"
      then (with_view (record m.view { region_cursor = row_above total i }) m, [])
      else if one_of key "down" "j"
      then (with_view (record m.view { region_cursor = row_below total i }) m, [])
      else if is_key key "enter"
      then (select_region i m, [])
      else if is_digit && ltb idx total
      then (select_region idx m, [])
      else (m, [])

  unfoldable pub update_log_keys : Text → Model S → Model S × List Cmd
  unfolding log_view_size
  update_log_keys key m =
      let i = m.view.log_scroll in
      let max_scroll = length m.logs - log_view_size m.view in
      let above = if ltb i max_scroll then i + 1 else i in
      if one_of key "up" "k"
      then (with_view (record m.view { log_scroll = above }) m, [])
      else if one_of key "down" "j"
      then (with_view (record m.view { log_scroll = i - 1 }) m, [])
      else if is_key key "c"
      then (clear_logs m, [])
      else (m, [])

  unfoldable pub update_help_keys : Text → Model S → Model S × List Cmd
  update_help_keys key m =
      if is_key key "enter" then (set_status "Home" [] (show_screen home m), []) else (m, [])

  unfoldable pub send_raw : Result HexError Bytes → Model S → Model S × List Cmd
  send_raw (err e) m = (set_status "Hex parse error" [] m, [])
  send_raw (ok payload) m =
      (set_status "Sending %d byte(s)..." (num (length payload) ∷ []) m, send "raw" payload ∷ [])

  unfoldable pub update_raw_input : (Text → Text → Text) → Text → Model S → Model S × List Cmd
  unfolding send_raw
  update_raw_input edit key m =
      if is_key key "esc"
      then (
        set_status "Raw input canceled" []
            (with_view (record m.view { input_mode = mode_none; input_focused = false }) m),
        [],
      )
      else if is_key key "enter"
      then send_raw (parse_hex_input m.view.input_value) m
      else (
        with_view (record m.view { input_value = edit key m.view.input_value }) m,
        edit_input ∷ [],
      )

  unfoldable pub update_screen : Screen → Bool → Text → Model S → Model S × List Cmd
  unfolding update_home_keys update_device_keys update_control_keys update_inventory_keys
      update_region_keys update_log_keys update_help_keys
  update_screen home is_connected key m = update_home_keys key m
  update_screen devices is_connected key m = update_device_keys key m
  update_screen control is_connected key m = update_control_keys is_connected key m
  update_screen inventory is_connected key m = update_inventory_keys is_connected key m
  update_screen regions is_connected key m = update_region_keys key m
  update_screen logs is_connected key m = update_log_keys key m
  update_screen help is_connected key m = update_help_keys key m

  abbrev pub go_back : Model S → Model S × List Cmd
  go_back m = (set_status "Back to home" [] (show_screen home m), [])

  -- `quit` stands for the reader's Disconnect and tea.Quit.
  unfoldable pub update_key : Bool → Text → Model S → Model S × List Cmd
  unfolding update_screen
  update_key is_connected key m =
      if one_of key "ctrl+c" "q"
      then (m, quit ∷ [])
      else if is_key key "m"
      then (set_status "Home" [] (show_screen home m), [])
      else if is_key key "0"
      then (if is_home m.view.active_screen then (set_status "Home" [] m, []) else go_back m)
      else if one_of key "b" "backspace"
      then (if is_home m.view.active_screen
          then update_screen home is_connected key m
          else go_back m)
      else update_screen m.view.active_screen is_connected key m
