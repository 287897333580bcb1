-- ===== src/Tui/Invariant/Keys.antt =====
-- The keys keep the invariant: each screen's cursor stays on a row, so that no access to a list is
-- out of range.
use new_era.Prelude.{
  ℕ, ◌<◌, ◌≡◌, refl, Bool, true, ◌&&◌, Option, none, some, List, [], ◌∷◌, Result, ok, err,
  if◌then◌else◌, if_keeps, if_by, ltb, leb, ◌==◌, length, arith,
}
use new_era.Prelude.Int.{pos, negsuc}
use new_era.Prelude.Text.{Text}
use new_era.Reader18.Crc.{Bytes}
use new_era.Tui.Texts.{HexError, parse_hex_input, parse_digit}
use new_era.Tui.Regions.{Region, catalog, region_at}
use new_era.Tui.Model.{Model, Screen, home, devices, control, inventory, regions, logs, help}
use new_era.Tui.Tune.{inv_tune_count, inv_tune_apply, row_of}
use new_era.Tui.Actions.{home_count, control_count}
use new_era.Tui.Keys.{
  is_key, one_of, row_above, row_below, with_view, update_home_keys, connect_selected_device,
  manual_scan, selected, update_device_keys, update_control_keys, update_inventory_keys,
  select_region, update_region_keys, update_log_keys, update_help_keys, send_raw, update_raw_input,
  update_screen, is_home, update_key,
}
use new_era.Tui.Invariant.{Points, Safe, SafeAfter, push_line_short}
use new_era.Tui.Invariant.Tune.{adjust_inventory_setting-Safe, run_inventory_action-Safe}
use new_era.Tui.Invariant.Connect.{first_row, begin_connect_plan-Safe, run_quick_connect-Safe}
use new_era.Tui.Invariant.Actions.{
  Kept, keep, run_home_action-Kept, enter_raw_mode-Kept, run_control_action-Kept,
}

-- The cursor stays on a list of at least one row.
row_above_fits : (total i : ℕ) → 0 < total → row_above total i < total
unfolding row_above
row_above_fits total i h = ground arith

row_below_fits : (total i : ℕ) → 0 < total → row_below total i < total
unfolding row_below
row_below_fits total i h = ground arith

region_at_fits : (rs : List Region) (i : ℕ) (r : Region) → region_at rs i ≡ some r → i < length rs
region_at_fits [] i r h = absurd (cc)
region_at_fits (x ∷ rs) ℕ.zero r h = ground arith
region_at_fits (x ∷ rs) (ℕ.suc i) r h = let l = region_at_fits rs i r h in ground arith

-- A row is a place for the cursor.
row_fits : (i total : ℕ) → i < total → Points i total
row_fits i total h = ground arith

device_above :
    (total i : ℕ) → Points i total → Points (if ltb 0 total then row_above total i else i) total
device_above total i h =
    if_by (λ (n : ℕ). Points n total) (ltb 0 total)
      (λ e. row_fits _ _ (row_above_fits total i (ground arith))) (λ e. h)

device_below :
    (total i : ℕ) → Points i total → Points (if ltb 0 total then row_below total i else i) total
device_below total i h =
    if_by (λ (n : ℕ). Points n total) (ltb 0 total)
      (λ e. row_fits _ _ (row_below_fits total i (ground arith))) (λ e. h)

-- A digit that is a row.
in_menu : (is_digit : Bool) (i total : ℕ) → (is_digit && ltb i total) ≡ true → i < total
in_menu is_digit i total h = ground arith

module _ {S : Type 0} where
  -- The keys that move a cursor, those that run an action, and the digits.
  update_home_keys-Kept : (key : Text) (m : Model S) → Safe m → Kept (update_home_keys key m)
  unfolding update_home_keys
  update_home_keys-Kept key m s =
      let ((h, c, i, r, rc), p, t, rd, l) = s in
      let above = row_above_fits home_count m.view.home_index (ground arith) in
      let below = row_below_fits home_count m.view.home_index (ground arith) in
      if_keeps Kept (one_of key "up" "k") (keep ((above, c, i, r, rc), p, t, rd, l)) (
        if_keeps Kept (one_of key "down" "j") (keep ((below, c, i, r, rc), p, t, rd, l)) (
          if_keeps Kept (is_key key "enter") (run_home_action-Kept m.view.home_index m s) (
            if_by Kept ((parse_digit key).1 && ltb (parse_digit key).0 home_count)
              (λ e.
                run_home_action-Kept (parse_digit key).0
                  (with_view (record m.view { home_index = (parse_digit key).0 }) m)
                  ((in_menu _ _ _ e, c, i, r, rc), p, t, rd, l))
              (λ e. keep s))))

  connect_selected_device-Kept : (m : Model S) → Safe m → Kept (connect_selected_device m)
  unfolding connect_selected_device
  connect_selected_device-Kept m s =
      if_keeps Kept (length m.plan.candidates == 0) (keep s)
        (keep (begin_connect_plan-Safe "Manual Connect" m.view.device_index m s))

  manual_scan-Kept : (m : Model S) → Safe m → Kept (manual_scan m)
  unfolding manual_scan
  manual_scan-Kept m s =
      let (v, (d, a), t, r, l) = s in
      if_keeps Kept m.plan.scanning (keep s) (keep (v, (d, first_row 0), t, r, push_line_short _ _))

  update_device_keys-Kept : (key : Text) (m : Model S) → Safe m → Kept (update_device_keys key m)
  unfolding update_device_keys
  update_device_keys-Kept key m s =
      let (v, (d, a), t, r, l) = s in
      let total = length m.plan.candidates in
      if_keeps Kept (one_of key "up" "k")
        (keep (v, (device_above total m.view.device_index d, a), t, r, l))
        (if_keeps Kept (one_of key "down" "j")
          (keep (v, (device_below total m.view.device_index d, a), t, r, l))
          (if_keeps Kept (is_key key "s") (manual_scan-Kept m s) (
            if_keeps Kept (is_key key "a") (keep (run_quick_connect-Safe m s)) (
              if_keeps Kept (is_key key "enter") (connect_selected_device-Kept m s) (
                if_by Kept ((parse_digit key).1 && ltb (parse_digit key).0 total)
                  (λ e.
                    connect_selected_device-Kept
                      (with_view (record m.view { device_index = (parse_digit key).0 }) m)
                      (v, (row_fits _ _ (in_menu _ _ _ e), a), t, r, l))
                  (λ e. keep s))))))

  update_control_keys-Kept :
      (is_connected : Bool) (key : Text) (m : Model S)
      → Safe m
      → Kept (update_control_keys is_connected key m)
  unfolding update_control_keys
  update_control_keys-Kept is_connected key m s =
      let ((h, c, i, r, rc), p, t, rd, l) = s in
      let above = row_above_fits control_count m.view.control_index (ground arith) in
      let below = row_below_fits control_count m.view.control_index (ground arith) in
      if_keeps Kept (one_of key "up" "k") (keep ((h, above, i, r, rc), p, t, rd, l)) (
        if_keeps Kept (one_of key "down" "j") (keep ((h, below, i, r, rc), p, t, rd, l)) (
          if_keeps Kept (is_key key "/") (enter_raw_mode-Kept is_connected m s) (
            if_keeps Kept (is_key key "enter")
              (run_control_action-Kept is_connected m.view.control_index m s)
              (if_by Kept ((parse_digit key).1 && ltb (parse_digit key).0 control_count)
                (λ e.
                  run_control_action-Kept is_connected (parse_digit key).0
                    (with_view (record m.view { control_index = (parse_digit key).0 }) m)
                    ((h, in_menu _ _ _ e, i, r, rc), p, t, rd, l))
                (λ e. keep s)))))

  update_inventory_keys-Kept :
      (is_connected : Bool) (key : Text) (m : Model S)
      → Safe m
      → Kept (update_inventory_keys is_connected key m)
  unfolding update_inventory_keys
  update_inventory_keys-Kept is_connected key m s =
      let ((h, c, i, r, rc), p, t, rd, l) = s in
      let row = row_of m.view.inventory_index in
      let above = row_above_fits inv_tune_count m.view.inventory_index (ground arith) in
      let below = row_below_fits inv_tune_count m.view.inventory_index (ground arith) in
      let moved = with_view (record m.view { inventory_index = (parse_digit key).0 }) m in
      if_keeps Kept (one_of key "up" "k") (keep ((h, c, above, r, rc), p, t, rd, l)) (
        if_keeps Kept (one_of key "down" "j") (keep ((h, c, below, r, rc), p, t, rd, l)) (
          if_keeps Kept (one_of key "left" "h")
            (keep (adjust_inventory_setting-Safe row (negsuc 0) m s))
            (if_keeps Kept (one_of key "right" "l")
              (keep (adjust_inventory_setting-Safe row (pos 1) m s))
              (if_keeps Kept (is_key key "enter")
                (keep (run_inventory_action-Safe is_connected row m s))
                (if_by Kept ((parse_digit key).1 && ltb (parse_digit key).0 inv_tune_count)
                  (λ e.
                    if_keeps Kept (leb inv_tune_apply (parse_digit key).0)
                      (keep (
                        run_inventory_action-Safe is_connected (row_of (parse_digit key).0) moved
                          ((h, c, in_menu _ _ _ e, r, rc), p, t, rd, l)))
                      (keep ((h, c, in_menu _ _ _ e, r, rc), p, t, rd, l)))
                  (λ e. keep s))))))

  selected-Safe :
      (i : ℕ) (o : Option Region) (m : Model S)
      → region_at catalog i ≡ o
      → Safe m
      → Safe (selected i o m)
  selected-Safe i none m h s = s
  selected-Safe i (some x) m h ((a, c, j, r, rc), p, t, rd, l) =
      let fits = region_at_fits catalog i x h in
      ((a, c, j, fits, fits), p, t, rd, push_line_short _ _)

  select_region-Kept : (i : ℕ) (m : Model S) → Safe m → Kept (select_region i m, [])
  unfolding select_region
  select_region-Kept i m s = keep (selected-Safe i (region_at catalog i) m refl s)

  update_region_keys-Kept : (key : Text) (m : Model S) → Safe m → Kept (update_region_keys key m)
  unfolding update_region_keys
  update_region_keys-Kept key m s =
      let ((h, c, i, r, rc), p, t, rd, l) = s in
      let total = length catalog in
      let above = row_above_fits total m.view.region_cursor (ground arith) in
      let below = row_below_fits total m.view.region_cursor (ground arith) in
      if_keeps Kept (one_of key "up" "k") (keep ((h, c, i, r, above), p, t, rd, l)) (
        if_keeps Kept (one_of key "down" "j") (keep ((h, c, i, r, below), p, t, rd, l)) (
          if_keeps Kept (is_key key "enter") (select_region-Kept m.view.region_cursor m s) (
            if_keeps Kept ((parse_digit key).1 && ltb (parse_digit key).0 total)
              (select_region-Kept (parse_digit key).0 m s) (keep s))))

  update_log_keys-Kept : (key : Text) (m : Model S) → Safe m → Kept (update_log_keys key m)
  unfolding update_log_keys
  update_log_keys-Kept key m s =
      let (v, p, t, r, l) = s in
      if_keeps Kept (one_of key "up" "k") (keep s) (
        if_keeps Kept (one_of key "down" "j") (keep s)
          (if_keeps Kept (is_key key "c") (keep (v, p, t, r, ground arith)) (keep s)))

  update_help_keys-Kept : (key : Text) (m : Model S) → Safe m → Kept (update_help_keys key m)
  unfolding update_help_keys
  update_help_keys-Kept key m s = if_keeps Kept (is_key key "enter") (keep s) (keep s)

  send_raw-Kept : (r : Result HexError Bytes) (m : Model S) → Safe m → Kept (send_raw r m)
  unfolding send_raw
  send_raw-Kept (err e) m s = keep s
  send_raw-Kept (ok payload) m s = keep s

  pub update_raw_input-Safe :
      (edit : Text → Text → Text) (key : Text) (m : Model S)
      → Safe m
      → SafeAfter (update_raw_input edit key m)
  unfolding update_raw_input
  update_raw_input-Safe edit key m s =
      (if_keeps Kept (is_key key "esc") (keep s) (
        if_keeps Kept (is_key key "enter") (send_raw-Kept (parse_hex_input m.view.input_value) m s)
          (keep s))).kept

  update_screen-Kept :
      (screen : Screen) (is_connected : Bool) (key : Text) (m : Model S)
      → Safe m
      → Kept (update_screen screen is_connected key m)
  unfolding update_screen
  update_screen-Kept home is_connected key m s = update_home_keys-Kept key m s
  update_screen-Kept devices is_connected key m s = update_device_keys-Kept key m s
  update_screen-Kept control is_connected key m s = update_control_keys-Kept is_connected key m s
  update_screen-Kept inventory is_connected key m s =
      update_inventory_keys-Kept is_connected key m s
  update_screen-Kept regions is_connected key m s = update_region_keys-Kept key m s
  update_screen-Kept logs is_connected key m s = update_log_keys-Kept key m s
  update_screen-Kept help is_connected key m s = update_help_keys-Kept key m s

  pub update_key-Safe :
      (is_connected : Bool) (key : Text) (m : Model S)
      → Safe m
      → SafeAfter (update_key is_connected key m)
  unfolding update_key
  update_key-Safe is_connected key m s =
      (if_keeps Kept (one_of key "ctrl+c" "q") (keep s) (
        if_keeps Kept (is_key key "m") (keep s) (
          if_keeps Kept (is_key key "0")
            (if_keeps Kept (is_home m.view.active_screen) (keep s) (keep s))
            (if_keeps Kept (one_of key "b" "backspace")
              (if_keeps Kept (is_home m.view.active_screen)
                (update_screen-Kept home is_connected key m s) (keep s))
              (update_screen-Kept m.view.active_screen is_connected key m s))))).kept
