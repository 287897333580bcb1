-- ===== src/Tui/Invariant/Runs.antt =====
-- Update keeps the invariant on every message, and the first model has it: so has every model that
-- the program reaches.
use new_era.Prelude.{
  ℕ, ◌+◌, ◌*◌, ◌%◌, ◌++◌, ◌<◌, ◌≡◌, ◌∙◌, refl, ap, Bool, true, false, not, ◌&&◌, ◌||◌, Option, none,
  some, List, [], ◌∷◌, if◌then◌else◌, if_keeps, length, foldl, arith,
}
use new_era.Prelude.Int.{ℤ, pos}
use new_era.Prelude.Text.{Text, codes, text_eq, has_prefix, to_lower, contains_text}
use new_era.Reader18.Crc.{Bytes}
use new_era.Reader18.Frames.{Frame, parse_frames}
use new_era.Sdk.Config.{millisecond}
use new_era.Sdk.Antenna.{wrap_index, next_inventory_antenna}
use new_era.Sdk.Antenna.Laws.{place, next_inventory_antenna_lem}
use new_era.Sdk.Receive.{limit_buffer}
use new_era.Tui.Texts.{format_hex}
use new_era.Tui.Regions.{default_index, index_from}
use new_era.Tui.Model.{
  Model, BotCall, stop_reading, new_model, push_log, set_status, str, disconnect_reader,
}
use new_era.Tui.Frames.{handle_protocol_frame, is_control, every}
use new_era.Tui.Keys.{is_key}
use new_era.Tui.Update.{
  Msg, window_size, key, bot_status, scan_finished, connect_finished, disconnect_finished,
  command_sent, ticked, probe_timed_out, packet, packets_closed, errors_closed, reader_error,
  stop_running, on_window_size, on_bot_status, on_disconnect_finished, send_failed, sent_well,
  on_command_sent, inventory_round, on_inventory_tick, on_probe_timeout, is_recent, on_frames,
  on_packet, reader_closed, connection_lost, on_reader_error, is_raw, update,
}
use new_era.Tui.Invariant.{IsTuning, Safe, SafeAfter, push_line_short, told_epcs}
use new_era.Tui.Invariant.Connect.{
  first_row, retry_or-Safe, on_scan_finished-Safe, on_connect_finished-Safe,
}
use new_era.Tui.Invariant.Frames.{handle_protocol_frame-Safe}
use new_era.Tui.Invariant.Actions.{told_stop}
use new_era.Tui.Invariant.Keys.{update_raw_input-Safe, update_key-Safe}

-- The calls of the bot where the inventory may have been running.
told_stop_if :
    (running : Bool) (calls : List BotCall)
    → told_epcs (if running then calls ++ (stop_reading ∷ []) else calls) ≡ told_epcs calls
told_stop_if true calls = told_stop calls
told_stop_if false calls = refl

next_place : (mask : ℕ) (start : ℤ) → mask < 256 → (next_inventory_antenna mask start).1 < 8
next_place mask start lt =
    let (k, near, eq, picked, first) = next_inventory_antenna_lem mask start lt in
    let p : (next_inventory_antenna mask start).1 ≡ (place (wrap_index start) k + 1) % 8 =
      ap (λ (r : ℕ × ℕ). r.1) eq in
    let small : (place (wrap_index start) k + 1) % 8 < 8 = ground arith in omega (arith, p, small)

mask_below :
    {q session scan mask : ℕ} {interval : ℤ} → IsTuning q session scan mask interval → mask < 256
mask_below (q, s, st, (low, high), i) = ground arith

module _ {S : Type 0} where
  stop_running-Safe : (m : Model S) → Safe m → Safe (stop_running m)
  stop_running-Safe m (v, p, t, (told, once, counts, idx), l) =
      (v, p, t, (told_stop_if m.reading.running m.bot_calls ∙ told, once, counts, idx), l)

  on_bot_status-Safe :
      (error : Option Text) (stats : S) (time : ℕ) (m : Model S)
      → Safe m
      → SafeAfter (on_bot_status error stats time m)
  unfolding on_bot_status
  on_bot_status-Safe (some error) stats time m s = s
  on_bot_status-Safe none stats time m s = s

  on_disconnect_finished-Safe :
      (error : Option Text) (m : Model S) → Safe m → SafeAfter (on_disconnect_finished error m)
  unfolding on_disconnect_finished
  on_disconnect_finished-Safe (some error) m (v, p, t, r, l) = (v, p, t, r, push_line_short _ _)
  on_disconnect_finished-Safe none m s =
      let (v, (d, a), t, r, l) = stop_running-Safe m s in
      (v, (d, first_row 0), t, r, push_line_short _ _)

  send_failed-Safe :
      (name error : Text) (m : Model S) → Safe m → SafeAfter (send_failed name error m)
  unfolding send_failed
  send_failed-Safe name error m (v, p, t, r, l) =
      let (w, q, u, k, n) = stop_running-Safe m (v, p, t, r, l) in
      if_keeps SafeAfter (has_prefix name (codes "inventory-")) (w, q, u, k, push_line_short _ _)
        (v, p, t, r, push_line_short _ _)

  sent_well-Safe : (name : Text) (count : ℕ) (m : Model S) → Safe m → Safe (sent_well name count m)
  unfolding sent_well
  sent_well-Safe name count m s =
      let (v, p, t, r, l) = s in
      if_keeps Safe (has_prefix name (codes "inventory-"))
        (if_keeps Safe (is_control m.view.active_screen && every 24 m) s s)
        (if_keeps Safe (has_prefix name (codes "cfg-")) s (
          if_keeps Safe (is_key name "raw") (v, p, t, r, push_line_short _ _)
            (if_keeps Safe (is_key name "probe-info") (v, p, t, r, push_line_short _ _) s)))

  on_command_sent-Safe :
      (name : Text) (count : ℕ) (error : Option Text) (m : Model S)
      → Safe m
      → SafeAfter (on_command_sent name count error m)
  unfolding on_command_sent
  on_command_sent-Safe name count (some error) m s = send_failed-Safe name error m s
  on_command_sent-Safe name count none m s =
      sent_well-Safe name count (record m { tx_bytes = m.tx_bytes + count }) s

  on_inventory_tick-Safe :
      (is_connected : Bool) (m : Model S) → Safe m → SafeAfter (on_inventory_tick is_connected m)
  unfolding on_inventory_tick inventory_round
  on_inventory_tick-Safe is_connected m s =
      let (v, p, t, (told, once, counts, idx), l) = s in
      if_keeps SafeAfter (not m.reading.running) s (
        if_keeps SafeAfter (not is_connected) (stop_running-Safe m s) (
          v,
          p,
          t,
          (told, once, counts, next_place m.tuning.ant_mask (pos m.reading.ant_idx) (mask_below t)),
          l,
        ))

  on_probe_timeout-Safe : (m : Model S) → Safe m → SafeAfter (on_probe_timeout m)
  unfolding on_probe_timeout
  on_probe_timeout-Safe m s =
      let (v, p, t, r, l) = s in
      let timed_out =
        push_log "probe timeout: endpoint did not answer reader protocol" []
          (record m { reading = record m.reading { awaiting_probe = false } }) in
      if_keeps SafeAfter (m.reading.awaiting_probe && not m.reading.running)
        (retry_or-Safe (codes "probe timeout") timed_out
          (
            set_status "Connected endpoint did not answer reader protocol" [] timed_out,
            disconnect_reader ∷ [],
          )
          (v, p, t, r, push_line_short _ _) (v, p, t, r, push_line_short _ _))
        s

  all_frames-Safe :
      (frames : List Frame) (m : Model S)
      → Safe m
      → Safe (foldl (λ model f. handle_protocol_frame f model) m frames)
  all_frames-Safe [] m s = s
  all_frames-Safe (frame ∷ frames) m s =
      all_frames-Safe frames (handle_protocol_frame frame m) (handle_protocol_frame-Safe frame m s)

  on_frames-Safe :
      (now : ℕ) (frames : List Frame) (m : Model S) → Safe m → Safe (on_frames now frames m)
  unfolding on_frames
  on_frames-Safe now [] m s =
      let (v, p, t, r, l) = s in
      if_keeps Safe (not m.reading.running || not (is_recent now m.last_raw_log_at))
        (v, p, t, r, push_line_short _ _) s
  on_frames-Safe now (frame ∷ frames) m s = all_frames-Safe (frame ∷ frames) m s

  on_packet-Safe :
      (data_bytes : Bytes) (now : ℕ) (m : Model S) → Safe m → SafeAfter (on_packet data_bytes now m)
  unfolding on_packet
  on_packet-Safe data_bytes now m s =
      let (frames, remaining) =
        parse_frames (limit_buffer (m.reading.protocol_buffer ++ data_bytes)) in
      on_frames-Safe now frames
        (record m {
          rx_bytes = m.rx_bytes + length data_bytes;
          last_rx = format_hex data_bytes 52;
          reading = record m.reading { protocol_buffer = remaining };
        })
        s

  connection_lost-Safe : (error : Text) (m : Model S) → Safe m → SafeAfter (connection_lost error m)
  unfolding connection_lost
  connection_lost-Safe error m s =
      let stopped = record (stop_running m) {
        reading = record m.reading { running = false; awaiting_probe = false };
      } in
      let safe = stop_running-Safe m s in
      if_keeps SafeAfter m.plan.active safe
        (retry_or-Safe error stopped (reader_closed stopped) safe safe)

  logged_error-Safe :
      (error : Text) (is_silent : Bool) (m : Model S)
      → Safe m
      → Safe (if is_silent then m else push_log "reader error: %s" (str error ∷ []) m)
  logged_error-Safe error is_silent m s =
      let (v, p, t, r, l) = s in if_keeps Safe is_silent s (v, p, t, r, push_line_short _ _)

  on_reader_error-Safe :
      (is_connected : Bool) (error : Text) (is_closed : Bool) (m : Model S)
      → Safe m
      → SafeAfter (on_reader_error is_connected error is_closed m)
  unfolding on_reader_error
  on_reader_error-Safe is_connected error is_closed m s =
      let is_silent =
        is_closed || contains_text (to_lower error) (codes "use of closed network connection") in
      let safe = logged_error-Safe error is_silent m s in
      if_keeps SafeAfter is_connected safe (
        connection_lost-Safe error
          (if is_silent then m else push_log "reader error: %s" (str error ∷ []) m) safe)

  pub update-Safe :
      (edit : Text → Text → Text) (is_connected : Bool) (msg : Msg S) (m : Model S)
      → Safe m
      → SafeAfter (update edit is_connected msg m)
  unfolding update on_window_size
  update-Safe edit is_connected (window_size width height) m s = s
  update-Safe edit is_connected (key pressed) m s =
      if_keeps SafeAfter (is_raw m.view.input_mode) (update_raw_input-Safe edit pressed m s)
        (update_key-Safe is_connected pressed m s)
  update-Safe edit is_connected (bot_status error stats time) m s =
      on_bot_status-Safe error stats time m s
  update-Safe edit is_connected (scan_finished error duration candidates) m s =
      on_scan_finished-Safe error duration candidates m s
  update-Safe edit is_connected (connect_finished error endpoint) m s =
      on_connect_finished-Safe error endpoint m s
  update-Safe edit is_connected (disconnect_finished error) m s =
      on_disconnect_finished-Safe error m s
  update-Safe edit is_connected (command_sent name count error) m s =
      on_command_sent-Safe name count error m s
  update-Safe edit is_connected ticked m s = on_inventory_tick-Safe is_connected m s
  update-Safe edit is_connected probe_timed_out m s = on_probe_timeout-Safe m s
  update-Safe edit is_connected (packet data_bytes now) m s = on_packet-Safe data_bytes now m s
  update-Safe edit is_connected packets_closed m s = s
  update-Safe edit is_connected errors_closed m s = s
  update-Safe edit is_connected (reader_error error is_closed) m s =
      on_reader_error-Safe is_connected error is_closed m s

  -- A run of the program: each message with whether the transport was connected when it came.
  unfoldable pub run : (Text → Text → Text) → List (Bool × Msg S) → Model S → Model S
  run edit [] m = m
  run edit ((is_connected, msg) ∷ msgs) m = run edit msgs (update edit is_connected msg m).0

  pub run-Safe :
      (edit : Text → Text → Text) (msgs : List (Bool × Msg S)) (m : Model S)
      → Safe m
      → Safe (run edit msgs m)
  unfolding run
  run-Safe edit [] m s = s
  run-Safe edit ((is_connected, msg) ∷ msgs) m s =
      run-Safe edit msgs (update edit is_connected msg m).0 (update-Safe edit is_connected msg m s)

-- The first model is within the bounds.
new_model-Safe : (S : Type 0) (ports : List ℤ) → Safe (new_model {S = S} default_index ports)
unfolding default_index index_from told_epcs
new_model-Safe S ports = (
  (ground arith, ground arith, ground arith, ground arith, ground arith),
  (ground arith, ground arith),
  (
    ground arith,
    ground arith,
    (ground arith, ground arith),
    (ground arith, ground arith),
    (60 * millisecond, refl, (ground arith, ground arith)),
  ),
  (refl, tt, refl, ground arith),
  ground arith,
)

-- After any messages, each with whether the transport was connected, and with any input field, the
-- program has its menu, tune and region cursors on a row, and the cursor on the devices and the
-- place in the queue of endpoints on one or at 0. The Q value is at most 15, the session at most 3,
-- the scan time and the antenna mask are from 1 to 255, the poll interval is 20 milliseconds to a
-- second. The bot was told of each EPC of the seen set once since the last start, the tag counter
-- is the size of that set, the antenna index is below 8 and the log has at most 240 lines.
pub run-new_model-Safe :
    (S : Type 0) (edit : Text → Text → Text) (msgs : List (Bool × Msg S)) (ports : List ℤ)
    → Safe (run edit msgs (new_model {S = S} default_index ports))
run-new_model-Safe S edit msgs ports =
    run-Safe edit msgs (new_model default_index ports) (new_model-Safe S ports)
