-- ===== src/Tui/Actions.antt =====
-- The actions of the menus in internal/tui/update.go: runHomeAction, runControlAction and
-- enterRawMode. `is_connected` is what the transport's IsConnected answers.
use new_era.Prelude.{ℕ, Bool, true, false, not, List, [], ◌∷◌, if◌then◌else◌, ◌==◌}
use new_era.Prelude.Text.{is_empty, trim_space}
use new_era.Reader18.Commands.{get_reader_info_command}
use new_era.Tui.Model.{
  Model, Screen, home, devices, control, inventory, regions, logs, help, raw_hex, num, Cmd,
  run_scan, disconnect_reader, send, say, push_log, set_status, call_bot, stop_reading,
}
use new_era.Tui.Connect.{clear_queue, request_connection_for_action, run_quick_connect}
use new_era.Tui.Outcomes.{prepare_reading, reading_commands}

abbrev pub home_count : ℕ
home_count = 7

abbrev pub control_count : ℕ
control_count = 9

module _ {S : Type 0} where
  abbrev pub show_screen : Screen → Model S → Model S
  show_screen screen m = record m { view = record m.view { active_screen = screen } }

  abbrev pub clear_logs : Model S → Model S
  clear_logs m = record m {
    logs = [];
    view = record m.view { log_scroll = 0 };
    status = say "Logs cleared" [];
  }

  unfoldable pub run_home_action : ℕ → Model S → Model S × List Cmd
  unfolding run_quick_connect
  run_home_action index m =
      if index == 0
      then run_quick_connect m
      else if index == 1
      then (set_status "Devices" [] (show_screen devices m), [])
      else if index == 2
      then (set_status "Control" [] (show_screen control m), [])
      else if index == 3
      then (set_status "Inventory Tune" [] (show_screen inventory m), [])
      else if index == 4
      then (
        set_status "Regions" [] (record m {
          view = record m.view { active_screen = regions; region_cursor = m.view.region_index };
        }),
        [],
      )
      else if index == 5
      then (
        set_status "Logs" []
            (record m { view = record m.view { active_screen = logs; log_scroll = 0 } }),
        [],
      )
      else if index == 6
      then (set_status "Help" [] (show_screen help m), [])
      else (m, [])

  unfoldable pub enter_raw_mode : Bool → Model S → Model S × List Cmd
  enter_raw_mode is_connected m =
      if not is_connected then (set_status "Reader not connected" [] m, []) else (
        set_status "Raw mode: enter hex and press Enter" [] (record m {
          view = record m.view {
            input_mode = raw_hex;
            input_focused = true;
            input_value =
                if is_empty (trim_space m.view.input_value) then [] else m.view.input_value;
          };
        }),
        [],
      )

  unfoldable pub start_action : Bool → Model S → Model S × List Cmd
  unfolding request_connection_for_action prepare_reading
  start_action is_connected m =
      let started = prepare_reading "Preparing reader + reading started" m in
      if not is_connected
      then request_connection_for_action is_connected 0 "Start Reading" m
      else if m.reading.running
      then (set_status "Reading already running" [] m, [])
      else (started, reading_commands started)

  unfoldable pub stop_action : Model S → Model S × List Cmd
  stop_action m =
      if not m.reading.running then (set_status "Reading already stopped" [] m, []) else (
        call_bot stop_reading (
            push_log "reading stopped" [] (record m {
              reading = record m.reading { running = false };
              status =
                  say "Reading stopped. rounds=%d tags=%d"
                    (num m.reading.rounds ∷ num m.reading.tag_total ∷ []);
            })),
        [],
      )

  unfoldable pub rescan_action : Model S → Model S × List Cmd
  rescan_action m =
      let asked = record m { plan = record (clear_queue m.plan) { pending_connect = true } } in
      if m.plan.scanning
      then (set_status "Scan already running, quick-connect queued" [] asked, [])
      else (
        push_log "rescan + quick-connect" [] (
            set_status "Rescanning..." []
              (record asked { plan = record asked.plan { scanning = true } })),
        run_scan ∷ [],
      )

  unfoldable pub run_control_action : Bool → ℕ → Model S → Model S × List Cmd
  unfolding request_connection_for_action start_action stop_action rescan_action enter_raw_mode
  run_control_action is_connected index m =
      if index == 0
      then start_action is_connected m
      else if index == 1
      then stop_action m
      else if index == 2
      then (if not is_connected
          then request_connection_for_action is_connected 2 "Probe Reader Info" m
          else (
            set_status "Sending GetReaderInfo" [] m,
            send "probe-info" (get_reader_info_command m.reading.address) ∷ [],
          ))
      else if index == 3
      then (if not is_connected
          then request_connection_for_action is_connected 3 "Raw Command" m
          else enter_raw_mode is_connected m)
      else if index == 4
      then (if not is_connected
          then (set_status "Reader already disconnected" [] m, [])
          else (set_status "Disconnecting..." [] m, disconnect_reader ∷ []))
      else if index == 5
      then rescan_action m
      else if index == 6
      then (clear_logs m, [])
      else if index == 7
      then (set_status "Inventory Tune" [] (show_screen inventory m), [])
      else if index == 8
      then (set_status "Home" [] (show_screen home m), [])
      else (m, [])
