-- ===== src/Tui/Outcomes.antt =====
-- What becomes of a scan and of a connection in internal/tui/update.go: onScanFinished and
-- onConnectFinished.
use Prim.Native.String.{String}
use new_era.Prelude.{
  ℕ, ◌*◌, true, false, Option, none, some, List, [], ◌∷◌, ◌++◌, if◌then◌else◌, leb, ◌==◌, length,
}
use new_era.Prelude.Int.{ℤ, pos}
use new_era.Prelude.Text.{Text}
use new_era.Reader18.Commands.{
  set_work_mode_command, set_scan_time_command, set_antenna_mux_command, set_output_power_command,
  get_reader_info_command,
}
use new_era.Sdk.Config.{millisecond}
use new_era.Tui.Plan.{Candidate, Endpoint, preferred_candidate_index, count_verified_candidates}
use new_era.Tui.Model.{
  Model, num, int, str, at_endpoint, Cmd, send, send_silent, inventory_tick, probe_timeout,
  wait_packet, wait_reader_err, say, push_log, set_status, call_bot, start_reading, control,
  raw_hex, effective_inventory_interval,
}
use new_era.Tui.Connect.{clear_queue, begin_connect_plan, retry_next_connect, or_else}

abbrev pub base_commands : List Cmd
base_commands = wait_packet ∷ wait_reader_err ∷ []

module _ {S : Type 0} where
  -- A scan's error that is neither a deadline nor a cancellation; or its candidates.
  unfoldable pub scan_failed : Text → Model S → Model S × List Cmd
  scan_failed error m = (
    push_log "scan error: %s" (str error ∷ []) (record m {
      plan = record m.plan { pending_connect = false; active = false };
      status = say "Scan failed: %s" (str error ∷ []);
    }),
    [],
  )

  unfoldable pub scan_empty : ℤ → Model S → Model S × List Cmd
  scan_empty duration m = (
    push_log "scan done: no candidates" [] (record m {
      plan = record (clear_queue m.plan) {
        pending_connect = false;
        pending_action = none;
        active = false;
      };
      status = say "Scan finished (%s), no reader found" (int duration ∷ []);
    }),
    [],
  )

  -- By the preferred candidate of the scan, while a connection is wanted.
  unfoldable pub connect_found : Option ℕ → Model S → Model S × List Cmd
  unfolding begin_connect_plan
  connect_found none m = (
    push_log "quick connect skipped: no endpoints" [] (record m {
      plan = record (clear_queue m.plan) { pending_connect = false; pending_action = none };
      status = say "No reader endpoint found." [];
    }),
    [],
  )
  connect_found (some idx) m =
      begin_connect_plan "Quick Connect" idx
        (record m { plan = record m.plan { pending_connect = false } })

  unfoldable pub scan_found : ℤ → Model S → Model S × List Cmd
  unfolding connect_found
  scan_found duration m =
      let count = length m.plan.candidates in
      let verified = count_verified_candidates m.plan.candidates in
      let told = push_log "scan done: %d candidates (%d verified)" (num count ∷ num verified ∷ []) (
        set_status "Scan finished (%s), %d candidate(s), verified=%d"
          (int duration ∷ num count ∷ num verified ∷ []) m) in
      if m.plan.pending_connect
      then connect_found (preferred_candidate_index m.plan.candidates) told
      else (told, [])

  abbrev pub with_candidates : ℤ → List Candidate → Model S → Model S
  with_candidates duration candidates m = record m {
    plan = record m.plan { scanning = false; last_scan_time = duration; candidates = candidates };
    view = record m.view {
      device_index = if leb (length candidates) m.view.device_index then 0 else m.view.device_index;
    };
  }

  unfoldable pub on_scan_finished : Option Text → ℤ → List Candidate → Model S → Model S × List Cmd
  unfolding scan_failed scan_empty scan_found
  on_scan_finished (some error) duration candidates m =
      scan_failed error
        (record m { plan = record m.plan { scanning = false; last_scan_time = duration } })
  on_scan_finished none duration candidates m =
      if length candidates == 0
      then scan_empty duration (with_candidates duration candidates m)
      else scan_found duration (with_candidates duration candidates m)

  -- What starting to read does to the state, in runControlAction and in onConnectFinished.
  unfoldable pub prepare_reading : String → Model S → Model S
  prepare_reading text m =
      let mask = if m.tuning.ant_mask == 0 then 0x01 else m.tuning.ant_mask in
      let tuned = record m.tuning { ant_mask = mask } in
      call_bot start_reading (
        push_log "reading started (poll=%s effective=%s scan=%d)"
          (int tuned.interval ∷ int (effective_inventory_interval tuned) ∷ num tuned.scan_time ∷ [])
          (record m {
            tuning = tuned;
            reading = record m.reading {
              running = true;
              rounds = 0;
              tag_total = 0;
              freq_idx = 0;
              no_tag_hit = 0;
              ant_idx = 0;
              last_tag_epc = [];
              last_tag_antenna = 0;
              last_tag_rssi = 0;
              seen_tag_epc = [];
              auto_addr = true;
              protocol_buffer = [];
            };
            status = say text [];
          }))

  -- The commands that go with it.
  abbrev pub reading_commands : Model S → List Cmd
  reading_commands m =
      let addr = m.reading.address in
      send_silent "cfg-work-mode" (set_work_mode_command addr (0x00 ∷ []))
      ∷ send_silent "cfg-scan-time" (set_scan_time_command addr m.tuning.scan_time)
      ∷ send_silent "cfg-ant-mask" (set_antenna_mux_command addr m.tuning.ant_mask)
      ∷ send_silent "cfg-power" (set_output_power_command addr 0x1E)
      ∷ inventory_tick (effective_inventory_interval m.tuning)
      ∷ []

  abbrev pub no_pending : Model S → Model S
  no_pending m = record m { plan = record m.plan { pending_action = none } }

  -- Any other pending action, or none: the endpoint is probed, and a timer started.
  unfoldable pub probe_endpoint : Model S → Model S × List Cmd
  probe_endpoint m =
      let probe = send "probe-info" (get_reader_info_command m.reading.address) in
      (
        record m { reading = record m.reading { awaiting_probe = true } },
        base_commands ++ (probe ∷ probe_timeout (pos (2000 * millisecond)) ∷ []),
      )

  -- By the pending action: 0 starts reading, 2 probes, 3 opens the raw mode.
  unfoldable pub run_pending : Option ℕ → Model S → Model S × List Cmd
  unfolding prepare_reading probe_endpoint
  run_pending none m = probe_endpoint m
  run_pending (some n) m =
      let started =
        prepare_reading "Connected. Preparing reader + reading started" (no_pending m) in
      let probe = send "probe-info" (get_reader_info_command m.reading.address) in
      let raw = record m.view { input_mode = raw_hex; input_focused = true } in
      if n == 0
      then (started, base_commands ++ reading_commands started)
      else if n == 2
      then (
        set_status "Connected. Sending GetReaderInfo" [] (no_pending m),
        base_commands ++ (probe ∷ []),
      )
      else if n == 3
      then (
        set_status "Connected. Raw mode ready" [] (record (no_pending m) { view = raw }),
        base_commands,
      )
      else probe_endpoint m

  unfoldable pub connect_failed : Text → Model S → Model S × List Cmd
  unfolding retry_next_connect
  connect_failed error m =
      let logged = push_log "connect error: %s" (str error ∷ []) m in
      or_else (retry_next_connect error logged)
        (set_status "Connect failed: %s" (str error ∷ []) (no_pending logged), [])

  unfoldable pub connect_succeeded : Endpoint → Model S → Model S × List Cmd
  unfolding run_pending
  connect_succeeded endpoint m = run_pending m.plan.pending_action (
      push_log "connected: %s" (at_endpoint endpoint ∷ []) (record m {
        plan = clear_queue m.plan;
        view = record m.view { active_screen = control };
        reading = record m.reading {
          running = false;
          protocol_buffer = [];
          awaiting_probe = false;
        };
        status = say "Connected: %s" (at_endpoint endpoint ∷ []);
      }))

  unfoldable pub on_connect_finished : Option Text → Endpoint → Model S → Model S × List Cmd
  unfolding connect_failed connect_succeeded
  on_connect_finished (some error) endpoint m =
      connect_failed error (record m { plan = record m.plan { active = false } })
  on_connect_finished none endpoint m =
      connect_succeeded endpoint (record m { plan = record m.plan { active = false } })
