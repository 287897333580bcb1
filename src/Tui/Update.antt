-- ===== src/Tui/Update.antt =====
-- Update of internal/tui/update.go, with onCommandSent. The messages are those of types.go with
-- the library's WindowSizeMsg and KeyMsg; `is_connected` is what the transport's IsConnected
-- answers, and a time is in nanoseconds.
use new_era.Prelude.{
  ℕ, ◌+◌, ◌*◌, ◌%◌, Bool, true, false, not, ◌&&◌, ◌||◌, Option, none, some, List, [], ◌∷◌, ◌++◌,
  if◌then◌else◌, ltb, ◌==◌, length, foldl,
}
use new_era.Prelude.Int.{ℤ, pos, negsuc, ◌+ℤ◌, ltb_ℤ}
use new_era.Prelude.Text.{Text, codes, text_eq, has_prefix, to_lower, contains_text}
use new_era.Reader18.Crc.{Bytes}
use new_era.Reader18.Commands.{inventory_g2_command, inventory_single_tag_command}
use new_era.Reader18.Frames.{Frame, parse_frames}
use new_era.Sdk.Antenna.{next_inventory_antenna}
use new_era.Sdk.Config.{millisecond}
use new_era.Sdk.Receive.{limit_buffer}
use new_era.Tui.Texts.{format_hex}
use new_era.Tui.Plan.{Candidate, Endpoint}
use new_era.Tui.Model.{
  Model, mode_none, raw_hex, InputMode, num, str, Cmd, disconnect_reader, wait_packet,
  wait_reader_err, send_silent, inventory_tick, bot_status_tick, say, push_log, set_status,
  stop_reading, effective_inventory_interval,
}
use new_era.Tui.Connect.{clear_queue, or_else, retry_next_connect}
use new_era.Tui.Outcomes.{on_scan_finished, on_connect_finished}
use new_era.Tui.Frames.{is_control, every, handle_protocol_frame}
use new_era.Tui.Keys.{is_key, update_raw_input, update_key}

-- A reader error is its text, and whether it is net.ErrClosed.
pub data Msg (S : Type 0) : Type 0 where
  window_size : ℤ → ℤ → Msg S
  key : Text → Msg S
  bot_status : Option Text → S → ℕ → Msg S
  scan_finished : Option Text → ℤ → List Candidate → Msg S
  connect_finished : Option Text → Endpoint → Msg S
  disconnect_finished : Option Text → Msg S
  command_sent : Text → ℕ → Option Text → Msg S
  ticked probe_timed_out : Msg S
  packet : Bytes → ℕ → Msg S
  packets_closed errors_closed : Msg S
  reader_error : Text → Bool → Msg S

-- Whether a raw packet was logged less than two seconds ago.
abbrev pub is_recent : ℕ → Option ℕ → Bool
is_recent now none = false
is_recent now (some t) = not (ltb (t + 2000 * millisecond) now)

abbrev pub is_raw : InputMode → Bool
is_raw raw_hex = true
is_raw mode_none = false

module _ {S : Type 0} where
  -- The bot hears of a stop only if the inventory was running.
  abbrev pub stop_running : Model S → Model S
  stop_running m = record m {
    reading = record m.reading { running = false };
    bot_calls = if m.reading.running then m.bot_calls ++ (stop_reading ∷ []) else m.bot_calls;
  }

  unfoldable pub on_window_size : ℤ → ℤ → Model S → Model S × List Cmd
  on_window_size width height m = (
    record m {
      view = record m.view {
        width = width;
        height = height;
        input_width = if ltb_ℤ (pos 20) width then width +ℤ negsuc 13 else m.view.input_width;
      };
    },
    [],
  )

  unfoldable pub on_bot_status : Option Text → S → ℕ → Model S → Model S × List Cmd
  on_bot_status (some error) stats time m = (
    record m {
      bot = record m.bot { online = false; last_err = some error; last_sync = some time };
    },
    bot_status_tick (pos (1000 * millisecond)) ∷ [],
  )
  on_bot_status none stats time m = (
    record m {
      bot = record m.bot {
        online = true;
        stats = some stats;
        last_err = none;
        last_sync = some time;
      };
    },
    bot_status_tick (pos (1000 * millisecond)) ∷ [],
  )

  unfoldable pub on_disconnect_finished : Option Text → Model S → Model S × List Cmd
  on_disconnect_finished (some error) m = (
    push_log "disconnect error: %s" (str error ∷ [])
        (set_status "Disconnect failed: %s" (str error ∷ []) m),
    [],
  )
  on_disconnect_finished none m = (
    push_log "reader disconnected" [] (record (stop_running m) {
      reading = record m.reading { running = false; awaiting_probe = false };
      plan = record (clear_queue m.plan) { active = false };
      status = say "Disconnected" [];
    }),
    [],
  )

  unfoldable pub send_failed : Text → Text → Model S → Model S × List Cmd
  send_failed name error m =
      if has_prefix name (codes "inventory-")
      then (
        push_log "inventory send error: %s" (str error ∷ [])
            (set_status "Reading stopped: %s" (str error ∷ []) (stop_running m)),
        [],
      )
      else (
        push_log "%s error: %s" (str name ∷ str error ∷ [])
            (set_status "Command failed: %s" (str error ∷ []) m),
        [],
      )

  -- After the byte counter has grown.
  unfoldable pub sent_well : Text → ℕ → Model S → Model S
  sent_well name count m =
      if has_prefix name (codes "inventory-")
      then (if is_control m.view.active_screen && every 24 m
          then set_status "Reading... rounds=%d unique=%d"
              (num m.reading.rounds ∷ num m.reading.tag_total ∷ []) m
          else m)
      else if has_prefix name (codes "cfg-")
      then m
      else if is_key name "raw"
      then push_log "tx raw %d bytes" (num count ∷ []) (record m {
        status = say "Raw sent (%d bytes)" (num count ∷ []);
        view = record m.view { input_value = []; input_mode = mode_none; input_focused = false };
      })
      else if is_key name "probe-info"
      then push_log "tx probe reader info" [] (record m {
        status = say "GetReaderInfo sent, waiting response" [];
        reading = record m.reading { awaiting_probe = true };
      })
      else set_status "Sent %s (%d bytes)" (str name ∷ num count ∷ []) m

  unfoldable pub on_command_sent : Text → ℕ → Option Text → Model S → Model S × List Cmd
  unfolding send_failed sent_well
  on_command_sent name count (some error) m = send_failed name error m
  on_command_sent name count none m =
      (sent_well name count (record m { tx_bytes = m.tx_bytes + count }), [])

  -- A round of the inventory; autoFreqCycleEnabled is false.
  unfoldable pub inventory_round : Model S → Model S × List Cmd
  unfolding next_inventory_antenna
  inventory_round m =
      let (antenna, next_idx) = next_inventory_antenna m.tuning.ant_mask (pos m.reading.ant_idx) in
      let rounds = m.reading.rounds + 1 in
      let t = m.tuning in
      let command =
        inventory_g2_command m.reading.address t.q_value t.session 0x00 0x00 t.target antenna
          t.scan_time in
      (
        record m {
          reading = record m.reading { rounds = rounds; antenna = antenna; ant_idx = next_idx };
        },
        send_silent "inventory-g2" command
            ∷ inventory_tick (effective_inventory_interval t)
            ∷ (if rounds % 6 == 0
                then send_silent "inventory-single" (inventory_single_tag_command m.reading.address)
                  ∷ []
                else []),
      )

  unfoldable pub on_inventory_tick : Bool → Model S → Model S × List Cmd
  unfolding inventory_round
  on_inventory_tick is_connected m =
      if not m.reading.running
      then (m, [])
      else if not is_connected
      then (set_status "Reading stopped: reader disconnected" [] (stop_running m), [])
      else inventory_round m

  unfoldable pub on_probe_timeout : Model S → Model S × List Cmd
  unfolding retry_next_connect
  on_probe_timeout m =
      let timed_out =
        push_log "probe timeout: endpoint did not answer reader protocol" []
          (record m { reading = record m.reading { awaiting_probe = false } }) in
      if m.reading.awaiting_probe && not m.reading.running
      then or_else (retry_next_connect (codes "probe timeout") timed_out) (
        set_status "Connected endpoint did not answer reader protocol" [] timed_out,
        disconnect_reader ∷ [],
      )
      else (m, [])

  abbrev pub log_raw : ℕ → Model S → Model S
  log_raw now m =
      push_log "rx raw %s" (str m.last_rx ∷ []) (record m { last_raw_log_at = some now })

  unfoldable pub on_frames : ℕ → List Frame → Model S → Model S
  unfolding handle_protocol_frame
  on_frames now [] m =
      if not m.reading.running || not (is_recent now m.last_raw_log_at) then log_raw now m else m
  on_frames now (frame ∷ frames) m =
      foldl (λ model f. handle_protocol_frame f model) m (frame ∷ frames)

  unfoldable pub on_packet : Bytes → ℕ → Model S → Model S × List Cmd
  unfolding on_frames limit_buffer
  on_packet data_bytes now m =
      let (frames, remaining) =
        parse_frames (limit_buffer (m.reading.protocol_buffer ++ data_bytes)) in
      (
        on_frames now frames (record m {
          rx_bytes = m.rx_bytes + length data_bytes;
          last_rx = format_hex data_bytes 52;
          reading = record m.reading { protocol_buffer = remaining };
        }),
        wait_packet ∷ [],
      )

  abbrev pub reader_closed : Model S → Model S × List Cmd
  reader_closed m = (
    record m {
      plan = record m.plan { active = false };
      status = say "Reader connection closed" [];
    },
    wait_reader_err ∷ [],
  )

  -- The connection is gone: the next endpoint, unless one is being connected to already.
  unfoldable pub connection_lost : Text → Model S → Model S × List Cmd
  unfolding retry_next_connect
  connection_lost error m =
      let stopped = record (stop_running m) {
        reading = record m.reading { running = false; awaiting_probe = false };
      } in
      if m.plan.active
      then reader_closed stopped
      else or_else (retry_next_connect error stopped) (reader_closed stopped)

  unfoldable pub on_reader_error : Bool → Text → Bool → Model S → Model S × List Cmd
  unfolding connection_lost
  on_reader_error is_connected error is_closed m =
      let logged =
        if is_closed || contains_text (to_lower error) (codes "use of closed network connection")
        then m
        else push_log "reader error: %s" (str error ∷ []) m in
      if is_connected then (logged, wait_reader_err ∷ []) else connection_lost error logged

  unfoldable pub update : (Text → Text → Text) → Bool → Msg S → Model S → Model S × List Cmd
  unfolding on_window_size update_raw_input update_key on_bot_status on_scan_finished
      on_connect_finished on_disconnect_finished on_command_sent on_inventory_tick on_probe_timeout
      on_packet on_reader_error
  update edit is_connected (window_size width height) m = on_window_size width height m
  update edit is_connected (key pressed) m =
      if is_raw m.view.input_mode
      then update_raw_input edit pressed m
      else update_key is_connected pressed m
  update edit is_connected (bot_status error stats time) m = on_bot_status error stats time m
  update edit is_connected (scan_finished error duration candidates) m =
      on_scan_finished error duration candidates m
  update edit is_connected (connect_finished error endpoint) m =
      on_connect_finished error endpoint m
  update edit is_connected (disconnect_finished error) m = on_disconnect_finished error m
  update edit is_connected (command_sent name count error) m = on_command_sent name count error m
  update edit is_connected ticked m = on_inventory_tick is_connected m
  update edit is_connected probe_timed_out m = on_probe_timeout m
  update edit is_connected (packet data_bytes now) m = on_packet data_bytes now m
  update edit is_connected packets_closed m = (m, if is_connected then wait_packet ∷ [] else [])
  update edit is_connected errors_closed m = (m, if is_connected then wait_reader_err ∷ [] else [])
  update edit is_connected (reader_error error is_closed) m =
      on_reader_error is_connected error is_closed m
