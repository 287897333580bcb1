-- ===== src/Tui/Model.antt =====
-- The state of internal/tui/types.go and model.go. The source has one flat struct: its fields are
-- grouped here by the part of the program that they serve. A status or log line is its format and
-- what is filled in; a log line is without its time. A duration is in nanoseconds.
use Prim.Native.String.{String}
use new_era.Prelude.{
  ℕ, ◌-◌, ◌*◌, Bool, true, false, Option, none, some, List, [], ◌∷◌, ◌++◌, if◌then◌else◌, ltb,
  length, drop,
}
use new_era.Prelude.Int.{ℤ, pos, ltb_ℤ}
use new_era.Prelude.Text.{Text}
use new_era.Reader18.Crc.{Bytes}
use new_era.Reader18.Commands.{default_reader_address}
use new_era.Sdk.Config.{millisecond}
use new_era.Tui.Plan.{Candidate, Endpoint}

pub data Screen : Type 0 where
  home devices control inventory regions logs help : Screen

pub data InputMode : Type 0 where
  mode_none raw_hex : InputMode

pub data Arg : Type 0 where
  num : ℕ → Arg
  int : ℤ → Arg
  str : Text → Arg
  lit : String → Arg
  at_endpoint : Endpoint → Arg

pub record Line : Type 0 where
  pub format : String
  pub args : List Arg

-- The parameters of the inventory that the tune screen edits.
pub record Tuning : Type 0 where
  pub interval : ℤ
  pub q_value : ℕ
  pub session : ℕ
  pub target : ℕ
  pub ant_mask : ℕ
  pub scan_time : ℕ
  pub no_tag_ab : ℤ
  pub show_phase_freq : Bool

pub record Reading : Type 0 where
  pub running : Bool
  pub address : ℕ
  pub auto_addr : Bool
  pub antenna : ℕ
  pub no_tag_hit : ℕ
  pub rounds : ℕ
  pub tag_total : ℕ
  pub freq_idx : ℕ
  pub ant_idx : ℕ
  pub last_tag_antenna : ℕ
  pub last_tag_rssi : ℕ
  pub last_tag_epc : Text
  pub seen_tag_epc : List Text
  pub protocol_buffer : Bytes
  pub awaiting_probe : Bool

-- `pending_action` is `none` for noPendingAction.
pub record Connecting : Type 0 where
  pub pending_connect : Bool
  pub pending_action : Option ℕ
  pub queue : List Endpoint
  pub attempt : ℕ
  pub action_label : String
  pub active : Bool
  pub scanning : Bool
  pub candidates : List Candidate
  pub last_scan_time : ℤ

-- `input_value` is the text of the input field, which is focused or blurred.
pub record View : Type 0 where
  pub active_screen : Screen
  pub home_index : ℕ
  pub device_index : ℕ
  pub control_index : ℕ
  pub inventory_index : ℕ
  pub region_index : ℕ
  pub region_cursor : ℕ
  pub log_scroll : ℕ
  pub input_mode : InputMode
  pub input_value : Text
  pub input_focused : Bool
  pub input_width : ℤ
  pub width : ℤ
  pub height : ℤ

-- What the program asks of the client of the bot, besides its status.
pub data BotCall : Type 0 where
  start_reading stop_reading : BotCall
  new_epc : Text → BotCall

-- `S` is the type of the bot's counters; `bot_calls` has the calls so far, oldest first.
pub record Bot (S : Type 0) : Type 0 where
  pub online : Bool
  pub stats : Option S
  pub last_sync : Option ℕ
  pub last_err : Option Text

pub record Model (S : Type 0) : Type 0 where
  pub view : View
  pub plan : Connecting
  pub tuning : Tuning
  pub reading : Reading
  pub bot : Bot S
  pub bot_calls : List BotCall
  pub scan_ports : List ℤ
  pub status : Line
  pub logs : List Line
  pub rx_bytes : ℕ
  pub tx_bytes : ℕ
  pub last_rx : Text
  pub last_raw_log_at : Option ℕ

-- What Update returns besides the model: what is to be run, whose answer is a later message.
pub data Cmd : Type 0 where
  run_scan quit wait_packet wait_reader_err edit_input disconnect_reader : Cmd
  reconnect : Endpoint → Cmd
  send send_silent : String → Bytes → Cmd
  inventory_tick probe_timeout bot_status_tick : ℤ → Cmd

abbrev pub say : String → List Arg → Line
say format args = record { format = format; args = args }

-- pushLog keeps the last 240 lines.
unfoldable pub push_line : Line → List Line → List Line
push_line line lines =
    let all = lines ++ (line ∷ []) in
    if ltb 240 (length all) then drop (length all - 240) all else all

unfoldable pub effective_inventory_interval : Tuning → ℤ
effective_inventory_interval t =
    let scan = t.scan_time * (100 * millisecond) in
    let low = if ltb scan (40 * millisecond) then 40 * millisecond else scan in
    if ltb_ℤ (pos low) t.interval then t.interval else pos low

module _ {S : Type 0} where
  abbrev pub push_log : String → List Arg → Model S → Model S
  push_log format args m = record m { logs = push_line (say format args) m.logs }

  abbrev pub set_status : String → List Arg → Model S → Model S
  set_status format args m = record m { status = say format args }

  abbrev pub call_bot : BotCall → Model S → Model S
  call_bot call m = record m { bot_calls = m.bot_calls ++ (call ∷ []) }

  -- `region` is regions.DefaultIndex() and `ports` the ports of discovery.DefaultOptions().
  abbrev pub new_model : ℕ → List ℤ → Model S
  new_model region ports = record {
    view = record {
      active_screen = home;
      home_index = 0;
      device_index = 0;
      control_index = 0;
      inventory_index = 0;
      region_index = region;
      region_cursor = region;
      log_scroll = 0;
      input_mode = mode_none;
      input_value = [];
      input_focused = false;
      input_width = pos 56;
      width = pos 0;
      height = pos 0;
    };
    plan = record {
      pending_connect = true;
      pending_action = some 0;
      queue = [];
      attempt = 0;
      action_label = "";
      active = false;
      scanning = true;
      candidates = [];
      last_scan_time = pos 0;
    };
    tuning = record {
      interval = pos (60 * millisecond);
      q_value = 0x04;
      session = 0x01;
      target = 0x00;
      ant_mask = 0x01;
      scan_time = 0x01;
      no_tag_ab = pos 4;
      show_phase_freq = false;
    };
    reading = record {
      running = false;
      address = default_reader_address;
      auto_addr = true;
      antenna = 0x80;
      no_tag_hit = 0;
      rounds = 0;
      tag_total = 0;
      freq_idx = 0;
      ant_idx = 0;
      last_tag_antenna = 0;
      last_tag_rssi = 0;
      last_tag_epc = [];
      seen_tag_epc = [];
      protocol_buffer = [];
      awaiting_probe = false;
    };
    bot = record { online = false; stats = none; last_sync = none; last_err = none };
    bot_calls = [];
    scan_ports = ports;
    status = say "Startup scan running..." [];
    logs = say "[startup] scan requested" [] ∷ [];
    rx_bytes = 0;
    tx_bytes = 0;
    last_rx = [];
    last_raw_log_at = none;
  }
