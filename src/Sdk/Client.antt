-- ===== src/Sdk/Client.antt =====
-- The state of the client in sdk/client.go, and the methods that start and stop the inventory. The
-- transport is an input: whether it is connected, and what became of each command it was given.
pub mod Lifecycle
pub mod Start
use new_era.Prelude.{
  ℕ, ◌+◌, Bool, true, false, not, Option, none, some, List, [], ◌∷◌, ◌++◌, if◌then◌else◌, ltb, ◌==◌,
  length,
}
use new_era.Prelude.Keys.{nat_eq, contains}
use new_era.Prelude.Text.{Text}
use new_era.Reader18.Crc.{Bytes}
use new_era.Reader18.Commands.{
  set_work_mode_command, set_scan_time_command, set_antenna_mux_command, set_output_power_command,
}
use new_era.Reader18.Tags.{TagError}
use new_era.Sdk.Events.{
  Attempt, SdkError, Status, TagEvent, already_running, cancelled, config_updated, context_done,
  inventory_started, inventory_stopped, not_connected, refused, send_failed, sent,
}
use new_era.Sdk.Config.{InventoryConfig, default_inventory_config, normalize_config}

-- A channel and a context are named by the number of the run that made them. `inventory_done` and
-- `cancel_inv` are `none` for nil; `closed` and `cancelled_runs` say which channels were closed and
-- which contexts were cancelled. `runs` counts the runs made so far.
pub record Client : Type 0 where
  pub cfg : InventoryConfig
  pub inventory_on : Bool
  pub inventory_done : Option ℕ
  pub cancel_inv : Option ℕ
  pub seen : List Text
  pub parser_buffer : Bytes
  pub rounds : ℕ
  pub unique_tags : ℕ
  pub no_tag_hit : ℕ
  pub ant_idx : ℕ
  pub reader_addr : ℕ
  pub target_value : ℕ
  pub last_tag_epc : Text
  pub tags : List TagEvent
  pub statuses : List Status
  pub errs : List SdkError
  pub runs : ℕ
  pub closed : List ℕ
  pub cancelled_runs : List ℕ

abbrev pub new_client : Client
new_client =
    let cfg = normalize_config default_inventory_config in
    record {
      cfg = cfg;
      inventory_on = false;
      inventory_done = none;
      cancel_inv = none;
      seen = [];
      parser_buffer = [];
      rounds = 0;
      unique_tags = 0;
      no_tag_hit = 0;
      ant_idx = 0;
      reader_addr = cfg.reader_address;
      target_value = cfg.target;
      last_tag_epc = [];
      tags = [];
      statuses = [];
      errs = [];
      runs = 0;
      closed = [];
      cancelled_runs = [];
    }

-- A send that a full channel drops.
unfoldable pub offer {ℓ} : {A : Type ℓ} → ℕ → A → List A → List A
offer capacity x queue = if ltb (length queue) capacity then queue ++ (x ∷ []) else queue

abbrev pub emit_tag : TagEvent → Client → Client
emit_tag event c = record c { tags = offer 256 event c.tags }

abbrev pub emit_status : Status → Client → Client
emit_status message c = record c { statuses = offer 256 message c.statuses }

abbrev pub emit_err : SdkError → Client → Client
emit_err e c = record c { errs = offer 64 e c.errs }

abbrev pub address_or_default : InventoryConfig → ℕ → ℕ
address_or_default cfg addr = if addr == 0 then cfg.reader_address else addr

unfoldable pub set_inventory_config : InventoryConfig → Client → Client
set_inventory_config cfg c =
    let cfg = normalize_config cfg in
    emit_status config_updated
      (record c { cfg = cfg; reader_addr = address_or_default cfg c.reader_addr })

-- cancel() of a context that may be nil.
abbrev pub cancel_context : Option ℕ → List ℕ → List ℕ
cancel_context none done = done
cancel_context (some run) done = run ∷ done

-- close(done); closing a closed channel panics, which is `none`.
unfoldable pub close_channel : ℕ → Client → Option Client
close_channel run c =
    if contains run c.closed then none else some (record c { closed = run ∷ c.closed })

-- One command of the loop of ApplyInventoryConfig, and what comes after it.
abbrev pub then_send : Attempt → Bytes → List Bytes × Option SdkError → List Bytes × Option SdkError
then_send context_done command rest = ([], some cancelled)
then_send refused command rest = ([], some send_failed)
then_send sent command (done, error) = (command ∷ done, error)

-- The loop; it returns what was sent and the error that ended it.
unfoldable pub send_commands : (ℕ → Attempt) → ℕ → List Bytes → List Bytes × Option SdkError
send_commands attempt i [] = ([], none)
send_commands attempt i (command ∷ commands) =
    then_send (attempt i) command (send_commands attempt (i + 1) commands)

abbrev pub config_commands : InventoryConfig → ℕ → List Bytes
config_commands cfg addr =
    set_work_mode_command addr (0x00 ∷ [])
    ∷ set_scan_time_command addr cfg.scan_time
    ∷ set_antenna_mux_command addr cfg.antenna_mask
    ∷ set_output_power_command addr cfg.output_power
    ∷ []

unfoldable pub apply_inventory_config : Bool → (ℕ → Attempt) → Client → List Bytes × Option SdkError
apply_inventory_config is_connected attempt c =
    if not is_connected
    then ([], some not_connected)
    else send_commands attempt 0 (config_commands c.cfg c.reader_addr)

-- The first critical section of StartInventory, on a client that is not running.
unfoldable pub begin_run : Client → Client
begin_run c = record c {
  inventory_on = true;
  inventory_done = some c.runs;
  seen = [];
  parser_buffer = [];
  rounds = 0;
  unique_tags = 0;
  no_tag_hit = 0;
  ant_idx = 0;
  last_tag_epc = [];
  target_value = c.cfg.target;
  reader_addr = address_or_default c.cfg c.reader_addr;
  cancel_inv = some c.runs;
  runs = c.runs + 1;
}

-- The critical section after a failed ApplyInventoryConfig; `run` is its `done`.
unfoldable pub abandon_run : ℕ → Client → Option Client
abandon_run run c = close_channel run (record c {
  cancelled_runs = cancel_context c.cancel_inv c.cancelled_runs;
  cancel_inv = none;
  inventory_on = false;
})

-- StartInventory from the result of ApplyInventoryConfig on; `run` is its `done`.
unfoldable pub conclude_start :
    ℕ → Client → List Bytes × Option SdkError → Option (Client × List Bytes × Option SdkError)
conclude_start run later (commands, none) =
    some (emit_status inventory_started later, commands, none)
conclude_start run later (commands, some e) = elim (abandon_run run later) [
  | none ↦ none
  | some stopped ↦ some (stopped, commands, some e)
]

-- What the other goroutines make of the client while a call does not hold its lock: `early` up to its
-- next step, a snapshot or a call of cancel, and `late` up to the one behind that.
pub record Meanwhile : Type 0 where
  pub early : Client → Client
  pub late : Client → Client

-- Between its critical sections StartInventory takes the snapshot of ApplyInventoryConfig and sends
-- the commands. The transport may lose its connection before ApplyInventoryConfig tests it again.
unfoldable pub start_inventory :
    Bool
    → Bool
    → (ℕ → Attempt)
    → Meanwhile
    → Client
    → Option (Client × List Bytes × Option SdkError)
unfolding begin_run conclude_start
start_inventory is_connected still_connected attempt meanwhile c =
    if not is_connected
    then some (c, [], some not_connected)
    else if c.inventory_on
    then some (c, [], some already_running)
    else (let snapshot = meanwhile.early (begin_run c) in
        conclude_start c.runs (meanwhile.late snapshot)
          (apply_inventory_config still_connected attempt snapshot))

-- The critical section of StopInventory on a running client. It returns the context to cancel too,
-- and the channel to wait for.
unfoldable pub stop_begin : Client → Client × Option ℕ × Option ℕ
stop_begin c =
    (record c { cancel_inv = none; inventory_on = false }, c.cancel_inv, c.inventory_done)

abbrev pub call_cancel : Option ℕ → Client → Client
call_cancel cancel c = record c { cancelled_runs = cancel_context cancel c.cancelled_runs }

-- The wait for the channel, if there is one; `until_closed` is what the others do until it is closed.
abbrev pub wait_done : Option ℕ → (Client → Client) → Client → Client
wait_done none until_closed c = c
wait_done (some run) until_closed c = until_closed c

-- StopInventory calls cancel and waits without the lock.
unfoldable pub stop_inventory : Meanwhile → Client → Client
unfolding stop_begin
stop_inventory meanwhile c =
    if not c.inventory_on
    then c
    else (let (stopping, cancel, done) = stop_begin c in
        emit_status inventory_stopped
          (wait_done done meanwhile.late (call_cancel cancel (meanwhile.early stopping))))

unfoldable pub stop_inventory_async : Client → Client
stop_inventory_async c = record c {
  cancel_inv = none;
  inventory_on = false;
  cancelled_runs = cancel_context c.cancel_inv c.cancelled_runs;
}

unfoldable pub finish_inventory_run : Client → Option Client
finish_inventory_run c =
    let stopped = record c { inventory_done = none; cancel_inv = none; inventory_on = false } in
    elim c.inventory_done [ none ↦ some stopped | some run ↦ close_channel run stopped ]

pub record Stats : Type 0 where
  pub running : Bool
  pub rounds : ℕ
  pub unique_tags : ℕ
  pub last_tag_epc : Text
  pub reader_addr : ℕ
  pub target_value : ℕ

unfoldable pub stats : Client → Stats
stats c = record {
  running = c.inventory_on;
  rounds = c.rounds;
  unique_tags = c.unique_tags;
  last_tag_epc = c.last_tag_epc;
  reader_addr = c.reader_addr;
  target_value = c.target_value;
}
