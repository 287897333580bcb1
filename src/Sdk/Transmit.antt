-- ===== src/Sdk/Transmit.antt =====
-- The sending side of sdk/client.go: nextInventoryCommand and the loop of inventoryTxLoop.
pub mod Rotation
use new_era.Prelude.{ℕ, ◌+◌, ◌%◌, Bool, not, ◌&&◌, Option, none, some, if◌then◌else◌, ◌==◌}
use new_era.Prelude.Int.{ℤ, pos, ltb_ℤ, to_ℕ}
use new_era.Reader18.Crc.{Bytes}
use new_era.Reader18.Commands.{inventory_g2_command, inventory_single_tag_command}
use new_era.Sdk.Config.{normalize_config, effective_interval}
use new_era.Sdk.Antenna.{next_inventory_antenna}
use new_era.Sdk.Client.{Client, emit_err, stop_inventory_async}
use new_era.Sdk.Events.{send_failed}

pub record Command : Type 0 where
  pub inventory : Bytes
  pub single : Option Bytes
  pub interval : ℤ

-- The state after nextInventoryCommand, on a running client.
unfoldable pub advance : Client → Client
unfolding normalize_config next_inventory_antenna
advance c =
    let cfg = normalize_config c.cfg in
    record c {
      cfg = cfg;
      rounds = c.rounds + 1;
      ant_idx = (next_inventory_antenna cfg.antenna_mask (pos c.ant_idx)).1;
    }

-- Whether the round has a single-tag command too; `every` is not negative where it divides.
abbrev pub falls_back : ℤ → ℕ → Bool
falls_back every round = ltb_ℤ (pos 0) every && (round % to_ℕ every == 0)

unfoldable pub command_of : Client → Command
unfolding normalize_config next_inventory_antenna effective_interval
command_of c =
    let cfg = normalize_config c.cfg in
    let (antenna, next_idx) = next_inventory_antenna cfg.antenna_mask (pos c.ant_idx) in
    record {
      inventory =
          inventory_g2_command c.reader_addr cfg.q_value cfg.session 0x00 0x00 c.target_value
            antenna cfg.scan_time;
      single =
          if falls_back cfg.single_fallback_each (c.rounds + 1)
          then some (inventory_single_tag_command c.reader_addr)
          else none;
      interval = effective_interval cfg;
    }

unfoldable pub next_inventory_command : Client → Client × Option Command
unfolding advance command_of
next_inventory_command c =
    if not c.inventory_on then (c, none) else (advance c, some (command_of c))

-- How one round of inventoryTxLoop ends: it waits for the interval, or the loop is over.
pub data TxStep : Type 0 where
  waits : ℤ → TxStep
  over : TxStep

abbrev pub fail_send : Client → Client
fail_send c = stop_inventory_async (emit_err send_failed c)

-- The two flags say whether the transport takes the inventory command and the single-tag command.
unfoldable pub tx_round : Bool → Bool → Client → Client × TxStep
unfolding next_inventory_command
tx_round takes_inventory takes_single c =
    let (next, command) = next_inventory_command c in
    elim command [
      | none ↦ (next, over)
      | some command ↦
          (if not takes_inventory then (fail_send next, over) else (elim command.single [
            | none ↦ (next, waits command.interval)
            | some single ↦
                (if takes_single then (next, waits command.interval) else (fail_send next, over))
          ]))
    ]
