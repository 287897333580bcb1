-- ===== src/Sdk/Config.antt =====
-- The inventory configuration of sdk/types.go. A duration is in nanoseconds.
pub mod Laws
use new_era.Prelude.{ℕ, ◌*◌, Bool, true, if◌then◌else◌, ltb, ◌==◌}
use new_era.Prelude.Int.{ℤ, pos, ltb_ℤ, leb_ℤ}
use new_era.Reader18.Commands.{default_reader_address}

abbrev pub millisecond : ℕ
millisecond = 1000000

pub record InventoryConfig : Type 0 where
  pub reader_address : ℕ
  pub auto_address : Bool
  pub q_value : ℕ
  pub session : ℕ
  pub target : ℕ
  pub antenna_mask : ℕ
  pub scan_time : ℕ
  pub poll_interval : ℤ
  pub output_power : ℕ
  pub no_tag_ab_switch : ℤ
  pub single_fallback_each : ℤ

abbrev pub default_inventory_config : InventoryConfig
default_inventory_config = record {
  reader_address = default_reader_address;
  auto_address = true;
  q_value = 0x04;
  session = 0x01;
  target = 0x00;
  antenna_mask = 0x01;
  scan_time = 0x01;
  poll_interval = pos (40 * millisecond);
  output_power = 0x1E;
  no_tag_ab_switch = pos 4;
  single_fallback_each = pos 6;
}

-- `scan_time` is a byte, so that the product is far below 2 ^ 63.
unfoldable pub effective_interval : InventoryConfig → ℤ
effective_interval c =
    let scan = c.scan_time * (100 * millisecond) in
    let low = if ltb scan (40 * millisecond) then 40 * millisecond else scan in
    if ltb_ℤ (pos low) c.poll_interval then c.poll_interval else pos low

unfoldable pub normalize_config : InventoryConfig → InventoryConfig
normalize_config cfg = record cfg {
  antenna_mask = if cfg.antenna_mask == 0 then 0x01 else cfg.antenna_mask;
  scan_time = if cfg.scan_time == 0 then 0x01 else cfg.scan_time;
  output_power = if ltb 0x1E cfg.output_power then 0x1E else cfg.output_power;
  poll_interval =
      if leb_ℤ cfg.poll_interval (pos 0) then pos (40 * millisecond) else cfg.poll_interval;
  single_fallback_each =
      if ltb_ℤ cfg.single_fallback_each (pos 0) then pos 0 else cfg.single_fallback_each;
  no_tag_ab_switch = if ltb_ℤ cfg.no_tag_ab_switch (pos 0) then pos 0 else cfg.no_tag_ab_switch;
}
