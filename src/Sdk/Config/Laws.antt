-- ===== src/Sdk/Config/Laws.antt =====
-- normalizeConfig and EffectiveInterval of sdk/types.go.
use new_era.Prelude.{◌*◌, ◌≤◌, ◌≡◌, if◌then◌else◌, ltb, ◌==◌, arith}
use new_era.Prelude.Int.{ℤ, pos, ◌≤ℤ◌, leb_ℤ, ltb_ℤ}
use new_era.Sdk.Config.{InventoryConfig, millisecond, normalize_config, effective_interval}

-- A configuration that an inventory can run with.
pub record IsUsable (c : InventoryConfig) : Type 0 where
  pub mask_on : 1 ≤ c.antenna_mask
  pub scan_on : 1 ≤ c.scan_time
  pub power_fits : c.output_power ≤ 30
  pub polls : pos 1 ≤ℤ c.poll_interval
  pub fallback_natural : pos 0 ≤ℤ c.single_fallback_each
  pub switch_natural : pos 0 ≤ℤ c.no_tag_ab_switch

-- A normalised configuration has an antenna and a scan time, a power of at most 30, a positive poll
-- interval, and counts that are not negative.
pub normalize_config-IsUsable : (c : InventoryConfig) → IsUsable (normalize_config c)
unfolding normalize_config
normalize_config-IsUsable c = record {
  mask_on = ground arith;
  scan_on = ground arith;
  power_fits = ground arith;
  polls = ground arith;
  fallback_natural = ground arith;
  switch_natural = ground arith;
}

natural_kept : (z : ℤ) → pos 0 ≤ℤ z → (if ltb_ℤ z (pos 0) then pos 0 else z) ≡ z
natural_kept z h = ground arith

pub normalize_config_usable : (c : InventoryConfig) → IsUsable c → normalize_config c ≡ c
unfolding normalize_config
normalize_config_usable c u =
    let mask : (if c.antenna_mask == 0 then 0x01 else c.antenna_mask) ≡ c.antenna_mask =
      ground (arith, u.mask_on) in
    let scan : (if c.scan_time == 0 then 0x01 else c.scan_time) ≡ c.scan_time =
      ground (arith, u.scan_on) in
    let power : (if ltb 0x1E c.output_power then 0x1E else c.output_power) ≡ c.output_power =
      ground (arith, u.power_fits) in
    let interval : (if leb_ℤ c.poll_interval (pos 0)
          then pos (40 * millisecond)
          else c.poll_interval)
        ≡ c.poll_interval =
      ground (arith, u.polls) in
    λ i. record c {
      antenna_mask = mask i;
      scan_time = scan i;
      output_power = power i;
      poll_interval = interval i;
      single_fallback_each = natural_kept c.single_fallback_each u.fallback_natural i;
      no_tag_ab_switch = natural_kept c.no_tag_ab_switch u.switch_natural i;
    }

-- The effective interval is at least 40 milliseconds, the scan time and the poll interval.
effective_interval_bounds :
    (c : InventoryConfig)
    → (pos (40 * millisecond) ≤ℤ effective_interval c)
      × (pos (c.scan_time * (100 * millisecond)) ≤ℤ effective_interval c)
      × (c.poll_interval ≤ℤ effective_interval c)
unfolding effective_interval
effective_interval_bounds c = (ground arith, ground arith, ground arith)
