-- ===== src/Tui/Invariant/Tune.antt =====
-- The settings stay in their ranges: adjustInventorySetting, the presets and runInventoryAction.
use Prim.Native.String.{String}
use new_era.Prelude.{
  ℕ, ◌+◌, ◌∙◌, ◌*◌, ◌≤◌, ◌≡◌, refl, Bool, not, if◌then◌else◌, if_keeps, if_by, ltb, ◌==◌, arith,
}
use new_era.Prelude.Int.{ℤ, pos, negsuc, ◌+ℤ◌, to_ℕ, scale}
use new_era.Sdk.Config.{millisecond}
use new_era.Tui.Model.{Model, Tuning}
use new_era.Tui.Tune.{
  Row, q_value, session, target, scan_time, no_tag_ab, phase_freq, antenna_mask, poll_interval,
  apply, scan_mask, preset_fast, preset_balanced, preset_long_range, clamp_int, clamp_byte,
  interval_ms, adjust_tuning, preset_tuning, adjust_inventory_setting, apply_inventory_preset,
  apply_tuning, set_scan_mask, run_inventory_action,
}
use new_era.Tui.Invariant.{Between, IntBetween, IsTuning, Safe, SafeAfter, push_line_short}

abbrev Tuned : Tuning → Type 0
Tuned t = IsTuning t.q_value t.session t.scan_time t.ant_mask t.interval

clamp_int_between :
    (value : ℤ) (low high : ℕ)
    → low ≤ high
    → IntBetween low high (clamp_int value (pos low) (pos high))
unfolding clamp_int
clamp_int_between (negsuc n) low high h = (low, ground arith, (ground arith, h))
clamp_int_between (pos n) low high h =
    if_by (IntBetween low high) (ltb (n + 0) (low + 0)) (λ e. (low, refl, (ground arith, h)))
      (λ e.
        if_by (IntBetween low high) (ltb (high + 0) (n + 0)) (λ f. (high, refl, (h, ground arith)))
          (λ f. (n, refl, (ground arith, ground arith))))

-- The same for a byte.
clamp_byte_fits :
    (value : ℕ) (delta : ℤ) (low high : ℕ)
    → low ≤ high
    → Between low high (clamp_byte value delta low high)
clamp_byte_fits value delta low high h =
    let (n, e, (l, u)) = clamp_int_between (pos value +ℤ delta) low high h in
    let p : to_ℕ (clamp_int (pos value +ℤ delta) (pos low) (pos high)) ≡ n = λ i. to_ℕ (e i) in
    (omega (arith, p, l), omega (arith, p, u))

scale_pos : (n : ℕ) → scale (pos n) millisecond ≡ pos (n * millisecond)
scale_pos n = ground arith

scaled :
    (z : ℤ)
    → IntBetween 20 1000 z
    → IntBetween (20 * millisecond) (1000 * millisecond) (scale z millisecond)
scaled z (n, e, (l, u)) =
    let p : scale z millisecond ≡ scale (pos n) millisecond = λ i. scale (e i) millisecond in
    (n * millisecond, p ∙ scale_pos n, (ground arith, ground arith))

adjust_tuning-Tuned :
    (row : Row) (delta : ℤ) (t : Tuning) → Tuned t → Tuned (adjust_tuning row delta t)
unfolding adjust_tuning
adjust_tuning-Tuned q_value delta t (q, s, st, mask, v) =
    ((clamp_byte_fits t.q_value delta 0 15 (ground arith)).1, s, st, mask, v)
adjust_tuning-Tuned session delta t (q, s, st, mask, v) =
    (q, (clamp_byte_fits t.session delta 0 3 (ground arith)).1, st, mask, v)
adjust_tuning-Tuned target delta t v = v
adjust_tuning-Tuned scan_time delta t (q, s, st, mask, v) =
    (q, s, clamp_byte_fits t.scan_time delta 1 255 (ground arith), mask, v)
adjust_tuning-Tuned no_tag_ab delta t v = v
adjust_tuning-Tuned phase_freq delta t v = v
adjust_tuning-Tuned antenna_mask delta t (q, s, st, mask, v) =
    (q, s, st, clamp_byte_fits t.ant_mask delta 1 255 (ground arith), v)
adjust_tuning-Tuned poll_interval delta t (q, s, st, mask, v) = (
  q,
  s,
  st,
  mask,
  scaled (clamp_int (pos (interval_ms t) +ℤ scale delta 10) (pos 20) (pos 1000))
      (clamp_int_between (pos (interval_ms t) +ℤ scale delta 10) 20 1000 (ground arith)),
)
adjust_tuning-Tuned apply delta t v = v
adjust_tuning-Tuned scan_mask delta t v = v
adjust_tuning-Tuned preset_fast delta t v = v
adjust_tuning-Tuned preset_balanced delta t v = v
adjust_tuning-Tuned preset_long_range delta t v = v

-- Settings that are written out.
fixed :
    (q s st mask n : ℕ)
    → (q ≤ 15) × (s ≤ 3) × Between 1 255 st × Between 1 255 mask × Between 20 1000 n
    → IsTuning q s st mask (pos (n * millisecond))
fixed q s st mask n (a, b, c, d, (l, u)) =
    (a, b, c, d, (n * millisecond, refl, (ground arith, ground arith)))

preset_tuning-Tuned : (row : Row) (t : Tuning) → Tuned t → Tuned (preset_tuning row t)
unfolding preset_tuning
preset_tuning-Tuned preset_fast t v = fixed 4 1 1 1 40 (ground arith)
preset_tuning-Tuned preset_balanced t v = fixed 4 1 2 1 70 (ground arith)
preset_tuning-Tuned preset_long_range t v = fixed 4 2 8 1 120 (ground arith)
preset_tuning-Tuned q_value t v = v
preset_tuning-Tuned session t v = v
preset_tuning-Tuned target t v = v
preset_tuning-Tuned scan_time t v = v
preset_tuning-Tuned no_tag_ab t v = v
preset_tuning-Tuned phase_freq t v = v
preset_tuning-Tuned antenna_mask t v = v
preset_tuning-Tuned poll_interval t v = v
preset_tuning-Tuned apply t v = v
preset_tuning-Tuned scan_mask t v = v

-- The mask that stands in for an empty one.
pub mask_or_one : (mask : ℕ) → Between 1 255 mask → Between 1 255 (if mask == 0 then 0x01 else mask)
mask_or_one mask h = ground arith

module _ {S : Type 0} where
  pub adjust_inventory_setting-Safe :
      (row : Row) (delta : ℤ) (m : Model S)
      → Safe m
      → SafeAfter (adjust_inventory_setting row delta m)
  unfolding adjust_inventory_setting
  adjust_inventory_setting-Safe row delta m (v, p, t, r, l) =
      (v, p, adjust_tuning-Tuned row delta m.tuning t, r, l)

  apply_inventory_preset-Safe :
      (row : Row) (name : String) (m : Model S)
      → Safe m
      → SafeAfter (apply_inventory_preset row name m)
  unfolding apply_inventory_preset
  apply_inventory_preset-Safe row name m (v, p, t, r, l) =
      (v, p, preset_tuning-Tuned row m.tuning t, r, push_line_short _ _)

  apply_tuning-Safe :
      (is_connected : Bool) (m : Model S) → Safe m → SafeAfter (apply_tuning is_connected m)
  unfolding apply_tuning
  apply_tuning-Safe is_connected m (v, p, t, r, l) =
      if_keeps SafeAfter (not is_connected) (v, p, t, r, push_line_short _ _)
        (v, p, t, r, push_line_short _ _)

  set_scan_mask-Safe :
      (is_connected : Bool) (m : Model S) → Safe m → SafeAfter (set_scan_mask is_connected m)
  unfolding set_scan_mask
  set_scan_mask-Safe is_connected m (v, p, (q, s, st, mask, i), (told, once, counts, idx), l) =
      let kept = mask_or_one m.tuning.ant_mask mask in
      if_keeps SafeAfter is_connected
        (v, p, (q, s, st, kept, i), (told, once, counts, ground arith), push_line_short _ _)
        (v, p, (q, s, st, kept, i), (told, once, counts, ground arith), l)

  pub run_inventory_action-Safe :
      (is_connected : Bool) (row : Row) (m : Model S)
      → Safe m
      → SafeAfter (run_inventory_action is_connected row m)
  unfolding run_inventory_action
  run_inventory_action-Safe is_connected apply m s = apply_tuning-Safe is_connected m s
  run_inventory_action-Safe is_connected scan_mask m s = set_scan_mask-Safe is_connected m s
  run_inventory_action-Safe is_connected preset_fast m s =
      apply_inventory_preset-Safe preset_fast "fast" m s
  run_inventory_action-Safe is_connected preset_balanced m s =
      apply_inventory_preset-Safe preset_balanced "balanced" m s
  run_inventory_action-Safe is_connected preset_long_range m s =
      apply_inventory_preset-Safe preset_long_range "long-range" m s
  run_inventory_action-Safe is_connected q_value m s =
      adjust_inventory_setting-Safe q_value (pos 1) m s
  run_inventory_action-Safe is_connected session m s =
      adjust_inventory_setting-Safe session (pos 1) m s
  run_inventory_action-Safe is_connected target m s =
      adjust_inventory_setting-Safe target (pos 1) m s
  run_inventory_action-Safe is_connected scan_time m s =
      adjust_inventory_setting-Safe scan_time (pos 1) m s
  run_inventory_action-Safe is_connected no_tag_ab m s =
      adjust_inventory_setting-Safe no_tag_ab (pos 1) m s
  run_inventory_action-Safe is_connected phase_freq m s =
      adjust_inventory_setting-Safe phase_freq (pos 1) m s
  run_inventory_action-Safe is_connected antenna_mask m s =
      adjust_inventory_setting-Safe antenna_mask (pos 1) m s
  run_inventory_action-Safe is_connected poll_interval m s =
      adjust_inventory_setting-Safe poll_interval (pos 1) m s
