-- ===== src/Sdk/Antenna.antt =====
-- nextInventoryAntenna of sdk/client.go.
pub mod Laws
use new_era.Prelude.{
  ℕ, zero, suc, ◌+◌, ◌-◌, ◌%◌, ◌^◌, bit_and, bit_or, Bool, not, if◌then◌else◌, ◌==◌,
}
use new_era.Prelude.Int.{ℤ, pos, negsuc}

-- ((start % 8) + 8) % 8, where Go's % rounds to zero.
unfoldable pub wrap_index : ℤ → ℕ
wrap_index (pos n) = (n % 8 + 8) % 8
wrap_index (negsuc n) = (8 - suc n % 8) % 8

unfoldable pub enabled : ℕ → ℕ → Bool
enabled mask idx = not (bit_and mask (2 ^ idx) == 0)

-- The loop: the rounds left, and the round `i`.
unfoldable pub antenna_loop : ℕ → ℕ → ℕ → ℕ → ℕ × ℕ
antenna_loop zero i mask start = (0x80, start)
antenna_loop (suc left) i mask start =
    let rest = antenna_loop left (i + 1) mask start in
    let idx = (start + i) % 8 in if enabled mask idx then (bit_or 0x80 idx, (idx + 1) % 8) else rest

unfoldable pub next_inventory_antenna : ℕ → ℤ → ℕ × ℕ
unfolding antenna_loop wrap_index enabled
next_inventory_antenna mask start =
    antenna_loop 8 0 (if mask == 0 then 0x01 else mask) (wrap_index start)
