-- ===== src/Sdk/Transmit/Rotation.antt =====
-- The commands that nextInventoryCommand of sdk/client.go returns one after the other.
use new_era.Prelude.{ℕ, zero, suc, ◌+◌, ◌<◌, ◌≡◌, refl, ap, ◌∙◌, true, Option, some, arith}
use new_era.Prelude.Int.{pos}
use new_era.Reader18.Crc.{Bytes}
use new_era.Reader18.Commands.{inventory_g2_command}
use new_era.Sdk.Config.{InventoryConfig, normalize_config}
use new_era.Sdk.Config.Laws.{normalize_config-IsUsable, normalize_config_usable}
use new_era.Sdk.Antenna.{enabled, next_inventory_antenna}
use new_era.Sdk.Antenna.Laws.{used_mask, nth_antenna, antenna_reached}
use new_era.Sdk.Client.{Client}
use new_era.Sdk.Transmit.{Command, advance, command_of, next_inventory_command}

-- The client after some calls.
pub calls : ℕ → Client → Client
calls zero c = c
calls (suc n) c = calls n (next_inventory_command c).0

-- The inventory command for an antenna.
abbrev pub command_for : InventoryConfig → ℕ → ℕ → ℕ → Bytes
command_for cfg addr target antenna =
    inventory_g2_command addr cfg.q_value cfg.session 0x00 0x00 target antenna cfg.scan_time

normal_twice :
    (cfg : InventoryConfig) → normalize_config (normalize_config cfg) ≡ normalize_config cfg
normal_twice cfg = normalize_config_usable (normalize_config cfg) (normalize_config-IsUsable cfg)

running_call :
    (c : Client)
    → c.inventory_on ≡ true
    → next_inventory_command c ≡ (advance c, some (command_of c))
unfolding next_inventory_command
running_call c on = ground (arith, on)

nth_command :
    (n : ℕ) (c : Client)
    → c.inventory_on ≡ true
    → (d : Client) × (calls n c ≡ d)
      × (d.inventory_on ≡ true)
      × ((command_of d).inventory
          ≡ command_for
              (normalize_config c.cfg)
              c.reader_addr
              c.target_value
              (nth_antenna (normalize_config c.cfg).antenna_mask (pos c.ant_idx) n))
unfolding calls nth_antenna command_of advance
nth_command zero c on = (c, refl, on, refl)
nth_command (suc n) c on =
    let (d, same, d_on, command) = nth_command n (advance c) on in
    (
      d,
      ap (λ (r : Client × Option Command). calls n r.0) (running_call c on) ∙ same,
      d_on,
      command
          ∙ ap
              (λ (cfg : InventoryConfig). command_for cfg c.reader_addr c.target_value (
                nth_antenna cfg.antenna_mask
                  (pos
                    (next_inventory_antenna (normalize_config c.cfg).antenna_mask
                      (pos c.ant_idx)).1)
                  n))
              (normal_twice c.cfg),
    )

used_normal :
    (cfg : InventoryConfig)
    → used_mask (normalize_config cfg).antenna_mask ≡ (normalize_config cfg).antenna_mask
used_normal cfg = ground (arith, (normalize_config-IsUsable cfg).mask_on)

byte_mask :
    (cfg : InventoryConfig) → cfg.antenna_mask < 256 → (normalize_config cfg).antenna_mask < 256
unfolding normalize_config
byte_mask cfg h = ground arith

-- On a running client one of the next eight inventory commands is for the antenna `a`
-- below 8, if the configured mask, a byte, enables it.
pub each_antenna_inventoried :
    (c : Client) (a : ℕ)
    → c.inventory_on ≡ true
    → c.cfg.antenna_mask < 256
    → a < 8
    → enabled (normalize_config c.cfg).antenna_mask a ≡ true
    → (m : ℕ) × (command : Command) × (m < 8)
      × ((next_inventory_command (calls m c)).1 ≡ some command)
      × (command.inventory
          ≡ command_for (normalize_config c.cfg) c.reader_addr c.target_value (0x80 + a))
each_antenna_inventoried c a on byte small is_on =
    let mask = (normalize_config c.cfg).antenna_mask in
    let (m, lt, reached) =
      antenna_reached mask a (pos c.ant_idx) (byte_mask c.cfg byte) small
        (ap (λ (used : ℕ). enabled used a) (used_normal c.cfg) ∙ is_on) in
    let (d, same, d_on, command) = nth_command m c on in
    (
      m,
      command_of d,
      lt,
      ap (λ (e : Client). (next_inventory_command e).1) same
          ∙ ap (λ (r : Client × Option Command). r.1) (running_call d d_on),
      command ∙ ap (command_for (normalize_config c.cfg) c.reader_addr c.target_value) reached,
    )
