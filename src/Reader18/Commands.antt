-- ===== src/Reader18/Commands.antt =====
-- BuildCommand and the command constructors of internal/protocol/reader18/protocol.go. A payload
-- `nil` is the empty list.
pub mod Layout
use new_era.Prelude.{ℕ, ◌+◌, ◌/◌, ◌%◌, List, [], ◌∷◌, ◌++◌, ◌==◌, if◌then◌else◌, length}
use new_era.Reader18.Crc.{Bytes, crc16_mcrf4xx}

abbrev pub cmd_inventory : ℕ
cmd_inventory = 0x01

abbrev pub cmd_inventory_single : ℕ
cmd_inventory_single = 0x0F

abbrev pub cmd_get_reader_info : ℕ
cmd_get_reader_info = 0x21

abbrev pub cmd_set_region : ℕ
cmd_set_region = 0x22

abbrev pub cmd_set_scan_time : ℕ
cmd_set_scan_time = 0x25

abbrev pub cmd_set_work_mode : ℕ
cmd_set_work_mode = 0x35

abbrev pub cmd_set_output_power : ℕ
cmd_set_output_power = 0x2F

abbrev pub cmd_set_antenna_mux : ℕ
cmd_set_antenna_mux = 0x3F

abbrev pub status_success : ℕ
status_success = 0x00

abbrev pub status_no_tag : ℕ
status_no_tag = 0x01

abbrev pub status_cmd_error : ℕ
status_cmd_error = 0xFE

abbrev pub status_crc_error : ℕ
status_crc_error = 0xFF

abbrev pub status_no_tag_or_timeout : ℕ
status_no_tag_or_timeout = 0xFB

abbrev pub status_antenna_error : ℕ
status_antenna_error = 0xF8

abbrev pub default_reader_address : ℕ
default_reader_address = 0x00

abbrev pub broadcast_reader_address : ℕ
broadcast_reader_address = 0xFF

-- byte(crc & 0xFF) and byte(crc >> 8), of a 16-bit checksum.
abbrev pub low_byte : ℕ → ℕ
low_byte crc = crc % 256

abbrev pub high_byte : ℕ → ℕ
high_byte crc = crc / 256 % 256

-- The packet up to the checksum; `byte(len(payload) + 4)` wraps.
abbrev pub packet_body : ℕ → ℕ → Bytes → Bytes
packet_body address command payload = ((length payload + 4) % 256) ∷ address ∷ command ∷ payload

unfoldable pub build_command : ℕ → ℕ → Bytes → Bytes
build_command address command payload =
    let packet = packet_body address command payload in
    let crc = crc16_mcrf4xx packet in packet ++ (low_byte crc ∷ high_byte crc ∷ [])

unfoldable pub inventory_single_command : ℕ → Bytes
inventory_single_command address = build_command address cmd_inventory []

unfoldable pub inventory_command : ℕ → ℕ → ℕ → Bytes
inventory_command address tid_addr tid_len =
    build_command address cmd_inventory (tid_addr ∷ tid_len ∷ [])

unfoldable pub inventory_g2_command : ℕ → ℕ → ℕ → ℕ → ℕ → ℕ → ℕ → ℕ → Bytes
inventory_g2_command address q_value session tid_addr tid_len target antenna scan_time =
    if tid_len == 0
    then build_command address cmd_inventory (q_value ∷ session ∷ target ∷ antenna ∷ scan_time ∷ [])
    else build_command address cmd_inventory
        (q_value ∷ session ∷ tid_addr ∷ tid_len ∷ target ∷ antenna ∷ scan_time ∷ [])

unfoldable pub inventory_single_tag_command : ℕ → Bytes
inventory_single_tag_command address = build_command address cmd_inventory_single []

unfoldable pub get_reader_info_command : ℕ → Bytes
get_reader_info_command address = build_command address cmd_get_reader_info []

unfoldable pub set_scan_time_command : ℕ → ℕ → Bytes
set_scan_time_command address value = build_command address cmd_set_scan_time (value ∷ [])

unfoldable pub set_output_power_command : ℕ → ℕ → Bytes
set_output_power_command address value = build_command address cmd_set_output_power (value ∷ [])

unfoldable pub set_frequency_range_command : ℕ → ℕ → ℕ → Bytes
set_frequency_range_command address high low =
    build_command address cmd_set_region (high ∷ low ∷ [])

unfoldable pub set_work_mode_command : ℕ → Bytes → Bytes
set_work_mode_command address payload = build_command address cmd_set_work_mode payload

unfoldable pub set_antenna_mux_command : ℕ → ℕ → Bytes
set_antenna_mux_command address ant_cfg = build_command address cmd_set_antenna_mux (ant_cfg ∷ [])
