-- ===== src/Discovery.antt =====
-- The parts of internal/discovery/scanner.go without input and output: the scores, the probes of the
-- reader protocol and the hosts of a network. What a connection answers is an input.
pub mod Scores
pub mod Hosts
pub mod Examples
use new_era.Prelude.{
  ℕ, zero, suc, ◌+◌, ◌-◌, ◌%◌, ◌^◌, Bool, true, false, ◌||◌, Option, none, some, List, [], ◌∷◌,
  if◌then◌else◌, ltb, leb, ◌==◌,
}
use new_era.Prelude.Text.{Text, codes, is_empty, to_lower, contains_text}
use new_era.Reader18.Crc.{Bytes}
use new_era.Reader18.Commands.{
  cmd_get_reader_info, cmd_inventory, default_reader_address, broadcast_reader_address,
  get_reader_info_command, inventory_g2_command, inventory_single_command,
}
use new_era.Reader18.Frames.{Frame}

unfoldable pub port_score : ℕ → ℕ
port_score port =
    if port == 2022
      || port == 27011
      || port == 4001
      || port == 5000
      || port == 6000
      || port == 7000
      || port == 10001
    then 55
    else if port == 23
    then 30
    else if port == 80 || port == 443 || port == 8080
    then 20
    else 10

-- The loop over the keywords.
unfoldable pub count_keywords : Text → List Text → ℕ
count_keywords text [] = 0
count_keywords text (keyword ∷ keywords) =
    let rest = count_keywords text keywords in
    if contains_text text keyword then 18 + rest else rest

abbrev pub keyword_list : List Text
keyword_list =
    codes "rfid" ∷ codes "uhf" ∷ codes "reader" ∷ codes "impinj" ∷ codes "epc" ∷ codes "e710" ∷ []

unfoldable pub keyword_score : Text → ℕ
unfolding count_keywords
keyword_score banner = count_keywords (to_lower banner) keyword_list

-- The score that probeTarget gives, by the result of the probes and the banner.
unfoldable pub target_score : ℕ → Bool → Text → ℕ
unfolding port_score keyword_score
target_score port true banner = port_score port + 160
target_score port false banner =
    if is_empty banner then port_score port else port_score port + keyword_score banner

-- A probe: the command that a reader answers it with, and what is sent to an address.
pub data Probe : Type 0 where
  get_info inventory_g2 inventory_legacy : Probe

unfoldable pub expected : Probe → ℕ
expected get_info = cmd_get_reader_info
expected inventory_g2 = cmd_inventory
expected inventory_legacy = cmd_inventory

unfoldable pub probe_command : Probe → ℕ → Bytes
probe_command get_info addr = get_reader_info_command addr
probe_command inventory_g2 addr = inventory_g2_command addr 0x04 0x01 0x00 0x00 0x00 0x80 0x0A
probe_command inventory_legacy addr = inventory_single_command addr

-- The address of the first frame with the expected command.
unfoldable pub find_answer : ℕ → List Frame → Option ℕ
find_answer command [] = none
find_answer command (frame ∷ frames) =
    let rest = find_answer command frames in
    if frame.command == command then some frame.address else rest

-- The two loops, as one list of probes and addresses.
unfoldable pub try_probes : (Bytes → List Frame) → List (Probe × ℕ) → Option (ℕ × Probe)
unfolding expected probe_command
try_probes answer [] = none
try_probes answer ((probe, addr) ∷ probes) =
    let rest = try_probes answer probes in
    elim (find_answer (expected probe) (answer (probe_command probe addr))) [
      | some reader ↦ some (reader, probe)
      | none ↦ rest
    ]

abbrev pub probe_list : List (Probe × ℕ)
probe_list =
    (get_info, default_reader_address)
    ∷ (get_info, broadcast_reader_address)
    ∷ (inventory_g2, default_reader_address)
    ∷ (inventory_g2, broadcast_reader_address)
    ∷ (inventory_legacy, default_reader_address)
    ∷ (inventory_legacy, broadcast_reader_address)
    ∷ []

-- The reader's address and the probe that it answered; `answer` stands for sendProbeAndReadFrames.
unfoldable pub probe_reader_protocol : (Bytes → List Frame) → Option (ℕ × Probe)
unfolding try_probes
probe_reader_protocol answer = try_probes answer probe_list

-- The loop from an address on: the addresses up to the last one, and the room that the limit leaves.
-- The limit is tested after an address was taken.
unfoldable pub host_loop : ℕ → ℕ → ℕ → ℕ → List ℕ
host_loop zero ip last room = []
host_loop (suc fuel) ip last room =
    let rest = host_loop fuel ((ip + 1) % 2 ^ 32) last (room - 1) in
    if leb ip last then (if leb room 1 then ip ∷ [] else ip ∷ rest) else []

-- An address is a 32-bit number, and `limit` is not negative.
unfoldable pub hosts_from_prefix : ℕ → ℕ → ℕ → List ℕ
unfolding host_loop
hosts_from_prefix net_ip bits limit =
    let host_count = 2 ^ (32 - bits) in
    if leb 31 bits
    then []
    else if leb host_count 2
    then []
    else host_loop host_count ((net_ip + 1) % 2 ^ 32) ((net_ip + (host_count - 2)) % 2 ^ 32) limit
