-- ===== src/Sdk/Examples.antt =====
-- Runs of the client of sdk/client.go, and its theorems at concrete inputs.
use new_era.Prelude.{
  Bool, ℕ, ◌+◌, ◌%◌, ◌<◌, ◌≡◌, ◌⊎◌, refl, true, false, none, some, [], ◌∷◌, ◌++◌, foldl, arith,
}
use new_era.Prelude.Int.{pos, negsuc}
use new_era.Prelude.Keys.{nat_eq, contains}
use new_era.Reader18.Crc.{Bytes}
use new_era.Sdk.Config.{InventoryConfig, default_inventory_config, normalize_config}
use new_era.Sdk.Antenna.{enabled, wrap_index, next_inventory_antenna}
use new_era.Sdk.Antenna.Laws.{
  place, used_mask, nth_antenna, next_inventory_antenna_lem, antenna_reached,
}
use new_era.Sdk.Client.{
  Client, new_client, begin_run, abandon_run, stop_inventory_async, finish_inventory_run,
  close_channel, Meanwhile,
}
use new_era.Prelude.{if◌then◌else◌, ◌==◌, Bool, List, Option}
use new_era.Prelude.Int.{ℤ}
use new_era.Prelude.Keys.{same}
use new_era.Prelude.Text.{codes, text_eq}
use new_era.Sdk.Client.{config_commands, start_inventory}
use new_era.Sdk.Events.{SdkError, connect_failed, Attempt}
use new_era.Sdk.Client.Start.{IsFront, EndsStart, start_inventory_lem}
use new_era.Sdk.Connect.{
  Endpoint, Candidate, endpoint_of, timeout_or_default, connect_timeout, quick_connect,
}
use new_era.Sdk.Connect.Choice.{IsChoice, StartsNone, quick_connect_lem}
use new_era.Sdk.Client.Lifecycle.{
  Sound, begin_run-Sound, late_finish_stops_new_run, late_finish_panics,
}
use new_era.Sdk.Receive.{consume_packet}
use new_era.Sdk.Receive.Buffer.{consume_packet-append}
use new_era.Sdk.Receive.Unique.{Counted, consume_next, consume_packet-Counted}
use new_era.Sdk.Transmit.{Command, next_inventory_command}
use new_era.Sdk.Transmit.Rotation.{calls, command_for, each_antenna_inventoried}

-- A configuration with antennas 1 and 3.
abbrev two_antennas : InventoryConfig
two_antennas = record default_inventory_config { antenna_mask = 5; poll_interval = negsuc 4 }

-- A new client with that configuration, and the client after its first start.
abbrev idle : Client
idle = record new_client { cfg = two_antennas }

abbrev running : Client
running = begin_run idle

-- The response of a reader to GetReaderInfo without data, in two pieces.
abbrev head_piece : Bytes
head_piece = 0x05 ∷ 0x00 ∷ []

abbrev tail_piece : Bytes
tail_piece = 0x21 ∷ 0x00 ∷ 0x43 ∷ 0x05 ∷ []

idle-Sound : Sound idle
unfolding contains
idle-Sound = record { fresh = λ run h. refl; open_done = λ on. absurd (ground arith) }

running-Sound : Sound running
running-Sound = begin_run-Sound idle idle-Sound

consume_packet-append_example :
    consume_packet tail_piece (consume_packet head_piece running)
    ≡ consume_packet (head_piece ++ tail_piece) running
unfolding begin_run
consume_packet-append_example = consume_packet-append head_piece tail_piece running (ground arith)

consume_packet-Counted_example :
    Counted (foldl consume_next (begin_run idle) (head_piece ∷ tail_piece ∷ []))
consume_packet-Counted_example = consume_packet-Counted (head_piece ∷ tail_piece ∷ []) idle

antenna_reached_example : (m : ℕ) × (m < 8) × (nth_antenna 5 (pos 3) m ≡ 0x80 + 2)
antenna_reached_example =
    antenna_reached 5 2 (pos 3) (ground arith) (ground arith) (unfold enabled in refl)

next_inventory_antenna_lem_example :
    (k : ℕ) × (k < 8)
    × (next_inventory_antenna 5 (pos 1)
        ≡ (0x80 + place (wrap_index (pos 1)) k, (place (wrap_index (pos 1)) k + 1) % 8))
    × (enabled (used_mask 5) (place (wrap_index (pos 1)) k) ≡ true)
    × ((j : ℕ) → j < k → enabled (used_mask 5) (place (wrap_index (pos 1)) j) ≡ false)
next_inventory_antenna_lem_example = next_inventory_antenna_lem 5 (pos 1) (ground arith)

each_antenna_inventoried_example :
    (m : ℕ) × (command : Command) × (m < 8)
    × ((next_inventory_command (calls m running)).1 ≡ some command)
    × (command.inventory
        ≡ command_for
            (normalize_config running.cfg)
            running.reader_addr
            running.target_value
            (0x80 + 2))
unfolding begin_run
each_antenna_inventoried_example =
    each_antenna_inventoried running 2 refl (ground arith) (ground arith)
      (unfold enabled in unfold normalize_config in refl)

late_finish_stops_new_run_example :
    (d : Client) × (finish_inventory_run (begin_run (stop_inventory_async running)) ≡ some d)
    × (d.inventory_on ≡ false)
    × (contains running.runs d.closed ≡ true)
    × (d.cancelled_runs ≡ (stop_inventory_async running).cancelled_runs)
late_finish_stops_new_run_example = late_finish_stops_new_run running running-Sound

late_finish_panics_example :
    (d : Client) × (abandon_run running.runs (begin_run (stop_inventory_async running)) ≡ some d)
    × (finish_inventory_run d ≡ none)
late_finish_panics_example = late_finish_panics running running-Sound

-- Another run ends in the last gap.
abbrev ends_run : Client → Client
ends_run c = elim (finish_inventory_run c) [ none ↦ c | some d ↦ d ]

abbrev one_ends : Meanwhile
one_ends = record { early = λ c. c; late = ends_run }

ends_run_keeps : (c : Client) → c.inventory_on ≡ false → (ends_run c).inventory_on ≡ false
unfolding finish_inventory_run close_channel
ends_run_keeps c off = ground arith

one_ends-StartsNone : StartsNone one_ends
one_ends-StartsNone = record { early_keeps = λ c off. off; late_keeps = ends_run_keeps }

-- The transport refuses the third configuration command.
abbrev refuses_third : ℕ → Attempt
refuses_third i = if i == 2 then Attempt.refused else Attempt.sent

start_inventory_lem_example :
    (commands : List Bytes) × (error : Option SdkError) × IsFront
      (config_commands idle.cfg (begin_run idle).reader_addr)
      (commands, error)
    × EndsStart idle.runs
        (ends_run (begin_run idle))
        (commands, error)
        (start_inventory true true refuses_third one_ends idle)
unfolding begin_run
start_inventory_lem_example = start_inventory_lem true refuses_third one_ends idle refl

-- Two candidates, the second verified.
abbrev guessed : Candidate
guessed = record {
  host = codes "10.0.0.7";
  port = 2022;
  score = 40;
  verified = false;
  reader_address = 0;
}

abbrev found : Candidate
found = record guessed { host = codes "10.0.0.9"; verified = true; reader_address = 5 }

-- Only the verified candidate answers.
abbrev answers_found : Endpoint → ℤ → Bool
answers_found endpoint timeout = same endpoint.host found.host

quick_connect_lem_example :
    (d : Client) × (chosen : Candidate) × (error : Option SdkError) × (quick_connect answers_found
        none
        (guessed ∷ found ∷ [])
        none
        one_ends
        running
      ≡ (d, some chosen, error))
    × IsChoice guessed (guessed ∷ found ∷ []) chosen
    × (d.inventory_on ≡ false)
    × (((answers_found (endpoint_of chosen) (timeout_or_default (connect_timeout none)) ≡ true)
          × (error ≡ none)
          × (chosen.verified ≡ true → d.reader_addr ≡ chosen.reader_address))
        ⊎ ((answers_found (endpoint_of chosen) (timeout_or_default (connect_timeout none)) ≡ false)
            × (error ≡ some connect_failed)))
quick_connect_lem_example =
    quick_connect_lem answers_found none guessed (found ∷ []) none one_ends running
      one_ends-StartsNone
