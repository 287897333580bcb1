-- ===== src/Tui/Examples.antt =====
-- The theorems on the terminal program at concrete inputs.
use new_era.Prelude.{ok, ℕ, ◌≡◌, ◌↔◌, refl, Bool, true, false, none, List, [], ◌∷◌, foldl, arith}
use new_era.Prelude.Int.{ℤ, pos}
use new_era.Prelude.Keys.{contains, Distinct}
use new_era.Prelude.Text.{Text, codes}
use new_era.Reader18.Tags.{InventoryG2Tag}
use new_era.Sdk.Client.{new_client}
use new_era.Sdk.Receive.{record_g2}
use new_era.Tui.Plan.{Candidate, Endpoint, endpoint_eq, build_connect_plan}
use new_era.Tui.Regions.{default_index}
use new_era.Tui.Model.{Model, disconnect_reader, new_model}
use new_era.Tui.Connect.{endpoint_at, begin_connect_plan}
use new_era.Tui.Outcomes.{on_connect_finished}
use new_era.Tui.Frames.{see_tags}
use new_era.Tui.Actions.{stop_action}
use new_era.Tui.Update.{Msg, key, scan_finished, connect_finished, ticked, packet, on_probe_timeout}
use new_era.Tui.Invariant.{Safe}
use new_era.Tui.Invariant.Runs.{run, run-new_model-Safe}
use new_era.Tui.Retry.{
  dial, after_failures, begin_connect_plan_walks, probe_timeout_gives_up, reconnect_keeps_scan,
}
use new_era.Tui.Endpoints.{IsOffered, build_connect_plan_lem}
use new_era.Tui.Texts.{parse_hex_input, format_hex}
use new_era.Tui.Hex.{parse_hex_input-format_hex}
use new_era.Tui.Laws.{see_tags-record_g2}

abbrev two_candidates : List Candidate
two_candidates =
    record { host = codes "10.0.0.5"; port = pos 27011; verified = false }
    ∷ record { host = codes "10.0.0.7"; port = pos 2022; verified = true }
    ∷ []

abbrev scan_ports : List ℤ
scan_ports = pos 2022 ∷ pos 27011 ∷ []

abbrev best : Endpoint
best = record { host = codes "10.0.0.7"; port = pos 2022 }

abbrev keep_text : Text → Text → Text
keep_text pressed value = value

-- A scan that connects, a round of the inventory, a packet and two keys.
abbrev some_messages : List (Bool × Msg ℕ)
some_messages =
    (false, scan_finished none (pos 5) two_candidates)
    ∷ (true, connect_finished none best)
    ∷ (true, ticked)
    ∷ (true, packet (5 ∷ 0 ∷ 1 ∷ []) 7)
    ∷ (true, key (codes "up"))
    ∷ (true, key (codes "2"))
    ∷ []

abbrev first_model : Model ℕ
first_model = new_model 0 scan_ports

-- While a plan with two endpoints is walked and no action is pending.
abbrev walking : Model ℕ
walking = record first_model {
  plan = record first_model.plan {
    candidates = two_candidates;
    pending_action = none;
    queue = best ∷ record { host = codes "10.0.0.5"; port = pos 27011 } ∷ [];
  };
  reading = record first_model.reading { running = true };
}

abbrev two_tags : List InventoryG2Tag
two_tags =
    record { antenna = 1; epc = 226 ∷ 128 ∷ []; rssi = 60 }
    ∷ record { antenna = 2; epc = 226 ∷ 128 ∷ []; rssi = 61 }
    ∷ []

run-new_model-Safe_example :
    Safe (run keep_text some_messages (new_model {S = ℕ} default_index scan_ports))
run-new_model-Safe_example = run-new_model-Safe ℕ keep_text some_messages scan_ports

build_connect_plan_lem_example :
    Distinct (build_connect_plan two_candidates 1 scan_ports)
    × ((e : Endpoint)
        → (contains e (build_connect_plan two_candidates 1 scan_ports) ≡ true)
          ↔ IsOffered scan_ports two_candidates e)
build_connect_plan_lem_example = build_connect_plan_lem two_candidates 1 scan_ports

begin_connect_plan_walks_example :
    (after_failures best (codes "refused" ∷ []) (begin_connect_plan "Quick Connect" 1 walking)).1
    ≡ dial (endpoint_at (build_connect_plan two_candidates 1 scan_ports) 1)
begin_connect_plan_walks_example =
    begin_connect_plan_walks "Quick Connect" 1 best (codes "refused" ∷ []) walking

probe_timeout_gives_up_example :
    (on_probe_timeout (on_connect_finished none best walking).0).1 ≡ disconnect_reader ∷ []
probe_timeout_gives_up_example = probe_timeout_gives_up best walking refl

reconnect_keeps_scan_example :
    ((on_connect_finished none best walking).0.reading.running ≡ false)
    × ((on_connect_finished none best walking).0.bot_calls ≡ [])
    × ((stop_action (on_connect_finished none best walking).0).0.bot_calls ≡ [])
reconnect_keeps_scan_example = reconnect_keeps_scan best walking refl

see_tags-record_g2_example :
    (see_tags two_tags 0 first_model).0.reading.seen_tag_epc
    ≡ (foldl record_g2 new_client two_tags).seen
see_tags-record_g2_example =
    see_tags-record_g2 two_tags 0 first_model new_client (ground arith, (ground arith, tt)) refl

parse_hex_input-format_hex_example :
    parse_hex_input (format_hex (5 ∷ 255 ∷ 160 ∷ []) 52) ≡ ok (5 ∷ 255 ∷ 160 ∷ [])
parse_hex_input-format_hex_example =
    parse_hex_input-format_hex 5 (255 ∷ 160 ∷ []) 52
      (ground arith, (ground arith, (ground arith, tt))) (ground arith)
