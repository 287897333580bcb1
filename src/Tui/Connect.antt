-- ===== src/Tui/Connect.antt =====
-- Connecting in internal/tui/update.go: beginConnectPlan, retryNextConnect, runQuickConnect and
-- requestConnectionForAction.
use Prim.Native.String.{String}
use new_era.Prelude.{
  ℕ, ◌+◌, Bool, true, false, Option, none, some, List, [], ◌∷◌, if◌then◌else◌, ◌==◌, length,
}
use new_era.Prelude.Text.{Text, codes, is_empty, trim_space, to_lower}
use new_era.Tui.Plan.{Endpoint, preferred_candidate_index, build_connect_plan}
use new_era.Tui.Model.{
  Model, Connecting, Arg, num, str, lit, at_endpoint, Cmd, run_scan, reconnect, say, push_log,
  set_status,
}

-- The queue as after a success or the last failure.
abbrev pub clear_queue : Connecting → Connecting
clear_queue p = record p { queue = []; attempt = 0; action_label = "" }

-- The endpoint at a place of the queue.
abbrev pub endpoint_at : List Endpoint → ℕ → Option Endpoint
endpoint_at [] i = none
endpoint_at (e ∷ es) ℕ.zero = some e
endpoint_at (e ∷ es) (ℕ.suc i) = endpoint_at es i

abbrev pub or_label : String → Text
or_label label =
    let text = trim_space (codes label) in if is_empty text then codes "Connect" else text

abbrev pub or_cause : Text → Text
or_cause reason =
    let text = trim_space reason in if is_empty text then codes "connection error" else text

module _ {S : Type 0} where
  -- The start of a plan that is not empty, and what becomes of one that is.
  unfoldable pub begin_queue : String → List Endpoint → Model S → Model S × List Cmd
  begin_queue label [] m = (
    push_log "%s failed: no endpoints in plan" (str (to_lower (codes label)) ∷ []) (record m {
      plan = record (clear_queue m.plan) { active = false };
      status = say "%s: no reachable endpoints" (lit label ∷ []);
    }),
    [],
  )
  begin_queue label (first ∷ rest) m = (
    push_log "%s connect 1/%d -> %s"
        (str (to_lower (codes label)) ∷ num (length (first ∷ rest)) ∷ at_endpoint first ∷ [])
        (record m {
          plan = record m.plan {
            queue = first ∷ rest;
            attempt = 0;
            action_label = label;
            active = true;
          };
          status =
              say "%s: connecting %s (1/%d)"
                (lit label ∷ at_endpoint first ∷ num (length (first ∷ rest)) ∷ []);
        }),
    reconnect first ∷ [],
  )

  unfoldable pub begin_connect_plan : String → ℕ → Model S → Model S × List Cmd
  unfolding begin_queue
  begin_connect_plan label preferred m =
      begin_queue label (build_connect_plan m.plan.candidates preferred m.scan_ports) m

  -- The last endpoint failed too; `current` is the one that did.
  abbrev pub give_up : Text → Text → Option Endpoint → Model S → Model S
  give_up label cause none m = m
  give_up label cause (some current) m =
      push_log "%s failed at %s: %s" (str (to_lower label) ∷ at_endpoint current ∷ str cause ∷ []) m

  -- The next endpoint, if there is one.
  abbrev pub try_next : Text → Text → ℕ → Option Endpoint → Model S → Model S × Option (List Cmd)
  try_next label cause next none m = (
    record (give_up label cause (endpoint_at m.plan.queue m.plan.attempt) m) {
      plan = record (clear_queue m.plan) { active = false };
    },
    none,
  )
  try_next label cause next (some endpoint) m = (
    push_log "%s retry %d/%d (%s) -> %s"
        (str (to_lower label)
          ∷ num (next + 1)
          ∷ num (length m.plan.queue)
          ∷ str cause
          ∷ at_endpoint endpoint
          ∷ [])
        (record m {
          plan = record m.plan { attempt = next; active = true };
          status =
              say "%s: retry %d/%d -> %s" (
                str label ∷ num (next + 1) ∷ num (length m.plan.queue) ∷ at_endpoint endpoint ∷ []);
        }),
    some (reconnect endpoint ∷ []),
  )

  -- `none` where the source returns false.
  unfoldable pub retry_next_connect : Text → Model S → Model S × Option (List Cmd)
  retry_next_connect reason m =
      if length m.plan.queue == 0
      then (m, none)
      else (let next = m.plan.attempt + 1 in
          try_next (or_label m.plan.action_label) (or_cause reason) next
            (endpoint_at m.plan.queue next) m)

  -- What a caller of retryNextConnect does with its answer. The receiver of retryNextConnect is a
  -- copy: the model that it returns counts only where there was a next endpoint.
  abbrev pub or_else : Model S × Option (List Cmd) → Model S × List Cmd → Model S × List Cmd
  or_else (next, some cmds) other = (next, cmds)
  or_else (next, none) other = other

  abbrev pub begin_scan : Model S → Model S × List Cmd
  begin_scan m =
      (record m { plan = record m.plan { scanning = true; pending_connect = true } }, run_scan ∷ [])

  abbrev pub await_scan : Model S → Model S × List Cmd
  await_scan m = (record m { plan = record m.plan { pending_connect = true } }, [])

  abbrev pub with_lines : String → String → List Arg → Model S → Model S
  with_lines log text args m = push_log log [] (set_status text args m)

  -- By the preferred candidate, while no scan runs.
  unfoldable pub quick_connect_to : Option ℕ → Model S → Model S × List Cmd
  unfolding begin_connect_plan
  quick_connect_to none m =
      begin_scan
        (with_lines "quick-connect triggered scan" "No cached devices, starting scan..." [] m)
  quick_connect_to (some idx) m = begin_connect_plan "Quick Connect" idx m

  -- There is a preferred candidate as soon as there is a candidate.
  unfoldable pub run_quick_connect : Model S → Model S × List Cmd
  unfolding quick_connect_to
  run_quick_connect m =
      if m.plan.scanning
      then await_scan (with_lines "quick-connect queued" "Scan running, quick-connect queued" [] m)
      else quick_connect_to (preferred_candidate_index m.plan.candidates) m

  -- By the preferred candidate; `name` is the action's label.
  unfoldable pub request_to : Option ℕ → String → Model S → Model S × List Cmd
  unfolding begin_connect_plan
  request_to (some idx) name m = begin_connect_plan name idx m
  request_to none name m =
      if m.plan.scanning
      then await_scan (
          with_lines "pending action queued while scan running"
            "%s requested: waiting for scan result..." (lit name ∷ []) m)
      else begin_scan (
          with_lines "pending action triggered scan" "%s requested: scanning for reader..."
            (lit name ∷ []) m)

  -- For an action that needs a connection.
  unfoldable pub request_connection_for_action : Bool → ℕ → String → Model S → Model S × List Cmd
  unfolding request_to
  request_connection_for_action is_connected action name m =
      let asked = record m { plan = record m.plan { pending_action = some action } } in
      if is_connected
      then (set_status "Connected. Running action..." [] asked, [])
      else request_to (preferred_candidate_index m.plan.candidates) name asked
