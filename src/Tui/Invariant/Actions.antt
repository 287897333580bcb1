-- ===== src/Tui/Invariant/Actions.antt =====
-- The actions of the menus keep the invariant.
use new_era.Prelude.{◌++◌, ◌∙◌, ℕ, ◌≡◌, Bool, not, List, [], ◌∷◌, if_keeps, ◌==◌, arith}
use new_era.Tui.Model.{Model, Cmd, stop_reading, BotCall}
use new_era.Tui.Actions.{
  run_home_action, enter_raw_mode, start_action, stop_action, rescan_action, run_control_action,
}
use new_era.Tui.Invariant.{Safe, SafeAfter, push_line_short, note_call, told_epcs, told_epcs-snoc}
use new_era.Tui.Invariant.Connect.{
  first_row, run_quick_connect-Safe, request_connection_for_action-Safe, prepare_reading-Safe,
}

pub told_stop : (calls : List BotCall) → told_epcs (calls ++ (stop_reading ∷ [])) ≡ told_epcs calls
unfolding note_call
told_stop calls = told_epcs-snoc calls stop_reading

-- The invariant after a step, as a type of its own, so that a chain of tests is compared by its name.
pub record Kept {S : Type 0} (p : Model S × List Cmd) : Type 0 where
  pub kept : SafeAfter p

module _ {S : Type 0} where
  pub keep : {p : Model S × List Cmd} → SafeAfter p → Kept p
  keep s = record { kept = s }

  pub run_home_action-Kept : (index : ℕ) (m : Model S) → Safe m → Kept (run_home_action index m)
  unfolding run_home_action
  run_home_action-Kept index m s =
      let ((h, c, i, r, rc), p, t, rd, l) = s in
      if_keeps Kept (index == 0) (keep (run_quick_connect-Safe m s)) (
        if_keeps Kept (index == 1) (keep s) (
          if_keeps Kept (index == 2) (keep s) (
            if_keeps Kept (index == 3) (keep s) (
              if_keeps Kept (index == 4) (keep ((h, c, i, r, r), p, t, rd, l)) (
                if_keeps Kept (index == 5) (keep s)
                  (if_keeps Kept (index == 6) (keep s) (keep s)))))))

  pub enter_raw_mode-Kept :
      (is_connected : Bool) (m : Model S) → Safe m → Kept (enter_raw_mode is_connected m)
  unfolding enter_raw_mode
  enter_raw_mode-Kept is_connected m s = if_keeps Kept (not is_connected) (keep s) (keep s)

  start_action-Kept :
      (is_connected : Bool) (m : Model S) → Safe m → Kept (start_action is_connected m)
  unfolding start_action
  start_action-Kept is_connected m s =
      if_keeps Kept (not is_connected)
        (keep (request_connection_for_action-Safe is_connected 0 "Start Reading" m s))
        (if_keeps Kept m.reading.running (keep s)
          (keep (prepare_reading-Safe "Preparing reader + reading started" m s)))

  stop_action-Kept : (m : Model S) → Safe m → Kept (stop_action m)
  unfolding stop_action
  stop_action-Kept m s =
      let (v, p, t, (told, once, counts, idx), l) = s in
      if_keeps Kept (not m.reading.running) (keep s)
        (keep (v, p, t, (told_stop m.bot_calls ∙ told, once, counts, idx), push_line_short _ _))

  rescan_action-Kept : (m : Model S) → Safe m → Kept (rescan_action m)
  unfolding rescan_action
  rescan_action-Kept m (v, (d, a), t, r, l) =
      if_keeps Kept m.plan.scanning (keep (v, (d, first_row 0), t, r, l))
        (keep (v, (d, first_row 0), t, r, push_line_short _ _))

  pub run_control_action-Kept :
      (is_connected : Bool) (index : ℕ) (m : Model S)
      → Safe m
      → Kept (run_control_action is_connected index m)
  unfolding run_control_action
  run_control_action-Kept is_connected index m s =
      let (v, p, t, r, l) = s in
      if_keeps Kept (index == 0) (start_action-Kept is_connected m s) (
        if_keeps Kept (index == 1) (stop_action-Kept m s) (
          if_keeps Kept (index == 2)
            (if_keeps Kept (not is_connected)
              (keep (request_connection_for_action-Safe is_connected 2 "Probe Reader Info" m s))
              (keep s))
            (if_keeps Kept (index == 3)
              (if_keeps Kept (not is_connected)
                (keep (request_connection_for_action-Safe is_connected 3 "Raw Command" m s))
                (enter_raw_mode-Kept is_connected m s))
              (if_keeps Kept (index == 4) (if_keeps Kept (not is_connected) (keep s) (keep s)) (
                if_keeps Kept (index == 5) (rescan_action-Kept m s) (
                  if_keeps Kept (index == 6) (keep (v, p, t, r, ground arith)) (
                    if_keeps Kept (index == 7) (keep s)
                      (if_keeps Kept (index == 8) (keep s) (keep s)))))))))
