-- ===== src/Tui/Invariant/Connect.antt =====
-- Scans and connections keep the invariant: the cursor on the devices and the place in the queue of
-- endpoints stay in range.
use Prim.Native.String.{String}
use new_era.Prelude.{
  ℕ, ◌+◌, ◌<◌, ◌≡◌, refl, Bool, false, Option, none, some, List, [], ◌∷◌, ◌++◌, if_keeps, ◌==◌,
  length, arith,
}
use new_era.Prelude.Int.{ℤ}
use new_era.Prelude.Text.{Text}
use new_era.Tui.Plan.{Candidate, Endpoint, preferred_candidate_index, build_connect_plan}
use new_era.Tui.Model.{push_log, set_status, str, Model, BotCall, Cmd, start_reading}
use new_era.Tui.Connect.{
  clear_queue, give_up, endpoint_at, begin_queue, begin_connect_plan, try_next, retry_next_connect,
  quick_connect_to, run_quick_connect, request_to, request_connection_for_action, or_else,
}
use new_era.Tui.Outcomes.{
  with_candidates, scan_failed, scan_empty, connect_found, scan_found, on_scan_finished,
  prepare_reading, no_pending, probe_endpoint, run_pending, connect_failed, connect_succeeded,
  on_connect_finished,
}
use new_era.Tui.Invariant.{
  Points, Safe, SafeAfter, push_line_short, note_call, told_epcs, told_epcs-snoc,
}
use new_era.Tui.Invariant.Tune.{mask_or_one}

pub first_row : (total : ℕ) → Points 0 total
first_row total = ground arith

endpoint_at_fits :
    (es : List Endpoint) (i : ℕ) (e : Endpoint) → endpoint_at es i ≡ some e → i < length es
endpoint_at_fits [] i e h = absurd (cc)
endpoint_at_fits (x ∷ es) ℕ.zero e h = ground arith
endpoint_at_fits (x ∷ es) (ℕ.suc i) e h = let l = endpoint_at_fits es i e h in ground arith

restarted : (calls : List BotCall) → told_epcs (calls ++ (start_reading ∷ [])) ≡ []
unfolding note_call
restarted calls = told_epcs-snoc calls start_reading

module _ {S : Type 0} where
  begin_queue-Safe :
      (label : String) (es : List Endpoint) (m : Model S)
      → Safe m
      → SafeAfter (begin_queue label es m)
  unfolding begin_queue
  begin_queue-Safe label [] m (v, (d, a), t, r, l) =
      (v, (d, first_row 0), t, r, push_line_short _ _)
  begin_queue-Safe label (e ∷ es) m (v, (d, a), t, r, l) =
      (v, (d, first_row (length (e ∷ es))), t, r, push_line_short _ _)

  pub begin_connect_plan-Safe :
      (label : String) (idx : ℕ) (m : Model S) → Safe m → SafeAfter (begin_connect_plan label idx m)
  unfolding begin_connect_plan
  begin_connect_plan-Safe label idx m s =
      begin_queue-Safe label (build_connect_plan m.plan.candidates idx m.scan_ports) m s

  -- After the last endpoint.
  given_up :
      (label cause : Text) (o : Option Endpoint) (m : Model S)
      → Safe m
      → Safe (record (give_up label cause o m) {
        plan = record (clear_queue m.plan) { active = false };
      })
  given_up label cause none m (v, (d, a), t, r, l) = (v, (d, first_row 0), t, r, l)
  given_up label cause (some e) m (v, (d, a), t, r, l) =
      (v, (d, first_row 0), t, r, push_line_short _ _)

  try_next-Safe :
      (label cause : Text) (next : ℕ) (o : Option Endpoint) (m : Model S)
      → endpoint_at m.plan.queue next ≡ o
      → Safe m
      → Safe (try_next label cause next o m).0
  try_next-Safe label cause next none m h s =
      given_up label cause (endpoint_at m.plan.queue m.plan.attempt) m s
  try_next-Safe label cause next (some e) m h (v, (d, a), t, r, l) =
      let fits = endpoint_at_fits m.plan.queue next e h in
      (v, (d, ground arith), t, r, push_line_short _ _)

  retry_next_connect-Safe :
      (reason : Text) (m : Model S) → Safe m → Safe (retry_next_connect reason m).0
  unfolding retry_next_connect
  retry_next_connect-Safe reason m s =
      if_keeps (λ (p : Model S × Option (List Cmd)). Safe p.0) (length m.plan.queue == 0) s
        (try_next-Safe _ _ (m.plan.attempt + 1) _ m refl s)

  or_else-Safe :
      (p : Model S × Option (List Cmd)) (other : Model S × List Cmd)
      → Safe p.0
      → SafeAfter other
      → SafeAfter (or_else p other)
  or_else-Safe (next, some cmds) other s o = s
  or_else-Safe (next, none) other s o = o

  -- A retry, and what is done without one.
  pub retry_or-Safe :
      (reason : Text) (m : Model S) (other : Model S × List Cmd)
      → Safe m
      → SafeAfter other
      → SafeAfter (or_else (retry_next_connect reason m) other)
  retry_or-Safe reason m other s o =
      or_else-Safe (retry_next_connect reason m) other (retry_next_connect-Safe reason m s) o

  quick_connect_to-Safe : (o : Option ℕ) (m : Model S) → Safe m → SafeAfter (quick_connect_to o m)
  unfolding quick_connect_to
  quick_connect_to-Safe none m (v, p, t, r, l) = (v, p, t, r, push_line_short _ _)
  quick_connect_to-Safe (some idx) m s = begin_connect_plan-Safe "Quick Connect" idx m s

  pub run_quick_connect-Safe : (m : Model S) → Safe m → SafeAfter (run_quick_connect m)
  unfolding run_quick_connect
  run_quick_connect-Safe m s =
      let (v, p, t, r, l) = s in
      if_keeps SafeAfter m.plan.scanning (v, p, t, r, push_line_short _ _)
        (quick_connect_to-Safe (preferred_candidate_index m.plan.candidates) m s)

  request_to-Safe :
      (o : Option ℕ) (name : String) (m : Model S) → Safe m → SafeAfter (request_to o name m)
  unfolding request_to
  request_to-Safe none name m (v, p, t, r, l) =
      if_keeps SafeAfter m.plan.scanning (v, p, t, r, push_line_short _ _)
        (v, p, t, r, push_line_short _ _)
  request_to-Safe (some idx) name m s = begin_connect_plan-Safe name idx m s

  pub request_connection_for_action-Safe :
      (is_connected : Bool) (action : ℕ) (name : String) (m : Model S)
      → Safe m
      → SafeAfter (request_connection_for_action is_connected action name m)
  unfolding request_connection_for_action
  request_connection_for_action-Safe is_connected action name m s =
      if_keeps SafeAfter is_connected s (
        request_to-Safe (preferred_candidate_index m.plan.candidates) name
          (record m { plan = record m.plan { pending_action = some action } }) s)

  connect_found-Safe : (o : Option ℕ) (m : Model S) → Safe m → SafeAfter (connect_found o m)
  unfolding connect_found
  connect_found-Safe none m (v, (d, a), t, r, l) = (v, (d, first_row 0), t, r, push_line_short _ _)
  connect_found-Safe (some idx) m s =
      begin_connect_plan-Safe "Quick Connect" idx
        (record m { plan = record m.plan { pending_connect = false } }) s

  scan_found-Safe : (duration : ℤ) (m : Model S) → Safe m → SafeAfter (scan_found duration m)
  unfolding scan_found
  scan_found-Safe duration m (v, p, t, r, l) =
      if_keeps SafeAfter m.plan.pending_connect
        (connect_found-Safe (preferred_candidate_index m.plan.candidates) _
          (v, p, t, r, push_line_short _ _))
        (v, p, t, r, push_line_short _ _)

  scan_empty-Safe : (duration : ℤ) (m : Model S) → Safe m → SafeAfter (scan_empty duration m)
  unfolding scan_empty
  scan_empty-Safe duration m (v, (d, a), t, r, l) = (v, (d, first_row 0), t, r, push_line_short _ _)

  pub on_scan_finished-Safe :
      (error : Option Text) (duration : ℤ) (candidates : List Candidate) (m : Model S)
      → Safe m
      → SafeAfter (on_scan_finished error duration candidates m)
  unfolding on_scan_finished scan_failed
  on_scan_finished-Safe (some error) duration candidates m (v, p, t, r, l) =
      (v, p, t, r, push_line_short _ _)
  on_scan_finished-Safe none duration candidates m (v, (d, a), t, r, l) =
      if_keeps SafeAfter (length candidates == 0)
        (scan_empty-Safe duration (with_candidates duration candidates m)
          (v, (ground arith, a), t, r, l))
        (scan_found-Safe duration (with_candidates duration candidates m)
          (v, (ground arith, a), t, r, l))

  pub prepare_reading-Safe : (text : String) (m : Model S) → Safe m → Safe (prepare_reading text m)
  unfolding prepare_reading
  prepare_reading-Safe text m (v, p, (q, s, st, mask, i), (told, once, counts, idx), l) = (
    v,
    p,
    (q, s, st, mask_or_one m.tuning.ant_mask mask, i),
    (restarted m.bot_calls, tt, refl, ground arith),
    push_line_short _ _,
  )

  probe_endpoint-Safe : (m : Model S) → Safe m → SafeAfter (probe_endpoint m)
  unfolding probe_endpoint
  probe_endpoint-Safe m s = s

  run_pending-Safe : (action : Option ℕ) (m : Model S) → Safe m → SafeAfter (run_pending action m)
  unfolding run_pending
  run_pending-Safe none m s = probe_endpoint-Safe m s
  run_pending-Safe (some n) m s =
      if_keeps SafeAfter (n == 0)
        (prepare_reading-Safe "Connected. Preparing reader + reading started" (no_pending m) s)
        (if_keeps SafeAfter (n == 2) s (if_keeps SafeAfter (n == 3) s (probe_endpoint-Safe m s)))

  connect_failed-Safe : (error : Text) (m : Model S) → Safe m → SafeAfter (connect_failed error m)
  unfolding connect_failed
  connect_failed-Safe error m (v, p, t, r, l) =
      let logged = push_log "connect error: %s" (str error ∷ []) m in
      retry_or-Safe error logged
        (set_status "Connect failed: %s" (str error ∷ []) (no_pending logged), [])
        (v, p, t, r, push_line_short _ _) (v, p, t, r, push_line_short _ _)

  pub on_connect_finished-Safe :
      (error : Option Text) (endpoint : Endpoint) (m : Model S)
      → Safe m
      → SafeAfter (on_connect_finished error endpoint m)
  unfolding on_connect_finished connect_succeeded
  on_connect_finished-Safe (some error) endpoint m s =
      connect_failed-Safe error (record m { plan = record m.plan { active = false } }) s
  on_connect_finished-Safe none endpoint m (v, (d, a), t, r, l) =
      run_pending-Safe m.plan.pending_action _ (v, (d, first_row 0), t, r, push_line_short _ _)
