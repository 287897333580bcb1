-- ===== src/Gobot/Reader/Examples.antt =====
-- The lifecycle of the manager on two runs: one that was stopped, and the one that runs now.
use new_era.Prelude.{ℕ, ◌≡◌, refl, ◌||◌, true, false, [], ◌∷◌}
use new_era.Prelude.Keys.{nat_eq, contains}
use new_era.Gobot.Reader.{Manager, new, start, stop_begin, stop_cancel, finish_stopped, close_done}
use new_era.Gobot.Reader.Lifecycle.{
  HasOneLoop, Reaches, here, next, starts, stops, cancels, finishes, closes, one_loop_at_a_time,
  stop_waits_for_cancelled,
}

stopped : Manager
stopped = close_done 0 (finish_stopped 0 (stop_cancel 0 (stop_begin (start 5 new)).0))

second_run : Manager
second_run = start 9 stopped

first_stopped : Manager
first_stopped = stop_cancel 0 (stop_begin (start 5 new)).0

first_stopped_reached : Reaches new first_stopped
unfolding first_stopped start stop_begin stop_cancel contains
first_stopped_reached =
    next (next (next (here new) (starts 5 new)) (stops (start 5 new)))
      (cancels 0 (stop_begin (start 5 new)).0 refl)

second_run_reached : Reaches new second_run
unfolding second_run stopped first_stopped start stop_begin stop_cancel finish_stopped contains
second_run_reached =
    next
      (next (next first_stopped_reached (finishes 0 first_stopped refl))
        (closes 0 (finish_stopped 0 first_stopped) refl))
      (starts 9 (close_done 0 (finish_stopped 0 first_stopped)))

one_loop_at_a_time_example :
    HasOneLoop second_run.running second_run.done second_run.active
    × ((r : ℕ) → contains r second_run.closing ≡ true → contains r second_run.closed ≡ false)
one_loop_at_a_time_example = one_loop_at_a_time second_run second_run_reached

-- The second Stop finds no cancel function and waits while the first one has yet to call it.
abbrev both_stop : Manager
both_stop = (stop_begin (stop_begin second_run).0).0

stop_waits_for_cancelled_example :
    (second_run.active ≡ 1 ∷ [])
    × ((contains 1 both_stop.cancelling || contains 1 both_stop.cancelled) ≡ true)
unfolding second_run stopped start stop_begin stop_cancel finish_stopped close_done
stop_waits_for_cancelled_example =
    stop_waits_for_cancelled second_run both_stop 1 second_run_reached refl refl
      (next (here (stop_begin second_run).0) (stops (stop_begin second_run).0))
