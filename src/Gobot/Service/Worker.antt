-- ===== src/Gobot/Service/Worker.antt =====
-- worker and processSubmit of internal/gobot/service/service.go. `answers` gives what the ERP client
-- returns at each attempt. The waits between attempts and the log lines are not modelled.
use new_era.Prelude.{
  ℕ, zero, suc, ◌+◌, not, Option, none, some, List, [], ◌∷◌, Result, ok, err, if◌then◌else◌,
}
use new_era.Prelude.Int.{pos, ◌+ℤ◌, to_ℕ}
use new_era.Prelude.Keys.{delete}
use new_era.Prelude.Text.{Text, text_eq, is_empty}
use new_era.Gobot.Cache
use new_era.Gobot.Erp.{ErpError, SubmitStatus, submitted, not_found}
use new_era.Gobot.Service.State.{Service, submit_ok, submit_failed, inc, notify, trim_epc}
use new_era.Gobot.Service.Queue.{lock_inflight, unlock_inflight}

-- What the ERP client returns at each attempt.
abbrev pub Answers : Type 0
Answers = ℕ → Result ErpError SubmitStatus

unfoldable pub settle : SubmitStatus → Text → Service → Service
settle submitted epc s =
    let cache = Cache.remove epc s.cache in
    notify (submit_ok (trim_epc epc)) (record s {
      cache = cache;
      stats = record s.stats {
        submitted_ok = inc s.stats.submitted_ok;
        cache_size = Cache.size cache;
      };
    })
settle not_found epc s =
    let cache = Cache.remove epc s.cache in
    record s {
      cache = cache;
      stats = record s.stats {
        submit_not_found = inc s.stats.submit_not_found;
        cache_size = Cache.size cache;
      };
    }

unfoldable pub give_up : Text → Service → Service
give_up epc s =
    notify (submit_failed (trim_epc epc))
      (record s { stats = record s.stats { submit_errors = inc s.stats.submit_errors } })

-- The attempts left, the number of this one, and the error of the last one.
unfoldable pub submit_loop :
    ℕ → ℕ → Answers → Option ErpError → Text → Service → Service × Option ErpError
unfolding settle give_up
submit_loop zero attempt answers last epc s = (give_up epc s, last)
submit_loop (suc left) attempt answers last epc s = elim (answers attempt) [
  | ok st ↦ (settle st epc s, none)
  | err e ↦ submit_loop left (attempt + 1) answers (some e) epc s
]

-- `for attempt := 0; attempt <= retries; attempt++`
abbrev pub attempts : Service → ℕ
attempts s = to_ℕ (s.cfg.submit_retry +ℤ pos 1)

unfoldable pub process_submit : Answers → Text → Service → Service × Option ErpError
unfolding submit_loop
process_submit answers epc s =
    if is_empty epc
    then (s, none)
    else if not (Cache.has epc s.cache)
    then (s, none)
    else (let (locked, got) = lock_inflight epc s in
        let (done, e) = submit_loop (attempts s) 0 answers none epc locked in
        if not got then (s, none) else (unlock_inflight epc done, e))

-- One round of a worker, on what the channel holds: it waits while that is nothing.
unfoldable pub receive : Answers → List Text → Service → Service
unfolding process_submit
receive answers [] s = s
receive answers (epc ∷ rest) s =
    (process_submit answers epc (record s { queue = rest; queued = delete epc s.queued })).0

unfoldable pub worker_round : Answers → Service → Service
unfolding receive
worker_round answers s = receive answers s.queue s
