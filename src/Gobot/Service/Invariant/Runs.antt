-- ===== src/Gobot/Service/Invariant/Runs.antt =====
-- Any sequence of calls of the service, and the invariant after it.
use new_era.Prelude.{ℕ, refl, Bool, List, [], ◌∷◌, arith}
use new_era.Prelude.Text.{Text, text_eq}
use new_era.Gobot.Cache.{Store}
use new_era.Gobot.Cache.Laws.{IsValid}
use new_era.Gobot.Erp.{Answer, FastDraftMessage, fetch_draft_epcs}
use new_era.Gobot.Service.State.{Service, ServiceConfig, new, status, set_notifier}
use new_era.Gobot.Service.Ingest.{handle_epc, set_scan_active, add_draft_epcs}
use new_era.Gobot.Service.Worker.{Answers, worker_round}
use new_era.Gobot.Service.Refresh.{refresh_cache}
use new_era.Gobot.Service.Invariant.{Inv}
use new_era.Gobot.Service.Invariant.Ingest.{handle_epc-Inv, set_scan_active-Inv, add_draft_epcs-Inv}
use new_era.Gobot.Service.Invariant.Worker.{worker_round-Inv}
use new_era.Gobot.Service.Invariant.Refresh.{refresh_cache-Inv}

-- One thing that happens to the service: a call of a method by the servers, the bot or the reader,
-- a tick of the refresh loop, or a round of a worker.
pub data Call : Type 0 where
  ingest : ℕ → Text → Call
  switch : ℕ → Bool → Call
  drafts : ℕ → List Text → Call
  refresh : ℕ → Bool → Bool → Answer FastDraftMessage → Call
  work : Answers → Call
  ask_status attach_notifier : Call

unfoldable pub step : Service → Call → Service
step s (ingest now raw) = (handle_epc now raw s).0
step s (switch now active) = (set_scan_active now active s).0
step s (drafts now epcs) = (add_draft_epcs now epcs s).0
step s (refresh now startup tell answer) =
    (refresh_cache now startup tell (fetch_draft_epcs answer) s).0
step s (work answers) = worker_round answers s
step s ask_status = (status s).0
step s attach_notifier = set_notifier s

unfoldable pub run : Service → List Call → Service
run s [] = s
run s (c ∷ cs) = run (step s c) cs

step-Inv : (s : Service) (c : Call) → Inv s → Inv (step s c)
unfolding step
step-Inv s (ingest now raw) v = handle_epc-Inv now raw s v
step-Inv s (switch now active) v = set_scan_active-Inv now active s v
step-Inv s (drafts now epcs) v = add_draft_epcs-Inv now epcs s v
step-Inv s (refresh now startup tell answer) v =
    refresh_cache-Inv now startup tell (fetch_draft_epcs answer) s v
step-Inv s (work answers) v = worker_round-Inv answers s v
step-Inv s ask_status v =
    unfold status in record { queue_valid = v.queue_valid; cache_valid = v.cache_valid }
step-Inv s attach_notifier v =
    unfold set_notifier in record { queue_valid = v.queue_valid; cache_valid = v.cache_valid }

run-Inv : (s : Service) (cs : List Call) → Inv s → Inv (run s cs)
unfolding run
run-Inv s [] v = v
run-Inv s (c ∷ cs) v = run-Inv (step s c) cs (step-Inv s c v)

pub new-Inv : (cfg : ServiceConfig) (c : Store) (now : ℕ) → IsValid c → Inv (new cfg c now)
unfolding new
new-Inv cfg c now v = record {
  queue_valid = record { same_members = λ x. refl; distinct = tt; bounded = omega arith };
  cache_valid = v;
}

-- After any sequence of calls on a new service, whatever the reader, the ERP and the clients send:
-- the set of queued EPCs has the same members as the queue, the queue has no EPC twice and no more
-- than its capacity, and the cache has no EPC twice and no empty one. The cache that the service was
-- made with is assumed to be like that.
pub run-new-Inv :
    (cfg : ServiceConfig) (c : Store) (now : ℕ) (cs : List Call)
    → IsValid c
    → Inv (run (new cfg c now) cs)
run-new-Inv cfg c now cs v = run-Inv (new cfg c now) cs (new-Inv cfg c now v)
