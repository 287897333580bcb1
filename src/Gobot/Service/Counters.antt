-- ===== src/Gobot/Service/Counters.antt =====
-- The counters of HandleEPC add up: each tag that was seen was a hit, a miss, or came while scanning
-- was off.
use new_era.Prelude.{
  ℕ, zero, suc, ◌+◌, ◌%◌, ◌≡◌, refl, inl, inr, Bool, true, false, not, Option, none, some, List, [],
  ◌∷◌, Result, ok, err, ltb, if_keeps, Result-cases, length, arith,
}
use new_era.Prelude.Int.{ℤ, ltb_ℤ}
use new_era.Prelude.Keys.{contains}
use new_era.Prelude.Text.{Text, text_eq, is_empty}
use new_era.Gobot.Cache
use new_era.Gobot.Cache.{Store}
use new_era.Gobot.Erp.{normal_list, ErpError, FetchResult, submitted, not_found, fetch_draft_epcs}
use new_era.Gobot.Service.State.{
  Service, ServiceConfig, Notice, new, notify, status, set_notifier, u64_mod,
}
use new_era.Gobot.Service.Queue.{enqueue, enqueue_all, lock_inflight, unlock_inflight}
use new_era.Gobot.Service.Recent.{collect_replay_candidates, diff_new_epcs}
use new_era.Gobot.Service.Ingest.{handle_epc, set_scan_active, add_draft_epcs}
use new_era.Gobot.Service.Worker.{
  Answers, submit_loop, process_submit, receive, worker_round, attempts,
}
use new_era.Gobot.Service.Refresh.{refresh_cache, tell_news}
use new_era.Gobot.Service.Invariant.Runs.{
  Call, ingest, switch, drafts, refresh, work, ask_status, attach_notifier, step, run,
}

-- As uint64 values.
pub Balanced : Service → Type 0
Balanced s =
    (s.stats.cache_hits + s.stats.cache_misses + s.stats.scan_inactive) % u64_mod
    ≡ s.stats.seen_total % u64_mod

enqueue-Balanced : (epc : Text) (s : Service) → Balanced s → Balanced (enqueue epc s).0
unfolding enqueue Balanced
enqueue-Balanced epc s b = ground arith

enqueue_all-Balanced : (epcs : List Text) (s : Service) → Balanced s → Balanced (enqueue_all epcs s)
unfolding enqueue_all
enqueue_all-Balanced [] s b = b
enqueue_all-Balanced (epc ∷ epcs) s b =
    enqueue_all-Balanced epcs (enqueue epc s).0 (enqueue-Balanced epc s b)

notify-Balanced : (n : Notice) (s : Service) → Balanced s → Balanced (notify n s)
unfolding notify Balanced
notify-Balanced n s b = if_keeps Balanced s.has_notifier b b

handle_epc-Balanced :
    (now : ℕ) (raw : Text) (s : Service) → Balanced s → Balanced (handle_epc now raw s).0
unfolding handle_epc Balanced enqueue
handle_epc-Balanced now raw s b = ground arith

set_scan_active-Balanced :
    (now : ℕ) (active : Bool) (s : Service) → Balanced s → Balanced (set_scan_active now active s).0
unfolding set_scan_active Balanced collect_replay_candidates
set_scan_active-Balanced now true s b =
    if_keeps (λ (r : Service × ℕ). Balanced r.0) s.scan_active (if_keeps Balanced s.scan_active b b)
      (enqueue_all-Balanced _ _ (if_keeps Balanced s.scan_active b b))
set_scan_active-Balanced now false s b = if_keeps Balanced (not s.scan_active) b b

add_draft_epcs-Balanced :
    (now : ℕ) (epcs : List Text) (s : Service) → Balanced s → Balanced (add_draft_epcs now epcs s).0
unfolding add_draft_epcs Balanced collect_replay_candidates
add_draft_epcs-Balanced now epcs s b =
    let w = if_keeps Balanced s.scan_active (enqueue_all-Balanced _ _ b) b in
    if_keeps Balanced (ltb 0 (Cache.add (normal_list [] epcs) s.cache).1) (notify-Balanced _ _ w) w

submit_loop-Balanced :
    (left attempt : ℕ) (answers : Answers) (last : Option ErpError) (epc : Text) (s : Service)
    → Balanced s
    → Balanced (submit_loop left attempt answers last epc s).0
unfolding submit_loop Balanced
submit_loop-Balanced zero attempt answers last epc s b = notify-Balanced _ _ b
submit_loop-Balanced (suc left) attempt answers last epc s b =
    elim (Result-cases (answers attempt)) [
      | inl (submitted, e) ↦ rw (e, submit_loop) (notify-Balanced _ _ b)
      | inl (not_found, e) ↦ rw (e, submit_loop) b
      | inr (x, e) ↦
          rw (e, submit_loop) (submit_loop-Balanced left (attempt + 1) answers (some x) epc s b)
    ]

process_submit-Balanced :
    (answers : Answers) (epc : Text) (s : Service)
    → Balanced s
    → Balanced (process_submit answers epc s).0
unfolding process_submit Balanced lock_inflight unlock_inflight
process_submit-Balanced answers epc s b =
    let lock : Balanced (lock_inflight epc s).0 =
      if_keeps (λ (r : Service × Bool). Balanced r.0) (contains epc s.inflight) b b in
    let d = submit_loop-Balanced (attempts s) 0 answers none epc (lock_inflight epc s).0 lock in
    if_keeps (λ (r : Service × Option ErpError). Balanced r.0) (is_empty epc) b
      (if_keeps (λ (r : Service × Option ErpError). Balanced r.0) (not (Cache.has epc s.cache)) b
        (if_keeps (λ (r : Service × Option ErpError). Balanced r.0) (not (lock_inflight epc s).1) b
          d))

receive-Balanced :
    (answers : Answers) (queue : List Text) (s : Service)
    → Balanced s
    → Balanced (receive answers queue s)
unfolding receive Balanced
receive-Balanced answers [] s b = b
receive-Balanced answers (epc ∷ rest) s b = process_submit-Balanced answers epc _ b

tell_news-Balanced :
    (startup : Bool) (res : FetchResult) (new_epcs : List Text) (prev : ℤ) (s : Service)
    → Balanced s
    → Balanced (tell_news startup res new_epcs prev s)
tell_news-Balanced startup res new_epcs prev s v = if_keeps Balanced startup v (
    if_keeps Balanced (ltb 0 (length new_epcs)) (notify-Balanced _ s v)
      (if_keeps Balanced (ltb_ℤ prev res.draft_count) (notify-Balanced _ s v) v))

refresh_cache-Balanced :
    (now : ℕ) (startup tell : Bool) (fetched : Result ErpError FetchResult) (s : Service)
    → Balanced s
    → Balanced (refresh_cache now startup tell fetched s).0
unfolding refresh_cache Balanced collect_replay_candidates
refresh_cache-Balanced now startup tell (err e) s b = b
refresh_cache-Balanced now startup tell (ok res) s b =
    let u = if_keeps Balanced s.scan_active (enqueue_all-Balanced _ _ b) b in
    let t = tell_news-Balanced startup res (diff_new_epcs res.epcs s) s.draft_count _ u in
    if_keeps Balanced tell (notify-Balanced _ _ t) t

step-Balanced : (s : Service) (c : Call) → Balanced s → Balanced (step s c)
unfolding step Balanced worker_round status set_notifier
step-Balanced s (ingest now raw) b = handle_epc-Balanced now raw s b
step-Balanced s (switch now active) b = set_scan_active-Balanced now active s b
step-Balanced s (drafts now epcs) b = add_draft_epcs-Balanced now epcs s b
step-Balanced s (refresh now startup tell answer) b =
    refresh_cache-Balanced now startup tell (fetch_draft_epcs answer) s b
step-Balanced s (work answers) b = receive-Balanced answers s.queue s b
step-Balanced s ask_status b = b
step-Balanced s attach_notifier b = b

run-Balanced : (s : Service) (cs : List Call) → Balanced s → Balanced (run s cs)
unfolding run
run-Balanced s [] b = b
run-Balanced s (c ∷ cs) b = run-Balanced (step s c) cs (step-Balanced s c b)

-- After any sequence of calls on a new service, the cache hits, the cache misses and the tags that
-- came while scanning was off add up to the tags seen, as uint64 counters.
pub run-new-Balanced :
    (cfg : ServiceConfig) (c : Store) (now : ℕ) (cs : List Call) → Balanced (run (new cfg c now) cs)
run-new-Balanced cfg c now cs = run-Balanced (new cfg c now) cs (unfold Balanced new in refl)
