-- ===== src/Gobot/Service/Ingest.antt =====
-- HandleEPC, SetScanActive and AddDraftEPCs of internal/gobot/service/service.go. Each method is one
-- step: what another goroutine does between two of its critical sections is a step before or after it.
use new_era.Prelude.{ℕ, Bool, true, false, not, none, some, List, [], if◌then◌else◌, ltb, length}
use new_era.Prelude.Text.{Text, text_eq, is_empty}
use new_era.Gobot.Cache
use new_era.Gobot.Erp.{normalize_epc, normal_list}
use new_era.Gobot.Service.State.{Service, webhook_drafts, inc, notify, summarize_parts}
use new_era.Gobot.Service.Queue.{enqueue, enqueue_all}
use new_era.Gobot.Service.Recent.{
  remember, gc_recent_seen_locked, collect_replay_candidates, diff_new_epcs,
}

pub data Action : Type 0 where
  invalid inactive miss queued_or_dropped queued : Action

-- The error text stands with `invalid` alone.
pub record IngestResult : Type 0 where
  pub epc : Text
  pub action : Action

-- The first critical section: the tag is remembered and counted.
unfoldable pub note_seen : ℕ → Text → Service → Service
unfolding gc_recent_seen_locked
note_seen now epc s =
    let seen =
      gc_recent_seen_locked now (record s { recent_seen = remember epc now s.recent_seen }) in
    record seen {
      stats = record seen.stats {
        seen_total = inc seen.stats.seen_total;
        scan_inactive =
            if seen.scan_active then seen.stats.scan_inactive else inc seen.stats.scan_inactive;
      };
    }

abbrev pub count_miss : Service → Service
count_miss s = record s { stats = record s.stats { cache_misses = inc s.stats.cache_misses } }

abbrev pub count_hit : Service → Service
count_hit s = record s { stats = record s.stats { cache_hits = inc s.stats.cache_hits } }

-- From the test of the scan flag on.
unfoldable pub match_epc : Text → Service → Service × IngestResult
match_epc epc s =
    if not s.scan_active
    then (s, record { epc = epc; action = inactive })
    else if not (Cache.has epc s.cache)
    then (count_miss s, record { epc = epc; action = miss })
    else (let (done, sent) = enqueue epc (count_hit s) in
        (done, record { epc = epc; action = if sent then queued else queued_or_dropped }))

unfoldable pub handle_epc : ℕ → Text → Service → Service × IngestResult
unfolding match_epc note_seen
handle_epc now raw_epc s =
    let epc = normalize_epc raw_epc in
    if is_empty epc
    then (s, record { epc = []; action = invalid })
    else match_epc epc (note_seen now epc s)

-- The critical section of SetScanActive.
unfoldable pub switch_scan : ℕ → Bool → Service → Service
switch_scan now true s = if s.scan_active then s else record s {
  scan_active = true;
  scan_since = some now;
  stats = record s.stats { scan_active = true; scan_since = some now };
}
switch_scan now false s = if not s.scan_active then s else record s {
  scan_active = false;
  scan_since = none;
  stats = record s.stats { scan_active = false; scan_since = none };
}

-- The result is the number of EPCs that were found to be replayed.
unfoldable pub set_scan_active : ℕ → Bool → Service → Service × ℕ
unfolding switch_scan
set_scan_active now active s =
    let switched = switch_scan now active s in
    if not active
    then (switched, 0)
    else if s.scan_active
    then (switched, 0)
    else (let (kept, replay) = collect_replay_candidates now [] switched in
        (enqueue_all replay kept, length replay))

-- The results are the number of EPCs that were new to the cache, and of those found to be replayed.
unfoldable pub add_draft_epcs : ℕ → List Text → Service → Service × ℕ × ℕ
add_draft_epcs now epcs s =
    let clean = normal_list [] epcs in
    let new_epcs = diff_new_epcs clean s in
    let (cache, added) = Cache.add clean s.cache in
    let (kept, replay) = collect_replay_candidates now clean (record s { cache = cache }) in
    let sent = if kept.scan_active then enqueue_all replay kept else kept in
    let told =
      if ltb 0 added
      then notify (webhook_drafts added (Cache.size sent.cache) (summarize_parts new_epcs 3)) sent
      else sent in
    (told, added, length replay)
