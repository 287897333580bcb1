-- ===== src/Gobot/Service/Refresh.antt =====
-- RefreshCache of internal/gobot/service/service.go, given what FetchDraftEPCs returned.
use new_era.Prelude.{
  ℕ, Bool, true, false, Option, none, some, List, Result, ok, err, if◌then◌else◌, ltb, length,
}
use new_era.Prelude.Int.{ℤ, ltb_ℤ, ◌-ℤ◌}
use new_era.Prelude.Text.{Text, text_eq}
use new_era.Gobot.Cache
use new_era.Gobot.Erp.{ErpError, FetchResult}
use new_era.Gobot.Service.State.{
  Service, new_drafts, more_drafts, turbo_ready, notify, summarize_parts,
}
use new_era.Gobot.Service.Queue.{enqueue_all}
use new_era.Gobot.Service.Recent.{collect_replay_candidates, diff_new_epcs}

abbrev pub refresh_failed : ℕ → ErpError → Service → Service
refresh_failed now e s = record s {
  last_err = some e;
  last_refresh = some now;
  stats = record s.stats {
    last_refresh_at = some now;
    last_refresh_ok = false;
    last_error = some e;
  };
}

-- The critical section after a successful fetch.
abbrev pub refresh_done : ℕ → FetchResult → Service → Service
refresh_done now res s = record s {
  draft_count = res.draft_count;
  last_refresh = some now;
  last_err = none;
  stats = record s.stats {
    cache_size = Cache.size s.cache;
    draft_count = res.draft_count;
    last_refresh_at = some now;
    last_refresh_ok = true;
    last_error = none;
  };
}

abbrev pub tell_news : Bool → FetchResult → List Text → ℤ → Service → Service
tell_news startup res new_epcs prev_draft_count s =
    if startup
    then s
    else if ltb 0 (length new_epcs)
    then notify (new_drafts (length new_epcs) (Cache.size s.cache) (summarize_parts new_epcs 3)) s
    else if ltb_ℤ prev_draft_count res.draft_count
    then notify (more_drafts (res.draft_count -ℤ prev_draft_count) (Cache.size s.cache)) s
    else s

-- `startup` says whether the reason is "startup"; `tell` is the argument `notify`.
unfoldable pub refresh_cache :
    ℕ → Bool → Bool → Result ErpError FetchResult → Service → Service × Option ErpError
refresh_cache now startup tell (err e) s = (refresh_failed now e s, some e)
refresh_cache now startup tell (ok res) s =
    let new_epcs = diff_new_epcs res.epcs s in
    let (kept, replay) =
      collect_replay_candidates now res.epcs (record s { cache = Cache.replace res.epcs }) in
    let done = refresh_done now res kept in
    let sent = if done.scan_active then enqueue_all replay done else done in
    let told = tell_news startup res new_epcs s.draft_count sent in
    (if tell then notify (turbo_ready res.draft_count (length res.epcs)) told else told, none)
