-- ===== src/Gobot/Service/Invariant/Refresh.antt =====
-- The invariant across RefreshCache.
use new_era.Prelude.{ℕ, Bool, List, Result, ok, err, if◌then◌else◌, ltb, if_keeps, length}
use new_era.Prelude.Int.{ℤ, ltb_ℤ}
use new_era.Prelude.Text.{Text, text_eq}
use new_era.Gobot.Cache
use new_era.Gobot.Cache.{Store}
use new_era.Gobot.Cache.Laws.{replace-IsValid}
use new_era.Gobot.Erp.{ErpError, FetchResult}
use new_era.Gobot.Service.State.{Service, turbo_ready}
use new_era.Gobot.Service.Queue.{enqueue_all}
use new_era.Gobot.Service.Recent.{collect_replay_candidates, diff_new_epcs}
use new_era.Gobot.Service.Refresh.{refresh_cache, tell_news, refresh_done}
use new_era.Gobot.Service.Invariant.{Inv, enqueue_all-Inv, notify-Inv}
use new_era.Gobot.Service.Invariant.Ingest.{collect-Inv}

tell_news-Inv :
    (startup : Bool) (res : FetchResult) (new_epcs : List Text) (prev : ℤ) (s : Service)
    → Inv s
    → Inv (tell_news startup res new_epcs prev s)
tell_news-Inv startup res new_epcs prev s v = if_keeps Inv startup v (
    if_keeps Inv (ltb 0 (length new_epcs)) (notify-Inv _ s v)
      (if_keeps Inv (ltb_ℤ prev res.draft_count) (notify-Inv _ s v) v))

pub refresh_cache-Inv :
    (now : ℕ) (startup tell : Bool) (fetched : Result ErpError FetchResult) (s : Service)
    → Inv s
    → Inv (refresh_cache now startup tell fetched s).0
unfolding refresh_cache
refresh_cache-Inv now startup tell (err e) s v = record {
  queue_valid = v.queue_valid;
  cache_valid = v.cache_valid;
}
refresh_cache-Inv now startup tell (ok res) s v =
    let (kept, replay) =
      collect_replay_candidates now res.epcs (record s { cache = Cache.replace res.epcs }) in
    let done = refresh_done now res kept in
    let w =
      collect-Inv now res.epcs (record s { cache = Cache.replace res.epcs })
        (record { queue_valid = v.queue_valid; cache_valid = replace-IsValid res.epcs }) in
    let d : Inv done = record { queue_valid = w.queue_valid; cache_valid = w.cache_valid } in
    let sent = if done.scan_active then enqueue_all replay done else done in
    let u : Inv sent = if_keeps Inv done.scan_active (enqueue_all-Inv replay done d) d in
    let new_epcs = diff_new_epcs res.epcs s in
    let told = tell_news startup res new_epcs s.draft_count sent in
    let t : Inv told = tell_news-Inv startup res new_epcs s.draft_count sent u in
    if_keeps Inv tell (notify-Inv (turbo_ready res.draft_count (length res.epcs)) told t) t
