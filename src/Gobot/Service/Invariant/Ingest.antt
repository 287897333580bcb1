-- ===== src/Gobot/Service/Invariant/Ingest.antt =====
-- The invariant across HandleEPC, SetScanActive and AddDraftEPCs.
use new_era.Prelude.{ℕ, Bool, true, false, not, List, [], if◌then◌else◌, if_keeps}
use new_era.Prelude.Text.{Text, text_eq, is_empty}
use new_era.Gobot.Cache
use new_era.Gobot.Cache.{Store}
use new_era.Gobot.Cache.Laws.{add-IsValid}
use new_era.Gobot.Erp.{normalize_epc, normal_list}
use new_era.Gobot.Service.State.{Service}
use new_era.Gobot.Service.Queue.{enqueue_all}
use new_era.Gobot.Service.Recent.{collect_replay_candidates}
use new_era.Gobot.Service.Ingest.{
  handle_epc, match_epc, note_seen, set_scan_active, switch_scan, add_draft_epcs, count_hit,
  IngestResult,
}
use new_era.Gobot.Service.Invariant.{Inv, enqueue-Inv, enqueue_all-Inv, notify-Inv}

note_seen-Inv : (now : ℕ) (epc : Text) (s : Service) → Inv s → Inv (note_seen now epc s)
unfolding note_seen
note_seen-Inv now epc s v = record { queue_valid = v.queue_valid; cache_valid = v.cache_valid }

match_epc-Inv : (epc : Text) (s : Service) → Inv s → Inv (match_epc epc s).0
unfolding match_epc
match_epc-Inv epc s v =
    if_keeps (λ (r : Service × IngestResult). Inv r.0) (not s.scan_active) v
      (if_keeps (λ (r : Service × IngestResult). Inv r.0) (not (Cache.has epc s.cache))
        (record { queue_valid = v.queue_valid; cache_valid = v.cache_valid })
        (enqueue-Inv epc (count_hit s)
          (record { queue_valid = v.queue_valid; cache_valid = v.cache_valid })))

pub handle_epc-Inv : (now : ℕ) (raw : Text) (s : Service) → Inv s → Inv (handle_epc now raw s).0
unfolding handle_epc
handle_epc-Inv now raw s v =
    if_keeps (λ (r : Service × IngestResult). Inv r.0) (is_empty (normalize_epc raw)) v
      (match_epc-Inv _ _ (note_seen-Inv now (normalize_epc raw) s v))

switch_scan-Inv : (now : ℕ) (active : Bool) (s : Service) → Inv s → Inv (switch_scan now active s)
unfolding switch_scan
switch_scan-Inv now true s v =
    if_keeps Inv s.scan_active v
      (record { queue_valid = v.queue_valid; cache_valid = v.cache_valid })
switch_scan-Inv now false s v =
    if_keeps Inv (not s.scan_active) v
      (record { queue_valid = v.queue_valid; cache_valid = v.cache_valid })

pub collect-Inv :
    (now : ℕ) (focus : List Text) (s : Service)
    → Inv s
    → Inv (collect_replay_candidates now focus s).0
unfolding collect_replay_candidates
collect-Inv now focus s v = record { queue_valid = v.queue_valid; cache_valid = v.cache_valid }

pub set_scan_active-Inv :
    (now : ℕ) (active : Bool) (s : Service) → Inv s → Inv (set_scan_active now active s).0
unfolding set_scan_active
set_scan_active-Inv now active s v =
    let w = switch_scan-Inv now active s v in
    if_keeps (λ (r : Service × ℕ). Inv r.0) (not active) w
      (if_keeps (λ (r : Service × ℕ). Inv r.0) s.scan_active w
        (enqueue_all-Inv _ _ (collect-Inv now [] _ w)))

replay-Inv :
    (now : ℕ) (focus : List Text) (s : Service)
    → Inv s
    → Inv (
        let (kept, replay) = collect_replay_candidates now focus s in
        if kept.scan_active then enqueue_all replay kept else kept)
replay-Inv now focus s v =
    let w = collect-Inv now focus s v in if_keeps Inv _ (enqueue_all-Inv _ _ w) w

pub add_draft_epcs-Inv :
    (now : ℕ) (epcs : List Text) (s : Service) → Inv s → Inv (add_draft_epcs now epcs s).0
unfolding add_draft_epcs
add_draft_epcs-Inv now epcs s v =
    let clean = normal_list [] epcs in
    let w =
      replay-Inv now clean (record s { cache = (Cache.add clean s.cache).0 })
        (record {
          queue_valid = v.queue_valid;
          cache_valid = add-IsValid clean s.cache v.cache_valid;
        }) in
    if_keeps Inv _ (notify-Inv _ _ w) w
