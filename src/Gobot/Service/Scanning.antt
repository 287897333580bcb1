-- ===== src/Gobot/Service/Scanning.antt =====
-- Which methods of internal/gobot/service/service.go leave the scan flag as it is, and what
-- SetScanActive makes of it.
use new_era.Prelude.{
  ℕ, zero, suc, ◌+◌, ◌≡◌, inl, inr, Bool, true, false, not, Option, none, some, List, [], ◌∷◌,
  Result, ok, err, Result-cases, if◌then◌else◌, if_keeps, ltb, length, arith,
}
use new_era.Prelude.Int.{ltb_ℤ}
use new_era.Prelude.Keys.{contains, delete}
use new_era.Prelude.Text.{Text, text_eq, is_empty}
use new_era.Gobot.Cache
use new_era.Gobot.Erp.{
  normalize_epc, normal_list, ErpError, FetchResult, SubmitStatus, submitted, not_found,
}
use new_era.Gobot.Service.State.{
  Service, Notice, notify, status, submit_ok, submit_failed, trim_epc, turbo_ready,
}
use new_era.Gobot.Service.Queue.{enqueue, enqueue_all, lock_inflight, unlock_inflight}
use new_era.Gobot.Service.Recent.{collect_replay_candidates, diff_new_epcs}
use new_era.Gobot.Service.Ingest.{
  IngestResult, note_seen, match_epc, count_hit, handle_epc, switch_scan, set_scan_active,
  add_draft_epcs,
}
use new_era.Gobot.Service.Refresh.{refresh_cache, refresh_done, tell_news}
use new_era.Gobot.Service.Worker.{
  Answers, settle, give_up, submit_loop, process_submit, attempts, receive, worker_round,
}

abbrev pub ScanIs : Bool → Service → Type 0
ScanIs b s = s.scan_active ≡ b

module _ (b : Bool) where
  notify-ScanIs : (n : Notice) (s : Service) → ScanIs b s → ScanIs b (notify n s)
  unfolding notify
  notify-ScanIs n s v = if_keeps (ScanIs b) s.has_notifier v v

  enqueue-ScanIs : (epc : Text) (s : Service) → ScanIs b s → ScanIs b (enqueue epc s).0
  unfolding enqueue
  enqueue-ScanIs epc s v =
      let P = λ (r : Service × Bool). ScanIs b r.0 in
      if_keeps P (is_empty epc) v (
        if_keeps P (contains epc s.queued) v (
          if_keeps P (contains epc s.inflight) v
            (if_keeps P (ltb (length s.queue) s.cfg.queue_size) v v)))

  enqueue_all-ScanIs : (epcs : List Text) (s : Service) → ScanIs b s → ScanIs b (enqueue_all epcs s)
  unfolding enqueue_all
  enqueue_all-ScanIs [] s v = v
  enqueue_all-ScanIs (epc ∷ epcs) s v =
      enqueue_all-ScanIs epcs (enqueue epc s).0 (enqueue-ScanIs epc s v)

  collect-ScanIs :
      (now : ℕ) (focus : List Text) (s : Service)
      → ScanIs b s
      → ScanIs b (collect_replay_candidates now focus s).0
  unfolding collect_replay_candidates
  collect-ScanIs now focus s v = v

  note_seen-ScanIs :
      (now : ℕ) (epc : Text) (s : Service) → ScanIs b s → ScanIs b (note_seen now epc s)
  unfolding note_seen
  note_seen-ScanIs now epc s v = v

  match_epc-ScanIs : (epc : Text) (s : Service) → ScanIs b s → ScanIs b (match_epc epc s).0
  unfolding match_epc
  match_epc-ScanIs epc s v =
      let P = λ (r : Service × IngestResult). ScanIs b r.0 in
      if_keeps P (not s.scan_active) v
        (if_keeps P (not (Cache.has epc s.cache)) v (enqueue-ScanIs epc (count_hit s) v))

  pub handle_epc-ScanIs :
      (now : ℕ) (raw : Text) (s : Service) → ScanIs b s → ScanIs b (handle_epc now raw s).0
  unfolding handle_epc
  handle_epc-ScanIs now raw s v =
      if_keeps (λ (r : Service × IngestResult). ScanIs b r.0) (is_empty (normalize_epc raw)) v
        (match_epc-ScanIs _ _ (note_seen-ScanIs now (normalize_epc raw) s v))

  replay-ScanIs :
      (replay : List Text) (s : Service)
      → ScanIs b s
      → ScanIs b (if s.scan_active then enqueue_all replay s else s)
  replay-ScanIs replay s v = if_keeps (ScanIs b) s.scan_active (enqueue_all-ScanIs replay s v) v

  pub add_draft_epcs-ScanIs :
      (now : ℕ) (epcs : List Text) (s : Service)
      → ScanIs b s
      → ScanIs b (add_draft_epcs now epcs s).0
  unfolding add_draft_epcs
  add_draft_epcs-ScanIs now epcs s v =
      let clean = normal_list [] epcs in
      let grown = Cache.add clean s.cache in
      let collected = collect_replay_candidates now clean (record s { cache = grown.0 }) in
      let w =
        replay-ScanIs collected.1 collected.0
          (collect-ScanIs now clean (record s { cache = grown.0 }) v) in
      if_keeps (ScanIs b) (ltb 0 grown.1) (notify-ScanIs _ _ w) w

  pub refresh_cache-ScanIs :
      (now : ℕ) (startup tell : Bool) (fetched : Result ErpError FetchResult) (s : Service)
      → ScanIs b s
      → ScanIs b (refresh_cache now startup tell fetched s).0
  unfolding refresh_cache
  refresh_cache-ScanIs now startup tell (err e) s v = v
  refresh_cache-ScanIs now startup tell (ok res) s v =
      let collected =
        collect_replay_candidates now res.epcs (record s { cache = Cache.replace res.epcs }) in
      let done = refresh_done now res collected.0 in
      let w : ScanIs b done =
        collect-ScanIs now res.epcs (record s { cache = Cache.replace res.epcs }) v in
      let sent = if done.scan_active then enqueue_all collected.1 done else done in
      let u : ScanIs b sent = replay-ScanIs collected.1 done w in
      let news = diff_new_epcs res.epcs s in
      let t : ScanIs b (tell_news startup res news s.draft_count sent) =
        if_keeps (ScanIs b) startup u (
          if_keeps (ScanIs b) (ltb 0 (length news)) (notify-ScanIs _ sent u) (
            if_keeps (ScanIs b) (ltb_ℤ s.draft_count res.draft_count) (notify-ScanIs _ sent u)
              u)) in
      if_keeps (ScanIs b) tell (notify-ScanIs (turbo_ready res.draft_count (length res.epcs)) _ t) t

  settle-ScanIs :
      (st : SubmitStatus) (epc : Text) (s : Service) → ScanIs b s → ScanIs b (settle st epc s)
  unfolding settle
  settle-ScanIs submitted epc s v = notify-ScanIs (submit_ok (trim_epc epc)) _ v
  settle-ScanIs not_found epc s v = v

  submit_loop-ScanIs :
      (left attempt : ℕ) (answers : Answers) (last : Option ErpError) (epc : Text) (s : Service)
      → ScanIs b s
      → ScanIs b (submit_loop left attempt answers last epc s).0
  unfolding submit_loop give_up
  submit_loop-ScanIs zero attempt answers last epc s v =
      notify-ScanIs (submit_failed (trim_epc epc)) _ v
  submit_loop-ScanIs (suc left) attempt answers last epc s v =
      elim (Result-cases (answers attempt)) [
        | inl (st, e) ↦ rw (e, submit_loop) (settle-ScanIs st epc s v)
        | inr (x, e) ↦
            rw (e, submit_loop) (submit_loop-ScanIs left (attempt + 1) answers (some x) epc s v)
      ]

  lock_inflight-ScanIs : (epc : Text) (s : Service) → ScanIs b s → ScanIs b (lock_inflight epc s).0
  unfolding lock_inflight
  lock_inflight-ScanIs epc s v =
      if_keeps (λ (r : Service × Bool). ScanIs b r.0) (contains epc s.inflight) v v

  process_submit-ScanIs :
      (answers : Answers) (epc : Text) (s : Service)
      → ScanIs b s
      → ScanIs b (process_submit answers epc s).0
  unfolding process_submit unlock_inflight
  process_submit-ScanIs answers epc s v =
      let P = λ (r : Service × Option ErpError). ScanIs b r.0 in
      let d =
        submit_loop-ScanIs (attempts s) 0 answers none epc (lock_inflight epc s).0
          (lock_inflight-ScanIs epc s v) in
      if_keeps P (is_empty epc) v
        (if_keeps P (not (Cache.has epc s.cache)) v (if_keeps P (not (lock_inflight epc s).1) v d))

  receive-ScanIs :
      (answers : Answers) (queue : List Text) (s : Service)
      → ScanIs b s
      → ScanIs b (receive answers queue s)
  unfolding receive
  receive-ScanIs answers [] s v = v
  receive-ScanIs answers (epc ∷ rest) s v =
      process_submit-ScanIs answers epc (record s { queue = rest; queued = delete epc s.queued }) v

  pub worker_round-ScanIs :
      (answers : Answers) (s : Service) → ScanIs b s → ScanIs b (worker_round answers s)
  unfolding worker_round
  worker_round-ScanIs answers s v = receive-ScanIs answers s.queue s v

  pub status-ScanIs : (s : Service) → ScanIs b s → ScanIs b (status s).0
  unfolding status
  status-ScanIs s v = v

switch_scan-ScanIs :
    (now : ℕ) (active : Bool) (s : Service) → ScanIs active (switch_scan now active s)
unfolding switch_scan
switch_scan-ScanIs now true s = ground arith
switch_scan-ScanIs now false s = ground arith

pub set_scan_active-ScanIs :
    (now : ℕ) (active : Bool) (s : Service) → ScanIs active (set_scan_active now active s).0
unfolding set_scan_active
set_scan_active-ScanIs now active s =
    let P = λ (r : Service × ℕ). ScanIs active r.0 in
    let switched = switch_scan now active s in
    let w = switch_scan-ScanIs now active s in
    if_keeps P (not active) w (
      if_keeps P s.scan_active w (
        enqueue_all-ScanIs active (collect_replay_candidates now [] switched).1
          (collect_replay_candidates now [] switched).0 (collect-ScanIs active now [] switched w)))
