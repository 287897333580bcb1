-- ===== src/Gobot/Service/Examples.antt =====
-- A service with one draft, and a tag that matches it.
use new_era.Prelude.{ℕ, ◌≡◌, ◌<◌, ◌&&◌, not, refl, arith, some, true, false, List, [], ◌∷◌, ok, err}
use new_era.Prelude.Int.{pos}
use new_era.Prelude.Keys.{same, contains, insert}
use new_era.Prelude.Text.{Text, text_eq, text_beq, is_empty, codes}
use new_era.Gobot.Cache
use new_era.Gobot.Cache.{Store}
use new_era.Gobot.Cache.Laws.{replace-IsValid}
use new_era.Gobot.Erp.{normalize_epc, normal_list, transport, submitted, failed}
use new_era.Gobot.Service.State.{Service, ServiceConfig, new}
use new_era.Gobot.Service.Queue.{enqueue}
use new_era.Gobot.Service.Recent.{focus_set, collect_replay_candidates}
use new_era.Gobot.Service.Ingest.{handle_epc, add_draft_epcs, queued}
use new_era.Gobot.Service.Worker.{Answers, attempts, process_submit}
use new_era.Gobot.Service.Invariant.{Inv}
use new_era.Gobot.Service.Invariant.Runs.{
  Call, ingest, switch, drafts, refresh, work, run, run-new-Inv,
}
use new_era.Gobot.Service.Counters.{Balanced, run-new-Balanced}
use new_era.Gobot.Service.Submission.{first_status, may_submit, is_settled, has-process_submit}
use new_era.Gobot.Service.Retries.{Fails, Counts, process_submit_outcome}
use new_era.Gobot.Service.Drafts.{IsUnderWay, add_draft_epcs_replays_all}
use new_era.Gobot.Service.Replay.{in_focus, seen_within, contains-collect_replay_candidates}

abbrev demo_config : ServiceConfig
demo_config = record {
  queue_size = 64;
  submit_retry = pos 2;
  recent_seen_ttl = pos 600;
  scan_default_active = true;
}

abbrev demo_epc : Text
demo_epc = codes "E280"

demo : Service
demo = new demo_config (Cache.replace (demo_epc ∷ [])) 0

-- The ERP cannot be reached at the first attempt, and takes the EPC at the second.
second_try : Answers
second_try attempt = elim attempt [ Prim.Native.Nat.zero ↦ err transport | _ ↦ ok submitted ]

abbrev history : List Call
history =
    ingest 5 (codes "e2 80")
    ∷ drafts 6 (codes "AA" ∷ [])
    ∷ work second_try
    ∷ switch 7 false
    ∷ refresh 8 false true failed
    ∷ []

queues_match : (handle_epc 5 (codes "e2 80") demo).1.action ≡ queued
unfolding demo new handle_epc enqueue normalize_epc Cache.has Cache.replace contains insert text_beq
queues_match = refl

run-new-Inv_example : Inv (run (new demo_config (Cache.replace (demo_epc ∷ [])) 0) history)
run-new-Inv_example =
    run-new-Inv demo_config (Cache.replace (demo_epc ∷ [])) 0 history
      (replace-IsValid (demo_epc ∷ []))

run-new-Balanced_example :
    Balanced (run (new demo_config (Cache.replace (demo_epc ∷ [])) 0) history)
run-new-Balanced_example = run-new-Balanced demo_config (Cache.replace (demo_epc ∷ [])) 0 history

demo_full : is_empty demo_epc ≡ false
unfolding is_empty
demo_full = refl

demo_cached : Cache.has demo_epc demo.cache ≡ true
unfolding demo new Cache.replace Cache.has is_empty contains insert text_beq
demo_cached = refl

demo_free : contains demo_epc demo.inflight ≡ false
unfolding demo new contains
demo_free = refl

-- The first status comes within two retries, after one error.
second_try-Fails : (j : ℕ) → j < 1 → Fails second_try j
unfolding second_try
second_try-Fails Prim.Native.Nat.zero h = (transport, refl)
second_try-Fails (Prim.Native.Nat.suc j) h = absurd (omega arith)

process_submit_outcome_example :
    Counts (some submitted) demo.stats (process_submit second_try demo_epc demo).0.stats
    × ((x : Text)
        → contains x (process_submit second_try demo_epc demo).0.inflight
          ≡ contains x demo.inflight)
    × (Cache.has demo_epc (process_submit second_try demo_epc demo).0.cache
        ≡ not (is_settled (some submitted)))
unfolding demo new second_try
process_submit_outcome_example =
    process_submit_outcome second_try demo_epc demo (some submitted) demo_full demo_cached demo_free
      (1, omega arith, refl, second_try-Fails)

has-process_submit_example :
    Cache.has demo_epc (process_submit second_try demo_epc demo).0.cache ≡ (
      Cache.has demo_epc demo.cache
      && not (
          may_submit demo_epc demo
          && (is_settled (first_status (attempts demo) 0 second_try) && same demo_epc demo_epc)))
has-process_submit_example = has-process_submit demo_epc second_try demo_epc demo

contains-collect_replay_candidates_example :
    contains demo_epc (collect_replay_candidates 9 (demo_epc ∷ []) demo).1 ≡ (
      Cache.has demo_epc demo.cache
      && (in_focus demo_epc (focus_set (demo_epc ∷ []) [])
          && seen_within demo.cfg.recent_seen_ttl 9 demo_epc demo.recent_seen))
contains-collect_replay_candidates_example =
    contains-collect_replay_candidates demo_epc 9 (demo_epc ∷ []) demo

-- A service that saw its draft's EPC, and scans.
abbrev seen_demo : Service
seen_demo = record demo { recent_seen = (demo_epc, 5) ∷ [] }

abbrev no_epcs : List Text
no_epcs = codes "zz" ∷ []

add_draft_epcs_replays_all_example :
    ((add_draft_epcs 9 no_epcs seen_demo).1 ≡ 0)
    × ((add_draft_epcs 9 no_epcs seen_demo).0.cache ≡ seen_demo.cache)
    × IsUnderWay demo_epc (add_draft_epcs 9 no_epcs seen_demo).0
unfolding demo new normal_list seen_within collect_replay_candidates Cache.has text_beq is_empty
    contains insert Cache.replace
add_draft_epcs_replays_all_example =
    add_draft_epcs_replays_all demo_epc 9 no_epcs seen_demo refl refl refl refl (omega arith)
