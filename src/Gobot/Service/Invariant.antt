-- ===== src/Gobot/Service/Invariant.antt =====
-- What every method of the service keeps true of its queue and its cache.
pub mod Ingest
pub mod Worker
pub mod Refresh
pub mod Runs
use new_era.Prelude.{
  ℕ, zero, suc, ◌+◌, ◌≤◌, ◌≡◌, refl, sym, ap, ◌∙◌, inl, inr, Bool, true, false, not, ◌&&◌, ◌||◌,
  Option, none, some, List, [], ◌∷◌, ◌++◌, Result, ok, err, if◌then◌else◌, ltb, Bool-cases,
  if_keeps, Result-cases, length, length-append, arith,
}
use mathlib.Core.Path.{subst}
use new_era.Prelude.Int.{ℤ}
use new_era.Prelude.Keys.{
  same, contains, insert, delete, Distinct, contains-insert, contains-delete, contains-snoc,
  snoc-Distinct, insert-Distinct, delete-Distinct, same→eq, same_refl, contains-same,
}
use new_era.Prelude.Text.{Text, text_eq, text_beq, text_beq_iff, is_empty}
use new_era.Gobot.Cache
use new_era.Gobot.Cache.{Store}
use new_era.Gobot.Cache.Laws.{IsValid, add-IsValid, remove-IsValid, replace-IsValid}
use new_era.Gobot.Erp.{
  normalize_epc, normal_list, ErpError, FetchResult, SubmitStatus, submitted, not_found,
}
use new_era.Gobot.Service.State.{Service, ServiceConfig, Notice, new, notify, status, set_notifier}
use new_era.Gobot.Service.Queue.{enqueue, enqueue_all, lock_inflight, unlock_inflight}
use new_era.Gobot.Service.Recent.{collect_replay_candidates, gc_recent_seen_locked}
use new_era.Gobot.Service.Ingest.{
  handle_epc, match_epc, note_seen, set_scan_active, switch_scan, add_draft_epcs, count_hit,
  count_miss, IngestResult,
}
use new_era.Gobot.Service.Worker.{
  Answers, settle, give_up, submit_loop, process_submit, worker_round, attempts,
}
use new_era.Gobot.Service.Refresh.{refresh_cache, tell_news, refresh_done}

-- The set `queued` is what the channel holds, no EPC is in the channel twice, and the channel is
-- within its capacity.
pub record QueueIsValid (queue queued : List Text) (capacity : ℕ) : Type 0 where
  pub same_members : (epc : Text) → contains epc queued ≡ contains epc queue
  pub distinct : Distinct queue
  pub bounded : length queue ≤ capacity

pub record Inv (s : Service) : Type 0 where
  pub queue_valid : QueueIsValid s.queue s.queued s.cfg.queue_size
  pub cache_valid : IsValid s.cache

mark_send :
    (epc : Text) (queue queued : List Text) (capacity : ℕ)
    → QueueIsValid queue queued capacity
    → contains epc queued ≡ false
    → length queue + 1 ≤ capacity
    → QueueIsValid (queue ++ (epc ∷ [])) (insert epc queued) capacity
mark_send epc queue queued capacity v new room = record {
  same_members = λ x.
      ground (arith, contains-insert x epc queued, contains-snoc x epc queue, v.same_members x);
  distinct = snoc-Distinct epc queue (sym (v.same_members epc) ∙ new) v.distinct;
  bounded = omega (arith, length-append queue (epc ∷ []));
}

mark_drop :
    (epc : Text) (queue queued : List Text) (capacity : ℕ)
    → QueueIsValid queue queued capacity
    → contains epc queued ≡ false
    → QueueIsValid queue (delete epc (insert epc queued)) capacity
mark_drop epc queue queued capacity v new = record {
  same_members = λ x. ground (
    arith,
    contains-delete x epc (insert epc queued),
    contains-insert x epc queued,
    contains-same x epc queued,
    v.same_members x,
  );
  distinct = v.distinct;
  bounded = v.bounded;
}

pub enqueue-Inv : (epc : Text) (s : Service) → Inv s → Inv (enqueue epc s).0
unfolding enqueue
enqueue-Inv epc s v = elim (Bool-cases (is_empty epc)) [
  | inl e ↦ rw e v
  | inr f ↦ elim (Bool-cases (contains epc s.queued)) [
    | inl old ↦ rw (f, old) v
    | inr new ↦ elim (Bool-cases (contains epc s.inflight)) [
      | inl busy ↦ rw (f, new, busy) v
      | inr idle ↦ elim (Bool-cases (ltb (length s.queue) s.cfg.queue_size)) [
        | inl room ↦
            rw (f, new, idle, room)
              (record {
                queue_valid =
                    mark_send epc s.queue s.queued s.cfg.queue_size v.queue_valid new
                      (ground arith);
                cache_valid = v.cache_valid;
              })
        | inr full ↦
            rw (f, new, idle, full)
              (record {
                queue_valid = mark_drop epc s.queue s.queued s.cfg.queue_size v.queue_valid new;
                cache_valid = v.cache_valid;
              })
      ]
    ]
  ]
]

pub enqueue_all-Inv : (epcs : List Text) (s : Service) → Inv s → Inv (enqueue_all epcs s)
unfolding enqueue_all
enqueue_all-Inv [] s v = v
enqueue_all-Inv (epc ∷ epcs) s v = enqueue_all-Inv epcs (enqueue epc s).0 (enqueue-Inv epc s v)

pub notify-Inv : (n : Notice) (s : Service) → Inv s → Inv (notify n s)
unfolding notify
notify-Inv n s v =
    if_keeps Inv s.has_notifier
      (record { queue_valid = v.queue_valid; cache_valid = v.cache_valid }) v
