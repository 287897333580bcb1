-- ===== src/Gobot/Service/Invariant/Worker.antt =====
-- The invariant across a round of a worker.
use new_era.Prelude.{
  ℕ, zero, suc, ◌+◌, inl, inr, Bool, not, Option, none, some, List, [], ◌∷◌, if_keeps, Result-cases,
  arith,
}
use new_era.Prelude.Keys.{contains, delete, contains-delete, contains-same}
use new_era.Prelude.Text.{Text, text_eq, is_empty}
use new_era.Gobot.Cache
use new_era.Gobot.Cache.{Store}
use new_era.Gobot.Cache.Laws.{remove-IsValid}
use new_era.Gobot.Erp.{ErpError, SubmitStatus, submitted, not_found}
use new_era.Gobot.Service.State.{Service}
use new_era.Gobot.Service.Queue.{lock_inflight, unlock_inflight}
use new_era.Gobot.Service.Worker.{
  Answers, settle, give_up, submit_loop, process_submit, receive, worker_round, attempts,
}
use new_era.Gobot.Service.Invariant.{QueueIsValid, Inv, notify-Inv}

settle-Inv : (st : SubmitStatus) (epc : Text) (s : Service) → Inv s → Inv (settle st epc s)
unfolding settle
settle-Inv submitted epc s v =
    notify-Inv _ _ (record {
      queue_valid = v.queue_valid;
      cache_valid = remove-IsValid epc s.cache v.cache_valid;
    })
settle-Inv not_found epc s v = record {
  queue_valid = v.queue_valid;
  cache_valid = remove-IsValid epc s.cache v.cache_valid;
}

give_up-Inv : (epc : Text) (s : Service) → Inv s → Inv (give_up epc s)
unfolding give_up
give_up-Inv epc s v =
    notify-Inv _ _ (record { queue_valid = v.queue_valid; cache_valid = v.cache_valid })

lock_inflight-Inv : (epc : Text) (s : Service) → Inv s → Inv (lock_inflight epc s).0
unfolding lock_inflight
lock_inflight-Inv epc s v =
    if_keeps (λ (r : Service × Bool). Inv r.0) (contains epc s.inflight) v
      (record { queue_valid = v.queue_valid; cache_valid = v.cache_valid })

unlock_inflight-Inv : (epc : Text) (s : Service) → Inv s → Inv (unlock_inflight epc s)
unfolding unlock_inflight
unlock_inflight-Inv epc s v = record { queue_valid = v.queue_valid; cache_valid = v.cache_valid }

submit_loop-Inv :
    (left attempt : ℕ) (answers : Answers) (last : Option ErpError) (epc : Text) (s : Service)
    → Inv s
    → Inv (submit_loop left attempt answers last epc s).0
unfolding submit_loop
submit_loop-Inv zero attempt answers last epc s v = give_up-Inv epc s v
submit_loop-Inv (suc left) attempt answers last epc s v = elim (Result-cases (answers attempt)) [
  | inl (st, e) ↦ rw (e, submit_loop) (settle-Inv st epc s v)
  | inr (x, e) ↦ rw (e, submit_loop) (submit_loop-Inv left (attempt + 1) answers (some x) epc s v)
]

process_submit-Inv :
    (answers : Answers) (epc : Text) (s : Service) → Inv s → Inv (process_submit answers epc s).0
unfolding process_submit
process_submit-Inv answers epc s v =
    let w = lock_inflight-Inv epc s v in
    let d = submit_loop-Inv (attempts s) 0 answers none epc (lock_inflight epc s).0 w in
    if_keeps (λ (r : Service × Option ErpError). Inv r.0) (is_empty epc) v
      (if_keeps (λ (r : Service × Option ErpError). Inv r.0) (not (Cache.has epc s.cache)) v
        (if_keeps (λ (r : Service × Option ErpError). Inv r.0) (not (lock_inflight epc s).1) v
          (unlock_inflight-Inv epc _ d)))

take_first :
    (epc : Text) (rest queued : List Text) (capacity : ℕ)
    → QueueIsValid (epc ∷ rest) queued capacity
    → QueueIsValid rest (delete epc queued) capacity
unfolding contains
take_first epc rest queued capacity v = record {
  same_members = λ x. ground (
    arith,
    contains-delete x epc queued,
    v.same_members x,
    contains-same x epc rest,
    v.distinct.0,
  );
  distinct = v.distinct.1;
  bounded = omega (arith, v.bounded);
}

receive-Inv :
    (answers : Answers) (queue : List Text) (s : Service)
    → QueueIsValid queue s.queued s.cfg.queue_size
    → Inv s
    → Inv (receive answers queue s)
unfolding receive
receive-Inv answers [] s q v = v
receive-Inv answers (epc ∷ rest) s q v =
    process_submit-Inv answers epc (record s { queue = rest; queued = delete epc s.queued })
      (record {
        queue_valid = take_first epc rest s.queued s.cfg.queue_size q;
        cache_valid = v.cache_valid;
      })

pub worker_round-Inv : (answers : Answers) (s : Service) → Inv s → Inv (worker_round answers s)
unfolding worker_round
worker_round-Inv answers s v = receive-Inv answers s.queue s v.queue_valid v
