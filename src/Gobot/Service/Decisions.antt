-- ===== src/Gobot/Service/Decisions.antt =====
-- What HandleEPC answers and sends to the workers.
use new_era.Prelude.{
  ℕ, ◌≡◌, Bool, true, not, List, [], ◌∷◌, ◌++◌, if◌then◌else◌, ltb, length, arith,
}
use new_era.Prelude.Keys.{contains}
use new_era.Prelude.Text.{Text, text_eq, is_empty}
use new_era.Gobot.Cache
use new_era.Gobot.Erp.{normalize_epc}
use new_era.Gobot.Service.State.{Service}
use new_era.Gobot.Service.Queue.{enqueue}
use new_era.Gobot.Service.Ingest.{
  handle_epc, Action, invalid, inactive, miss, queued_or_dropped, queued,
}

-- The EPC waits for a worker already, or one is submitting it, or the channel is full.
pub is_blocked : Text → Service → Bool
is_blocked epc s =
    if contains epc s.queued
    then true
    else if contains epc s.inflight
    then true
    else not (ltb (length s.queue) s.cfg.queue_size)

pub decide_action : Text → Service → Action
decide_action epc s =
    if is_empty epc
    then invalid
    else if not s.scan_active
    then inactive
    else if not (Cache.has epc s.cache)
    then miss
    else if is_blocked epc s
    then queued_or_dropped
    else queued

pub queue_after : Action → Text → List Text → List Text
queue_after queued epc queue = queue ++ (epc ∷ [])
queue_after invalid epc queue = queue
queue_after inactive epc queue = queue
queue_after miss epc queue = queue
queue_after queued_or_dropped epc queue = queue

-- HandleEPC's action is "invalid" for a text with no EPC in it, "scan_inactive" while scanning is
-- off, "miss" without a draft in the cache, "queued_or_dropped" if the EPC waits or is being
-- submitted already or the channel is full, and "queued" else; with "queued", and with no other
-- action, the normal form of the EPC joins the end of the queue, and the result carries it.
handle_epc_lem :
    (now : ℕ) (raw : Text) (s : Service)
    → ((handle_epc now raw s).1.action ≡ decide_action (normalize_epc raw) s)
      × ((handle_epc now raw s).1.epc ≡ normalize_epc raw)
      × ((handle_epc now raw s).0.queue
          ≡ queue_after (decide_action (normalize_epc raw) s) (normalize_epc raw) s.queue)
unfolding handle_epc enqueue decide_action is_blocked queue_after is_empty
handle_epc_lem now raw s = (ground arith, ground arith, ground arith)
