-- ===== src/Gobot/Service/Queue.antt =====
-- enqueue, lockInflight and unlockInflight of internal/gobot/service/service.go.
use new_era.Prelude.{Bool, true, false, List, [], ◌∷◌, ◌++◌, if◌then◌else◌, ltb, length}
use new_era.Prelude.Keys.{contains, insert, delete}
use new_era.Prelude.Text.{Text, text_eq, is_empty}
use new_era.Gobot.Service.State.{Service, inc}

-- The two branches of the `select` on the channel, after the EPC was marked as queued.
abbrev pub send_or_drop : Text → Service → Service × Bool
send_or_drop epc s =
    if ltb (length s.queue) s.cfg.queue_size
    then (record s { queue = s.queue ++ (epc ∷ []) }, true)
    else (
      record s {
        queued = delete epc s.queued;
        stats = record s.stats { queue_dropped = inc s.stats.queue_dropped };
      },
      false,
    )

unfoldable pub enqueue : Text → Service → Service × Bool
enqueue epc s =
    if is_empty epc
    then (s, false)
    else if contains epc s.queued
    then (s, false)
    else if contains epc s.inflight
    then (s, false)
    else send_or_drop epc (record s { queued = insert epc s.queued })

-- `for _, epc := range replay { _ = s.enqueue(epc) }`
unfoldable pub enqueue_all : List Text → Service → Service
enqueue_all [] s = s
enqueue_all (epc ∷ epcs) s = enqueue_all epcs (enqueue epc s).0

unfoldable pub lock_inflight : Text → Service → Service × Bool
lock_inflight epc s =
    if contains epc s.inflight
    then (s, false)
    else (record s { inflight = insert epc s.inflight }, true)

unfoldable pub unlock_inflight : Text → Service → Service
unlock_inflight epc s = record s { inflight = delete epc s.inflight }
