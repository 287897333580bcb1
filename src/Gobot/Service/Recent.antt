-- ===== src/Gobot/Service/Recent.antt =====
-- recentSeen, gcRecentSeenLocked, removeSeen, collectReplayCandidates and diffNewEPCs of
-- internal/gobot/service/service.go. Go meets the keys of a map in an order that is not specified;
-- here it is the order of the list.
use new_era.Prelude.{ℕ, not, ◌&&◌, List, [], ◌∷◌, if◌then◌else◌, ltb, length}
use new_era.Prelude.Int.{ℤ, pos, ◌-ℤ◌, ltb_ℤ}
use new_era.Prelude.Keys.{contains, insert}
use new_era.Prelude.Text.{Text, text_eq, text_beq, is_empty}
use new_era.Gobot.Cache
use new_era.Gobot.Cache.{Store}
use new_era.Gobot.Service.State.{Service}

unfoldable pub forget : Text → List (Text × ℕ) → List (Text × ℕ)
forget epc [] = []
forget epc ((key, at) ∷ m) =
    let rest = forget epc m in if text_beq epc key then rest else (key, at) ∷ rest

-- s.recentSeen[epc] = now
unfoldable pub remember : Text → ℕ → List (Text × ℕ) → List (Text × ℕ)
unfolding forget
remember epc now m = (epc, now) ∷ forget epc m

unfoldable pub gc_recent_seen : ℤ → ℕ → List (Text × ℕ) → List (Text × ℕ)
gc_recent_seen ttl now [] = []
gc_recent_seen ttl now ((key, at) ∷ m) =
    let rest = gc_recent_seen ttl now m in
    if ltb_ℤ ttl (pos now -ℤ pos at) then rest else (key, at) ∷ rest

unfoldable pub gc_recent_seen_locked : ℕ → Service → Service
unfolding gc_recent_seen
gc_recent_seen_locked now s = record s {
  recent_seen = gc_recent_seen s.cfg.recent_seen_ttl now s.recent_seen;
}

unfoldable pub remove_seen : Text → Service → Service
unfolding forget
remove_seen epc s = record s { recent_seen = forget epc s.recent_seen }

-- The set of the EPCs in focus that are not empty.
unfoldable pub focus_set : List Text → List Text → List Text
focus_set [] set = set
focus_set (epc ∷ focus) set = focus_set focus (if is_empty epc then set else insert epc set)

unfoldable pub replay_keys : List Text → Store → List (Text × ℕ) → List Text
replay_keys focus c [] = []
replay_keys focus c ((epc, at) ∷ m) =
    let rest = replay_keys focus c m in
    if ltb 0 (length focus) && not (contains epc focus)
    then rest
    else if Cache.has epc c
    then epc ∷ rest
    else rest

unfoldable pub collect_replay_candidates : ℕ → List Text → Service → Service × List Text
unfolding gc_recent_seen_locked focus_set replay_keys
collect_replay_candidates now focus s =
    let kept = gc_recent_seen_locked now s in
    (kept, replay_keys (focus_set focus []) kept.cache kept.recent_seen)

unfoldable pub diff_new_epcs : List Text → Service → List Text
diff_new_epcs [] s = []
diff_new_epcs (epc ∷ epcs) s =
    let rest = diff_new_epcs epcs s in
    if is_empty epc then rest else if Cache.has epc s.cache then rest else epc ∷ rest
