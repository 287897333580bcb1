-- ===== src/Gobot/Service/Replay.antt =====
-- Which EPCs are replayed.
use new_era.Prelude.{
  ℕ, ◌≡◌, ap, Bool, true, false, not, ◌&&◌, ◌||◌, List, [], ◌∷◌, if◌then◌else◌, ltb, length, arith,
}
use new_era.Prelude.Int.{ℤ, pos, ◌-ℤ◌, ltb_ℤ}
use new_era.Prelude.Keys.{contains, contains-same}
use new_era.Prelude.Text.{Text, text_eq, text_beq, text_beq_iff}
use new_era.Gobot.Cache
use new_era.Gobot.Cache.{Store, add}
use new_era.Gobot.Service.State.{Service}
use new_era.Gobot.Service.Recent.{gc_recent_seen, focus_set, replay_keys, collect_replay_candidates}

-- The EPC was seen, and not longer ago than the limit.
unfoldable pub seen_within : ℤ → ℕ → Text → List (Text × ℕ) → Bool
seen_within ttl now epc [] = false
seen_within ttl now epc ((key, at) ∷ m) =
    (text_beq epc key && not (ltb_ℤ ttl (pos now -ℤ pos at))) || seen_within ttl now epc m

-- An empty focus stands for all EPCs.
unfoldable pub in_focus : Text → List Text → Bool
in_focus epc focus = if ltb 0 (length focus) then contains epc focus else true

has-same : (a b : Text) (c : Store) → text_beq a b ≡ true → Cache.has a c ≡ Cache.has b c
has-same a b c h = ap (λ t. Cache.has t c) ((text_beq_iff a b).0 h)

contains-replay_keys :
    (epc : Text) (focus : List Text) (c : Store) (ttl : ℤ) (now : ℕ) (m : List (Text × ℕ))
    → contains epc (replay_keys focus c (gc_recent_seen ttl now m))
      ≡ (Cache.has epc c && (in_focus epc focus && seen_within ttl now epc m))
unfolding replay_keys gc_recent_seen seen_within in_focus contains
contains-replay_keys epc focus c ttl now [] = ground arith
contains-replay_keys epc focus c ttl now ((key, at) ∷ m) = ground (
  arith,
  contains-replay_keys epc focus c ttl now m,
  has-same epc key c,
  contains-same epc key focus,
)

-- collectReplayCandidates returns the EPCs that are in the cache, in focus, and were seen within the
-- time limit, and no others; an empty focus, or one of empty texts alone, puts no limit on them.
pub contains-collect_replay_candidates :
    (epc : Text) (now : ℕ) (focus : List Text) (s : Service)
    → contains epc (collect_replay_candidates now focus s).1 ≡ (
        Cache.has epc s.cache
        && (in_focus epc (focus_set focus [])
            && seen_within s.cfg.recent_seen_ttl now epc s.recent_seen))
unfolding collect_replay_candidates
contains-collect_replay_candidates epc now focus s =
    contains-replay_keys epc (focus_set focus []) s.cache s.cfg.recent_seen_ttl now s.recent_seen
