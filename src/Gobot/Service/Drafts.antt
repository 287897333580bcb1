-- ===== src/Gobot/Service/Drafts.antt =====
-- AddDraftEPCs of internal/gobot/service/service.go on a webhook that brings no EPC.
use mathlib.Core.Path.{subst}
use new_era.Prelude.{
  ℕ, ◌+◌, ◌≤◌, ◌<◌, ◌≡◌, refl, sym, ap, ◌∙◌, inl, inr, true, false, ◌||◌, Bool-cases, List, [], ◌∷◌,
  length, length-append, arith,
}
use new_era.Prelude.Keys.{same, contains, contains-insert, same_refl}
use new_era.Prelude.Text.{Text, text_eq, is_empty}
use new_era.Gobot.Cache
use new_era.Gobot.Cache.{Store, add}
use new_era.Gobot.Erp.{normal_list}
use new_era.Gobot.Service.State.{Service}
use new_era.Gobot.Service.Queue.{enqueue, enqueue_all}
use new_era.Gobot.Service.Recent.{focus_set, collect_replay_candidates}
use new_era.Gobot.Service.Ingest.{add_draft_epcs}
use new_era.Gobot.Service.Replay.{seen_within, in_focus, contains-collect_replay_candidates}

-- The EPC waits in the queue, or a worker is submitting it.
abbrev pub IsUnderWay : Text → Service → Type 0
IsUnderWay epc s = (contains epc s.queued || contains epc s.inflight) ≡ true

-- What enqueue does to a queue with room.
record Sent (epc x : Text) (s t : Service) : Type 0 where
  pub grows : length t.queue ≤ length s.queue + 1
  pub same_size : t.cfg.queue_size ≡ s.cfg.queue_size
  pub same_cache : t.cache ≡ s.cache
  pub keeps : IsUnderWay x s → IsUnderWay x t
  pub sends : is_empty epc ≡ false → IsUnderWay epc t

enqueue-Sent :
    (epc x : Text) (s : Service)
    → length s.queue < s.cfg.queue_size
    → Sent epc x s (enqueue epc s).0
unfolding enqueue
enqueue-Sent epc x s room = record {
  grows = ground (arith, length-append s.queue (epc ∷ []));
  same_size = ground arith;
  same_cache = ground arith;
  keeps = λ h. ground (arith, contains-insert x epc s.queued);
  sends = λ h. ground (arith, contains-insert epc epc s.queued, same_refl epc);
}

-- The room for all of a list.
abbrev HasRoom : List Text → Service → Type 0
HasRoom epcs s = length s.queue + length epcs ≤ s.cfg.queue_size

enqueue_all_keeps :
    (x : Text) (epcs : List Text) (s : Service)
    → HasRoom epcs s
    → IsUnderWay x s
    → IsUnderWay x (enqueue_all epcs s)
unfolding enqueue_all
enqueue_all_keeps x [] s room h = h
enqueue_all_keeps x (epc ∷ epcs) s room h =
    let sent = enqueue-Sent epc x s (omega arith) in
    enqueue_all_keeps x epcs (enqueue epc s).0 (omega (arith, sent.grows, sent.same_size))
      (sent.keeps h)

enqueue_all_sends :
    (x : Text) (epcs : List Text) (s : Service)
    → HasRoom epcs s
    → is_empty x ≡ false
    → contains x epcs ≡ true
    → IsUnderWay x (enqueue_all epcs s)
unfolding enqueue_all contains
enqueue_all_sends x [] s room full h = absurd (cc)
enqueue_all_sends x (epc ∷ epcs) s room full h =
    let sent = enqueue-Sent x x s (omega arith) in
    let other = enqueue-Sent epc x s (omega arith) in
    elim (Bool-cases (same x epc)) [
      | inl here ↦
          let name : x ≡ epc = (text_eq.beq_iff x epc).0 here in
          subst (λ (y : Text). IsUnderWay x (enqueue_all epcs (enqueue y s).0)) name
            (enqueue_all_keeps x epcs (enqueue x s).0 (omega (arith, sent.grows, sent.same_size))
              (sent.sends full))
      | inr away ↦
          enqueue_all_sends x epcs (enqueue epc s).0 (omega (arith, other.grows, other.same_size))
            full (ground (arith, away))
    ]

enqueue-cache : (epc : Text) (s : Service) → (enqueue epc s).0.cache ≡ s.cache
unfolding enqueue
enqueue-cache epc s = ground arith

enqueue_all-cache : (epcs : List Text) (s : Service) → (enqueue_all epcs s).cache ≡ s.cache
unfolding enqueue_all
enqueue_all-cache [] s = refl
enqueue_all-cache (epc ∷ epcs) s = enqueue_all-cache epcs (enqueue epc s).0 ∙ enqueue-cache epc s

-- AddDraftEPCs with no EPC, on a service that scans.
without_epcs :
    (now : ℕ) (epcs : List Text) (s : Service)
    → normal_list [] epcs ≡ []
    → s.scan_active ≡ true
    → ((add_draft_epcs now epcs s).0
        ≡ enqueue_all (collect_replay_candidates now [] s).1 (collect_replay_candidates now [] s).0)
      × ((add_draft_epcs now epcs s).1 ≡ 0)
unfolding add_draft_epcs add collect_replay_candidates
without_epcs now epcs s none_left on = rw none_left (ground (arith, on))

in_focus_all : (x : Text) → in_focus x (focus_set [] []) ≡ true
unfolding in_focus focus_set
in_focus_all x = refl

cached_full : (x : Text) (c : Store) → Cache.has x c ≡ true → is_empty x ≡ false
unfolding Cache.has
cached_full x c h = ground arith

-- If AddDraftEPCs is given no text with an EPC in it while the service scans, it adds nothing to the
-- cache, and yet puts under way each EPC that is in the cache and was seen within the time limit, if
-- the queue has room for all of these.
pub add_draft_epcs_replays_all :
    (x : Text) (now : ℕ) (epcs : List Text) (s : Service)
    → normal_list [] epcs ≡ []
    → s.scan_active ≡ true
    → Cache.has x s.cache ≡ true
    → seen_within s.cfg.recent_seen_ttl now x s.recent_seen ≡ true
    → length s.queue + length (collect_replay_candidates now [] s).1 ≤ s.cfg.queue_size
    → ((add_draft_epcs now epcs s).1 ≡ 0)
      × ((add_draft_epcs now epcs s).0.cache ≡ s.cache)
      × IsUnderWay x (add_draft_epcs now epcs s).0
unfolding collect_replay_candidates
add_draft_epcs_replays_all x now epcs s none_left on cached seen room =
    let (done, added) = without_epcs now epcs s none_left on in
    let (kept, replay) = collect_replay_candidates now [] s in
    let listed : contains x replay ≡ true =
      ground (arith, contains-collect_replay_candidates x now [] s, in_focus_all x, cached, seen) in
    (
      added,
      ap (λ (t : Service). t.cache) done ∙ enqueue_all-cache replay kept,
      subst (IsUnderWay x) (sym done)
          (enqueue_all_sends x replay kept room (cached_full x s.cache cached) listed),
    )
