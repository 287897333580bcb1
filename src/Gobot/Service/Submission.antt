-- ===== src/Gobot/Service/Submission.antt =====
-- What processSubmit does to the cache, the counters and the in-flight set, by the ERP's answers.
use new_era.Prelude.{
  ℕ, zero, suc, ◌+◌, ◌≡◌, refl, inl, inr, Bool, true, false, not, ◌&&◌, Option, none, some, ok, err,
  if◌then◌else◌, Result-cases, arith,
}
use new_era.Prelude.Keys.{same, contains, insert}
use new_era.Prelude.Text.{Text, text_eq, is_empty}
use new_era.Gobot.Cache
use new_era.Gobot.Cache.{Store}
use new_era.Gobot.Cache.Laws.{has-remove}
use new_era.Gobot.Erp.{ErpError, SubmitStatus, submitted, not_found}
use new_era.Gobot.Service.State.{Service, notify}
use new_era.Gobot.Service.Queue.{lock_inflight, unlock_inflight}
use new_era.Gobot.Service.Worker.{Answers, settle, give_up, submit_loop, process_submit, attempts}

-- The first status that the ERP gives within so many attempts.
unfoldable pub first_status : ℕ → ℕ → Answers → Option SubmitStatus
first_status zero attempt answers = none
first_status (suc left) attempt answers = elim (answers attempt) [
  | ok st ↦ some st
  | err e ↦ first_status left (attempt + 1) answers
]

-- The end of processSubmit: by that status, or given up.
unfoldable pub finish : Option SubmitStatus → Text → Service → Service
finish none epc s = give_up epc s
finish (some st) epc s = settle st epc s

loop-finish :
    (left attempt : ℕ) (answers : Answers) (last : Option ErpError) (epc : Text) (s : Service)
    → (submit_loop left attempt answers last epc s).0
      ≡ finish (first_status left attempt answers) epc s
unfolding submit_loop first_status finish
loop-finish zero attempt answers last epc s = refl
loop-finish (suc left) attempt answers last epc s = elim (Result-cases (answers attempt)) [
  | inl (st, e) ↦ rw (e, submit_loop, first_status) refl
  | inr (x, e) ↦
      rw (e, submit_loop, first_status) (loop-finish left (attempt + 1) answers (some x) epc s)
]

-- The test of processSubmit before it talks to the ERP.
unfoldable pub may_submit : Text → Service → Bool
may_submit epc s = not (is_empty epc) && (Cache.has epc s.cache && not (contains epc s.inflight))

abbrev pub locked : Text → Service → Service
locked epc s = record s { inflight = insert epc s.inflight }

-- processSubmit does nothing unless the EPC is not empty, has a draft in the cache and is not being
-- submitted by another worker; else it locks the EPC, ends by the first status that the ERP gives
-- within the allowed attempts, or gives up, and unlocks the EPC.
pub process_submit_lem :
    (answers : Answers) (epc : Text) (s : Service)
    → (process_submit answers epc s).0 ≡ (
        if may_submit epc s
        then unlock_inflight epc (finish (first_status (attempts s) 0 answers) epc (locked epc s))
        else s)
unfolding process_submit may_submit lock_inflight
process_submit_lem answers epc s =
    ground (arith, loop-finish (attempts s) 0 answers none epc (locked epc s))

unfoldable pub is_settled : Option SubmitStatus → Bool
is_settled none = false
is_settled (some st) = true

has-finish :
    (x : Text) (o : Option SubmitStatus) (epc : Text) (s : Service)
    → Cache.has x (finish o epc s).cache ≡ (Cache.has x s.cache && not (is_settled o && same x epc))
unfolding finish settle give_up notify is_settled
has-finish x none epc s = ground arith
has-finish x (some submitted) epc s = ground (arith, has-remove x epc s.cache)
has-finish x (some not_found) epc s = ground (arith, has-remove x epc s.cache)

-- processSubmit takes from the cache the submitted EPC, and no other, and that only if it may submit
-- it and the ERP answered with a status; after errors alone the EPC stays.
pub has-process_submit :
    (x : Text) (answers : Answers) (epc : Text) (s : Service)
    → Cache.has x (process_submit answers epc s).0.cache ≡ (
        Cache.has x s.cache
        && not
            (may_submit epc s && (is_settled (first_status (attempts s) 0 answers) && same x epc)))
unfolding unlock_inflight
has-process_submit x answers epc s = ground (
  arith,
  process_submit_lem answers epc s,
  has-finish x (first_status (attempts s) 0 answers) epc (locked epc s),
)
