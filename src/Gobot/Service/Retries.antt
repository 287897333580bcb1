-- ===== src/Gobot/Service/Retries.antt =====
-- The attempts of processSubmit in internal/gobot/service/service.go: which of the ERP's answers it
-- goes by, how it counts the outcome, and that it gives the EPC back.
use mathlib.Core.Path.{subst}
use new_era.Prelude.{
  ℕ, zero, suc, ◌+◌, ◌<◌, ◌≡◌, refl, sym, ap, ◌∙◌, List, Bool, true, false, not, Option, none, some,
  ok, err, if◌then◌else◌, arith,
}
use new_era.Prelude.Int.{ℤ, pos, ◌≤ℤ◌}
use new_era.Prelude.Keys.{
  same_refl, contains, insert, delete, contains-insert, contains-delete, contains-same,
}
use new_era.Prelude.Text.{Text, text_eq, is_empty}
use new_era.Gobot.Cache
use new_era.Gobot.Erp.{ErpError, SubmitStatus, submitted, not_found}
use new_era.Gobot.Service.State.{Service, Stats, inc, notify}
use new_era.Gobot.Service.Queue.{unlock_inflight}
use new_era.Gobot.Service.Worker.{Answers, settle, give_up, process_submit, attempts}
use new_era.Gobot.Service.Submission.{
  first_status, finish, may_submit, locked, is_settled, process_submit_lem, has-process_submit,
}

abbrev pub Fails : Answers → ℕ → Type 0
Fails answers i = (e : ErpError) × (answers i ≡ err e)

-- What the ERP says within the attempts 0 to `retry`: the first status, after errors alone, or only
-- errors.
abbrev pub Verdict : Answers → ℤ → Option SubmitStatus → Type 0
Verdict answers retry none = (i : ℕ) → pos i ≤ℤ retry → Fails answers i
Verdict answers retry (some st) =
    (i : ℕ) × (pos i ≤ℤ retry) × (answers i ≡ ok st) × ((j : ℕ) → j < i → Fails answers j)

-- The counters after a submission: one of the three is one higher, as a uint64.
abbrev pub Counts : Option SubmitStatus → Stats → Stats → Type 0
Counts none a b =
    (b.submit_errors ≡ inc a.submit_errors)
    × (b.submitted_ok ≡ a.submitted_ok)
    × (b.submit_not_found ≡ a.submit_not_found)
Counts (some submitted) a b =
    (b.submit_errors ≡ a.submit_errors)
    × (b.submitted_ok ≡ inc a.submitted_ok)
    × (b.submit_not_found ≡ a.submit_not_found)
Counts (some not_found) a b =
    (b.submit_errors ≡ a.submit_errors)
    × (b.submitted_ok ≡ a.submitted_ok)
    × (b.submit_not_found ≡ inc a.submit_not_found)

first_status_skips :
    (left attempt : ℕ) (answers : Answers) (e : ErpError)
    → answers attempt ≡ err e
    → first_status (suc left) attempt answers ≡ first_status left (attempt + 1) answers
unfolding first_status
first_status_skips left attempt answers e h = rw (h, first_status) refl

first_status_takes :
    (left attempt : ℕ) (answers : Answers) (st : SubmitStatus)
    → answers attempt ≡ ok st
    → first_status (suc left) attempt answers ≡ some st
unfolding first_status
first_status_takes left attempt answers st h = rw (h, first_status) refl

-- With `i` more attempts that fail, and then one that succeeds.
first_status-some :
    (i left attempt : ℕ) (answers : Answers) (st : SubmitStatus)
    → i < left
    → answers (attempt + i) ≡ ok st
    → ((j : ℕ) → j < i → Fails answers (attempt + j))
    → first_status left attempt answers ≡ some st
first_status-some i zero attempt answers st h k fails = absurd (omega arith)
first_status-some zero (suc left) attempt answers st h k fails =
    let here : attempt + 0 ≡ attempt = omega arith in
    first_status_takes left attempt answers st (rw here at k)
first_status-some (suc i) (suc left) attempt answers st h k fails =
    let (e, failed) = fails 0 (omega arith) in
    let here : attempt + 0 ≡ attempt = omega arith in
    let there : attempt + suc i ≡ attempt + 1 + i = omega arith in
    first_status_skips left attempt answers e (rw here at failed)
    ∙ first_status-some i left (attempt + 1) answers st (omega arith) (rw there at k) (λ j lt.
      let next : attempt + suc j ≡ attempt + 1 + j = omega arith in
      rw next at (fails (suc j) (omega arith)))

first_status-none :
    (left attempt : ℕ) (answers : Answers)
    → ((j : ℕ) → j < left → Fails answers (attempt + j))
    → first_status left attempt answers ≡ none
unfolding first_status
first_status-none zero attempt answers fails = refl
first_status-none (suc left) attempt answers fails =
    let (e, failed) = fails 0 (omega arith) in
    let here : attempt + 0 ≡ attempt = omega arith in
    first_status_skips left attempt answers e (rw here at failed)
    ∙ first_status-none left (attempt + 1) answers (λ j lt.
      let next : attempt + suc j ≡ attempt + 1 + j = omega arith in
      rw next at (fails (suc j) (omega arith)))

-- The loop of processSubmit goes by the verdict.
first_status-Verdict :
    (answers : Answers) (s : Service) (o : Option SubmitStatus)
    → Verdict answers s.cfg.submit_retry o
    → first_status (attempts s) 0 answers ≡ o
first_status-Verdict answers s none v =
    first_status-none (attempts s) 0 answers
      (λ j lt. let here : 0 + j ≡ j = omega arith in rw here (v j (ground arith)))
first_status-Verdict answers s (some st) (i, within, k, fails) =
    first_status-some i (attempts s) 0 answers st (ground arith)
      (let here : 0 + i ≡ i = omega arith in rw here k)
      (λ j lt. let here : 0 + j ≡ j = omega arith in rw here (fails j lt))

finish-Counts :
    (o : Option SubmitStatus) (epc : Text) (s : Service)
    → Counts o s.stats (unlock_inflight epc (finish o epc (locked epc s))).stats
unfolding finish settle give_up notify unlock_inflight
finish-Counts none epc s = ground arith
finish-Counts (some submitted) epc s = ground arith
finish-Counts (some not_found) epc s = ground arith

inflight-finish :
    (o : Option SubmitStatus) (epc : Text) (s : Service) → (finish o epc s).inflight ≡ s.inflight
unfolding finish settle give_up notify
inflight-finish none epc s = ground arith
inflight-finish (some submitted) epc s = ground arith
inflight-finish (some not_found) epc s = ground arith

inflight_back :
    (x epc : Text) (l : List Text)
    → contains epc l ≡ false
    → contains x (delete epc (insert epc l)) ≡ contains x l
inflight_back x epc l free =
    ground
      (arith, contains-delete x epc (insert epc l), contains-insert x epc l, contains-same x epc l)

-- If the EPC is not empty, has a draft in the cache and is not being submitted by another worker, then
-- processSubmit goes by the ERP's first status within the attempts 0 to the configured number of
-- retries, or by errors alone: it counts that outcome once and no other, leaves the in-flight set
-- with the members it had, and keeps the EPC in the cache exactly after errors alone.
pub process_submit_outcome :
    (answers : Answers) (epc : Text) (s : Service) (o : Option SubmitStatus)
    → is_empty epc ≡ false
    → Cache.has epc s.cache ≡ true
    → contains epc s.inflight ≡ false
    → Verdict answers s.cfg.submit_retry o
    → Counts o s.stats (process_submit answers epc s).0.stats
      × ((x : Text) → contains x (process_submit answers epc s).0.inflight ≡ contains x s.inflight)
      × (Cache.has epc (process_submit answers epc s).0.cache ≡ not (is_settled o))
unfolding may_submit is_settled
process_submit_outcome answers epc s o full cached free v =
    let verdict = first_status-Verdict answers s o v in
    let may : may_submit epc s ≡ true = ground (arith, full, cached, free) in
    let done : (process_submit answers epc s).0
        ≡ unlock_inflight epc (finish o epc (locked epc s)) =
      process_submit_lem answers epc s
      ∙ ap
          (λ (b : Bool).
            if b
            then unlock_inflight epc
                (finish (first_status (attempts s) 0 answers) epc (locked epc s))
            else s)
          may
      ∙ ap (λ (r : Option SubmitStatus). unlock_inflight epc (finish r epc (locked epc s)))
          verdict in
    (
      subst (λ (t : Service). Counts o s.stats t.stats) (sym done) (finish-Counts o epc s),
      λ x. ap (λ (t : Service). contains x t.inflight) done ∙ unlocked x,
      has-process_submit epc answers epc s
          ∙ ground (arith, full, cached, free, may, ap is_settled verdict, same_refl epc),
    )
  where
    unlocked :
        (x : Text)
        → contains x (unlock_inflight epc (finish o epc (locked epc s))).inflight
          ≡ contains x s.inflight
    unlocked x =
        unfold unlock_inflight in
        ap (λ (l : List Text). contains x (delete epc l)) (inflight-finish o epc (locked epc s))
        ∙ inflight_back x epc s.inflight free
