-- ===== src/Gobot/Erp/Answers.antt =====
-- What the ERP client accepts as an answer.
use new_era.Prelude.{◌≤◌, ◌≡◌, sym, true, false, [], ok, All, arith}
use mathlib.Core.Path.{subst}
use new_era.Prelude.Keys.{Distinct}
use new_era.Prelude.Text.{Text, text_eq, codes, text_beq_iff, is_empty}
use new_era.Gobot.Erp.{
  normalize_epc, Answer, failed, replied, FastDraftMessage, FetchResult, fetch_draft_epcs,
  SubmitMessage, SubmitStatus, submitted, not_found, submit_by_epc, normal_list,
}
use new_era.Gobot.Erp.Normal.{IsNormal, normal_list_lem}

-- An answer with a status from 200 to 299 whose body is marked as good.
abbrev pub Accepted : Answer SubmitMessage → Text → Type 0
Accepted failed s = ⊥
Accepted (replied status msg) s =
    (200 ≤ status) × (status ≤ 299) × (msg.is_ok ≡ true) × (msg.status ≡ s)

abbrev pub status_word : SubmitStatus → Text
status_word submitted = codes "submitted"
status_word not_found = codes "not_found"

-- SubmitByEPC reports a status only for an EPC with a normal form that is not empty, and only if the
-- ERP answered with an HTTP status from 200 to 299, marked the body as good and named that status.
pub submit_by_epc_accepts :
    (epc : Text) (answer : Answer SubmitMessage) (s : SubmitStatus)
    → submit_by_epc epc answer ≡ ok s
    → (is_empty (normalize_epc epc) ≡ false) × Accepted answer (status_word s)
unfolding submit_by_epc
submit_by_epc_accepts epc failed s e = absurd (ground arith)
submit_by_epc_accepts epc (replied status msg) submitted e =
    let w = text_beq_iff msg.status (codes "submitted") in
    (
      ground (arith, w),
      (ground (arith, w), ground (arith, w), ground (arith, w), ground (arith, w)),
    )
submit_by_epc_accepts epc (replied status msg) not_found e =
    let w = text_beq_iff msg.status (codes "not_found") in
    (
      ground (arith, w),
      (ground (arith, w), ground (arith, w), ground (arith, w), ground (arith, w)),
    )

-- What FetchDraftEPCs returns is without duplicates, and in normal form.
fetch_draft_epcs-IsNormal :
    (answer : Answer FastDraftMessage) (r : FetchResult)
    → fetch_draft_epcs answer ≡ ok r
    → Distinct r.epcs × All IsNormal r.epcs
unfolding fetch_draft_epcs
fetch_draft_epcs-IsNormal failed r e = cc e
fetch_draft_epcs-IsNormal (replied status msg) r e =
    let from : r.epcs ≡ normal_list [] msg.epcs = ground arith in
    let (_, distinct, normal) = normal_list_lem msg.epcs in
    (subst (λ l. Distinct l) (sym from) distinct, subst (All IsNormal) (sym from) normal)
