-- ===== src/Gobot/Erp/Examples.antt =====
-- Concrete EPCs and answers of the ERP.
use new_era.Prelude.{◌≡◌, ◌&&◌, not, refl, true, false, List, [], ◌∷◌, All}
use new_era.Prelude.Int.{pos}
use new_era.Prelude.Keys.{contains, Distinct}
use new_era.Prelude.Text.{Text, text_eq, codes, is_empty}
use new_era.Gobot.Erp.{
  normalize_epc, normal_list, Answer, replied, SubmitMessage, submitted, submit_by_epc,
  FastDraftMessage, FetchResult,
}
use new_era.Gobot.Erp.Normal.{has_form, IsNormal, normal_list_lem}
use new_era.Gobot.Erp.Answers.{Accepted, status_word, submit_by_epc_accepts}

abbrev spaced : Text
spaced = codes " e2-80 xz"

normal_form : normalize_epc spaced ≡ codes "E280"
unfolding normalize_epc
normal_form = refl

abbrev raw_epcs : List Text
raw_epcs = spaced ∷ codes "E2 80" ∷ codes "--" ∷ []

normal_list_lem_example :
    ((epc : Text)
      → contains epc (normal_list [] raw_epcs) ≡ (not (is_empty epc) && has_form epc raw_epcs))
    × Distinct (normal_list [] raw_epcs)
    × All IsNormal (normal_list [] raw_epcs)
normal_list_lem_example = normal_list_lem raw_epcs

abbrev accepted : Answer SubmitMessage
accepted = replied 200 (record { is_ok = true; status = codes "submitted"; error = [] })

submit_by_epc_accepts_example :
    (is_empty (normalize_epc spaced) ≡ false) × Accepted accepted (status_word submitted)
unfolding submit_by_epc
submit_by_epc_accepts_example = submit_by_epc_accepts spaced accepted submitted refl

abbrev drafts_answer : Answer FastDraftMessage
drafts_answer = replied 200 (record {
  is_ok = true;
  error = [];
  epc_only = true;
  epcs = raw_epcs;
  count_drafts = pos 0;
  draft_count_alt = pos 3;
})

abbrev drafts_result : FetchResult
drafts_result = record { epcs = codes "E280" ∷ []; draft_count = pos 3 }
