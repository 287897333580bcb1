-- ===== src/Gobot/Erp.antt =====
-- internal/gobot/erp/client.go: EPCs in normal form, and what the client makes of the ERP's answers.
-- The HTTP exchange and the JSON decoder are not modelled: an answer is what they deliver.
pub mod Normal
pub mod Answers
pub mod Examples
use new_era.Prelude.{
  ℕ, Bool, true, false, not, ◌&&◌, ◌||◌, List, [], ◌∷◌, Result, ok, err, ltb, leb, ◌==◌,
  if◌then◌else◌,
}
use new_era.Prelude.Int.{ℤ, pos, ltb_ℤ}
use new_era.Prelude.Keys.{contains, insert, unseen}
use new_era.Prelude.Text.{Text, text_eq, text_beq, is_empty, codes, trim_space, to_upper}

unfoldable pub is_hex_byte : ℕ → Bool
is_hex_byte ch = (leb b'0' ch && leb ch b'9') || (leb b'A' ch && leb ch b'F')

-- The loop that writes the bytes it keeps.
unfoldable pub hex_only : Text → Text
unfolding is_hex_byte
hex_only [] = []
hex_only (ch ∷ raw) = let rest = hex_only raw in if is_hex_byte ch then ch ∷ rest else rest

-- An empty text has no bytes to keep, so the early return is a case of the loop; it is kept.
unfoldable pub normalize_epc : Text → Text
unfolding hex_only to_upper trim_space is_empty
normalize_epc raw =
    let text = to_upper (trim_space raw) in if is_empty text then [] else hex_only text

-- The loop that FetchDraftEPCs and normalizeEPCList share: each normal form that is not empty, once.
unfoldable pub normal_list : List Text → List Text → List Text
unfolding normalize_epc contains insert
normal_list seen [] = []
normal_list seen (raw ∷ raws) =
    let epc = normalize_epc raw in
    elim (is_empty epc || contains epc seen) [
      | true ↦ normal_list seen raws
      | false ↦ epc ∷ normal_list (insert epc seen) raws
    ]

-- fastDraftEnvelope.
pub record FastDraftMessage : Type 0 where
  pub is_ok : Bool
  pub error : Text
  pub epc_only : Bool
  pub epcs : List Text
  pub count_drafts : ℤ
  pub draft_count_alt : ℤ

pub record FetchResult : Type 0 where
  pub epcs : List Text
  pub draft_count : ℤ

pub data ErpError : Type 0 where
  transport epc_is_empty not_epc_only unexpected_payload : ErpError
  http_status : ℕ → ErpError
  erp_error : Text → ErpError

-- An answer: a failure on the way, or the HTTP status and the decoded body, if it could be decoded.
pub data Answer (M : Type 0) : Type 0 where
  failed : Answer M
  replied : ℕ → M → Answer M

unfoldable pub fetch_draft_epcs : Answer FastDraftMessage → Result ErpError FetchResult
unfolding normal_list
fetch_draft_epcs failed = err transport
fetch_draft_epcs (replied status msg) =
    if ltb status 200 || ltb 299 status
    then err (http_status status)
    else if not msg.is_ok
    then err (erp_error msg.error)
    else if not msg.epc_only
    then err not_epc_only
    else ok (record {
      epcs = normal_list [] msg.epcs;
      draft_count =
          if is_zero msg.count_drafts && ltb_ℤ (pos 0) msg.draft_count_alt
          then msg.draft_count_alt
          else msg.count_drafts;
    })
  where
    is_zero : ℤ → Bool
    is_zero n = not (ltb_ℤ n (pos 0)) && not (ltb_ℤ (pos 0) n)

pub data SubmitStatus : Type 0 where
  submitted not_found : SubmitStatus

-- submitEnvelope.
pub record SubmitMessage : Type 0 where
  pub is_ok : Bool
  pub status : Text
  pub error : Text

unfoldable pub submit_by_epc : Text → Answer SubmitMessage → Result ErpError SubmitStatus
unfolding normalize_epc text_beq
submit_by_epc epc answer = if is_empty (normalize_epc epc) then err epc_is_empty else read answer
  where
    read : Answer SubmitMessage → Result ErpError SubmitStatus
    read failed = err transport
    read (replied status msg) =
        if ltb status 200 || ltb 299 status
        then err (http_status status)
        else if msg.is_ok && text_beq msg.status (codes "submitted")
        then ok submitted
        else if msg.is_ok && text_beq msg.status (codes "not_found")
        then ok not_found
        else if not (is_empty msg.error)
        then err (erp_error msg.error)
        else err unexpected_payload
