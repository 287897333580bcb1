-- ===== src/Gobot/Servers/Http.antt =====
-- The handlers of internal/gobot/httpapi/server.go. A body is `none` where the decoder fails.
use new_era.Prelude.{
  ℕ, Bool, true, false, not, ◌&&◌, Option, none, some, List, [], ◌∷◌, ◌++◌, if◌then◌else◌,
}
use new_era.Prelude.Keys.{same}
use new_era.Prelude.Text.{Text, text_eq, is_empty, trim_space}
use new_era.Gobot.Erp.{ErpError}
use new_era.Gobot.Service.State.{Service, Stats, status}
use new_era.Gobot.Service.Ingest.{IngestResult, set_scan_active, add_draft_epcs}
use new_era.Gobot.Service.Refresh.{refresh_cache}
use new_era.Gobot.Servers.{
  Inputs, Outcome, of_request, handle_all, start_calls, stop_calls, start_error,
}

pub record EpcPayload : Type 0 where
  pub epc : Text
  pub epcs : List Text

pub record LegacyPayload : Type 0 where
  pub doctype : Text
  pub name : Text
  pub event : Text

-- The routes with what they read; the Boolean is whether the method is POST. A webhook's first text
-- is its X-Webhook-Secret header.
pub data Request : Type 0 where
  health ask_stats : Request
  ingest : Bool → Option EpcPayload → Request
  webhook_draft : Bool → Text → Option EpcPayload → Request
  legacy_erp_webhook : Bool → Option LegacyPayload → Request
  turbo scan_start scan_stop : Bool → Request

pub data Refusal : Type 0 where
  method_not_allowed invalid_json invalid_webhook_secret : Refusal

-- A refusal has the status 405, 400 or 401, a bad gateway has 502, and all else has 200.
pub data Reply : Type 0 where
  refused : Refusal → Reply
  bad_gateway : ErpError → Reply
  healthy : Reply
  counted : Stats → Reply
  ingested : List IngestResult → Stats → Reply
  drafted : ℕ → ℕ → Stats → Reply
  legacy : LegacyPayload → Stats → Reply
  done : Stats → Reply
  started : ℕ → Stats → Reply
  start_failed : Text → ℕ → Stats → Reply

abbrev pub payload_epcs : EpcPayload → List Text
payload_epcs p = if is_empty p.epc then p.epcs else p.epcs ++ (p.epc ∷ [])

abbrev pub refuse : Refusal → Service → Outcome Reply
refuse why s = record { service = s; scanner_calls = []; reply = refused why }

-- A reply with the counters, which the call of Status brings up to date.
abbrev pub with_stats : (Stats → Reply) → Service → Outcome Reply
with_stats reply s =
    let (next, stats) = status s in
    record { service = next; scanner_calls = []; reply = reply stats }

abbrev pub handle_ingest : Inputs → Bool → Option EpcPayload → Service → Outcome Reply
handle_ingest inputs false body s = refuse method_not_allowed s
handle_ingest inputs true none s = refuse invalid_json s
handle_ingest inputs true (some payload) s =
    let (next, results) = handle_all inputs.clock 0 (payload_epcs payload) s in
    with_stats (ingested results) next

abbrev pub draft_body : Inputs → Option EpcPayload → Service → Outcome Reply
draft_body inputs none s = refuse invalid_json s
draft_body inputs (some payload) s =
    let (next, added, replay) = add_draft_epcs inputs.now (payload_epcs payload) s in
    with_stats (drafted added replay) next

-- `secret` is the server's, trimmed.
abbrev pub handle_webhook_draft :
    Text → Inputs → Bool → Text → Option EpcPayload → Service → Outcome Reply
handle_webhook_draft secret inputs false header body s = refuse method_not_allowed s
handle_webhook_draft secret inputs true header body s =
    if not (is_empty secret) && not (same (trim_space header) secret)
    then refuse invalid_webhook_secret s
    else draft_body inputs body s

-- What a handler does after RefreshCache; on an error the reply is a bad gateway.
abbrev pub after_refresh : (Service → Outcome Reply) → Service × Option ErpError → Outcome Reply
after_refresh next (s, some e) = record { service = s; scanner_calls = []; reply = bad_gateway e }
after_refresh next (s, none) = next s

abbrev pub handle_legacy_erp_webhook :
    Inputs → Bool → Option LegacyPayload → Service → Outcome Reply
handle_legacy_erp_webhook inputs false body s = refuse method_not_allowed s
handle_legacy_erp_webhook inputs true none s = refuse invalid_json s
handle_legacy_erp_webhook inputs true (some payload) s =
    after_refresh (with_stats (legacy payload))
      (refresh_cache inputs.now false false inputs.fetched s)

abbrev pub handle_turbo : Inputs → Bool → Service → Outcome Reply
handle_turbo inputs false s = refuse method_not_allowed s
handle_turbo inputs true s =
    after_refresh (with_stats done) (refresh_cache inputs.now false false inputs.fetched s)

abbrev pub scan_reply : Option Text → ℕ → Stats → Reply
scan_reply none replay stats = started replay stats
scan_reply (some error) replay stats = start_failed error replay stats

-- The scanner is given the context of the request.
abbrev pub scan_on : Inputs → Service → Outcome Reply
scan_on inputs s =
    let (active, replay) = set_scan_active inputs.now true s in
    record (with_stats (scan_reply (start_error inputs.scanner) replay) active) {
      scanner_calls = start_calls of_request inputs.scanner;
    }

abbrev pub handle_scan_start : Inputs → Bool → Service → Outcome Reply
handle_scan_start inputs false s = refuse method_not_allowed s
handle_scan_start inputs true s =
    after_refresh (scan_on inputs) (refresh_cache inputs.now false false inputs.fetched s)

abbrev pub handle_scan_stop : Inputs → Bool → Service → Outcome Reply
handle_scan_stop inputs false s = refuse method_not_allowed s
handle_scan_stop inputs true s = record (with_stats done (set_scan_active inputs.now false s).0) {
  scanner_calls = stop_calls inputs.scanner;
}

unfoldable pub handle : Text → Inputs → Request → Service → Outcome Reply
unfolding handle_all add_draft_epcs refresh_cache set_scan_active status
handle secret inputs health s = record { service = s; scanner_calls = []; reply = healthy }
handle secret inputs ask_stats s = with_stats counted s
handle secret inputs (ingest is_post body) s = handle_ingest inputs is_post body s
handle secret inputs (webhook_draft is_post header body) s =
    handle_webhook_draft secret inputs is_post header body s
handle secret inputs (legacy_erp_webhook is_post body) s =
    handle_legacy_erp_webhook inputs is_post body s
handle secret inputs (turbo is_post) s = handle_turbo inputs is_post s
handle secret inputs (scan_start is_post) s = handle_scan_start inputs is_post s
handle secret inputs (scan_stop is_post) s = handle_scan_stop inputs is_post s
