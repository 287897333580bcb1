-- ===== src/Gobot/Servers/Ipc.antt =====
-- handleRequest of internal/gobot/ipc/server.go.
use Prim.Native.String.{String}
use new_era.Prelude.{ℕ, true, false, Option, none, some, List, [], ◌∷◌, if◌then◌else◌}
use new_era.Prelude.Keys.{same}
use new_era.Prelude.Text.{Text, text_eq, codes, trim_space, to_lower}
use new_era.Gobot.Erp.{ErpError}
use new_era.Gobot.Service.State.{Service, Stats, status}
use new_era.Gobot.Service.Ingest.{IngestResult, set_scan_active, add_draft_epcs}
use new_era.Gobot.Service.Refresh.{refresh_cache}
use new_era.Gobot.Servers.{
  Inputs, Outcome, of_server, handle_all, start_calls, stop_calls, start_error,
}

-- The source of an EPC is not used by the service.
pub record Request : Type 0 where
  pub kind : Text
  pub epc : Text
  pub epcs : List Text

pub data Failure : Type 0 where
  from_erp : ErpError → Failure
  unsupported_type : Text → Failure

-- OK is true where there is no error.
pub record Response : Type 0 where
  pub action : String
  pub error : Option Failure
  pub warning : Option Text
  pub replay : ℕ
  pub added : ℕ
  pub results : List IngestResult
  pub stats : Stats

abbrev pub plain : String → Stats → Response
plain action stats = record {
  action = action;
  error = none;
  warning = none;
  replay = 0;
  added = 0;
  results = [];
  stats = stats;
}

abbrev pub answer : (Stats → Response) → Service → Outcome Response
answer reply s =
    let (next, stats) = status s in
    record { service = next; scanner_calls = []; reply = reply stats }

abbrev pub failed : String → ErpError → Stats → Response
failed action e stats = record (plain action stats) { error = some (from_erp e) }

abbrev pub drafts_reply : String → ℕ → ℕ → Stats → Response
drafts_reply action added replay stats = record (plain action stats) {
  added = added;
  replay = replay;
}

abbrev pub after_refresh :
    String → (Service → Outcome Response) → Service × Option ErpError → Outcome Response
after_refresh action next (s, some e) = answer (failed action e) s
after_refresh action next (s, none) = next s

-- The scanner is given the context of the server.
abbrev pub scan_on : Inputs → Service → Outcome Response
scan_on inputs s =
    let (active, replay) = set_scan_active inputs.now true s in
    record (answer
      (λ stats. record (plain "scan_start" stats) {
        replay = replay;
        warning = start_error inputs.scanner;
      })
      active) { scanner_calls = start_calls of_server inputs.scanner }

abbrev pub scan_off : Inputs → Service → Outcome Response
scan_off inputs s = record (answer (plain "scan_stop") (set_scan_active inputs.now false s).0) {
  scanner_calls = stop_calls inputs.scanner;
}

abbrev pub ingest : String → Inputs → List Text → Service → Outcome Response
ingest action inputs epcs s =
    let (next, results) = handle_all inputs.clock 0 epcs s in
    answer (λ stats. record (plain action stats) { results = results }) next

abbrev pub draft : String → Inputs → List Text → Service → Outcome Response
draft action inputs epcs s =
    let (next, added, replay) = add_draft_epcs inputs.now epcs s in
    answer (drafts_reply action added replay) next

abbrev pub unsupported : Text → Service → Outcome Response
unsupported kind s =
    answer (λ stats. record (plain "" stats) { error = some (unsupported_type kind) }) s

unfoldable pub handle_request : Inputs → Request → Service → Outcome Response
unfolding handle_all add_draft_epcs refresh_cache set_scan_active status
handle_request inputs req s =
    let kind = to_lower (trim_space req.kind) in
    let refreshed = refresh_cache inputs.now false false inputs.fetched s in
    if same kind (codes "status")
    then answer (plain "status") s
    else if same kind (codes "scan_start")
    then after_refresh "scan_start" (scan_on inputs) refreshed
    else if same kind (codes "scan_stop")
    then scan_off inputs s
    else if same kind (codes "turbo")
    then after_refresh "turbo" (answer (plain "turbo")) refreshed
    else if same kind (codes "epc")
    then ingest "epc" inputs (req.epc ∷ []) s
    else if same kind (codes "epcs")
    then ingest "epcs" inputs req.epcs s
    else if same kind (codes "draft_epc")
    then draft "draft_epc" inputs (req.epc ∷ []) s
    else if same kind (codes "draft_epcs")
    then draft "draft_epcs" inputs req.epcs s
    else unsupported req.kind s
