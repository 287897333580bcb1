-- ===== src/Gobot/Servers.antt =====
-- What the two servers of the bot share, internal/gobot/httpapi/server.go and internal/gobot/ipc/
-- server.go: they give requests to the service and to the scanner. What the ERP and the scanner
-- answer and the times are inputs, and so is what the JSON decoder makes of a body.
pub mod Http
pub mod Ipc
pub mod Laws
pub mod Scanner
pub mod Examples
use new_era.Prelude.{ℕ, ◌+◌, Bool, Option, none, some, List, [], ◌∷◌, ◌++◌, Result}
use new_era.Prelude.Text.{Text}
use new_era.Gobot.Erp.{ErpError, FetchResult}
use new_era.Gobot.Service.State.{Service}
use new_era.Gobot.Service.Ingest.{IngestResult, handle_epc, set_scan_active}

-- The context that a call is given ends with the request or with the server.
pub data Lifetime : Type 0 where
  of_request of_server : Lifetime

pub data ScannerCall : Type 0 where
  start : Lifetime → ScannerCall
  stop : ScannerCall

-- `clock` has the time of each call of HandleEPC in a request, `fetched` what FetchDraftEPCs returns
-- in it, and `scanner` what the scanner's Start returns, if there is a scanner.
pub record Inputs : Type 0 where
  pub now : ℕ
  pub clock : ℕ → ℕ
  pub fetched : Result ErpError FetchResult
  pub scanner : Option (Option Text)

-- The reply to a request, and what it did to the service and asked of the scanner.
pub record Outcome (A : Type 0) : Type 0 where
  pub service : Service
  pub scanner_calls : List ScannerCall
  pub reply : A

-- The loop over HandleEPC, from the `i`-th call on.
unfoldable pub handle_all : (ℕ → ℕ) → ℕ → List Text → Service → Service × List IngestResult
unfolding handle_epc
handle_all clock i [] s = (s, [])
handle_all clock i (epc ∷ epcs) s =
    let (next, result) = handle_epc (clock i) epc s in
    let (done, results) = handle_all clock (i + 1) epcs next in (done, result ∷ results)

abbrev pub start_calls : Lifetime → Option (Option Text) → List ScannerCall
start_calls lifetime none = []
start_calls lifetime (some answer) = start lifetime ∷ []

abbrev pub stop_calls : Option (Option Text) → List ScannerCall
stop_calls none = []
stop_calls (some answer) = stop ∷ []

-- The error of the scanner's Start.
abbrev pub start_error : Option (Option Text) → Option Text
start_error none = none
start_error (some answer) = answer
