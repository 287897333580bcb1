-- ===== src/Gobot/Servers/Scanner.antt =====
-- The scanner under the requests of both servers and the rounds of the workers.
use Prim.Native.String.{String}
use new_era.Prelude.{◌≡◌, Bool, true, false, Option, some, List, [], ◌∷◌, ◌++◌}
use new_era.Prelude.Text.{Text, text_eq}
use new_era.Gobot.Service.State.{Service}
use new_era.Gobot.Service.Worker.{Answers, worker_round}
use new_era.Gobot.Servers.{Inputs, Outcome, ScannerCall, start, stop}
use new_era.Gobot.Servers.Http
use new_era.Gobot.Servers.Ipc

-- What the calls leave the scanner asked to do, after it was asked to do `b`.
pub heard : Bool → List ScannerCall → Bool
heard b [] = b
heard b (start lifetime ∷ calls) = heard true calls
heard b (stop ∷ calls) = heard false calls

-- A request finds a scanner.
abbrev pub FindsScanner : Inputs → Type 0
FindsScanner inputs = (answer : Option Text) × (inputs.scanner ≡ some answer)

-- The service takes the scan for what the calls of the outcome asked for.
abbrev Follows : {A : Type 0} → Bool → Outcome A → Type 0
Follows b o = o.service.scan_active ≡ heard b o.scanner_calls

-- A request to one of the servers, or a round of a worker.
pub data Event : Type 0 where
  over_http : Inputs → Http.Request → Event
  over_ipc : Inputs → Ipc.Request → Event
  work : Answers → Event

abbrev pub EventFindsScanner : Event → Type 0
EventFindsScanner (over_http inputs request) = FindsScanner inputs
EventFindsScanner (over_ipc inputs request) = FindsScanner inputs
EventFindsScanner (work answers) = Unit {0}

-- The service after the events, and all calls of the scanner in their order.
unfoldable pub serve : Text → Service → List Event → Service × List ScannerCall
serve secret s [] = (s, [])
serve secret s (over_http inputs request ∷ events) =
    let o = Http.handle secret inputs request s in
    let (done, calls) = serve secret o.service events in (done, o.scanner_calls ++ calls)
serve secret s (over_ipc inputs request ∷ events) =
    let o = Ipc.handle_request inputs request s in
    let (done, calls) = serve secret o.service events in (done, o.scanner_calls ++ calls)
serve secret s (work answers ∷ events) = serve secret (worker_round answers s) events
