-- ===== src/Gobot/Servers/Laws.antt =====
-- The two servers offer the same operations of the service, and a refused request does nothing.
use Prim.Native.String.{String}
use new_era.Prelude.{
  ℕ, ◌≡◌, refl, true, false, not, ◌&&◌, Option, none, some, List, [], map, if_keeps,
}
use new_era.Prelude.Keys.{same}
use new_era.Prelude.Text.{
  Text, text_eq, text_beq, codes, is_empty, is_space, trim_space, trim_left, trim_right, to_lower,
}
use new_era.Gobot.Erp.{ErpError}
use new_era.Gobot.Service.State.{Service, Stats, status}
use new_era.Gobot.Service.Ingest.{IngestResult, set_scan_active}
use new_era.Gobot.Service.Refresh.{refresh_cache}
use new_era.Gobot.Servers.{
  Inputs, Outcome, ScannerCall, start, stop, of_request, of_server, start_calls, stop_calls,
  start_error,
}
use new_era.Gobot.Servers.Http
use new_era.Gobot.Servers.Ipc

-- The operations that both servers offer.
pub data Operation : Type 0 where
  start_scan stop_scan refresh_now : Operation
  ingest_epcs add_drafts : List Text → Operation

unfoldable pub http_request : Operation → Http.Request
http_request start_scan = Http.scan_start true
http_request stop_scan = Http.scan_stop true
http_request refresh_now = Http.turbo true
http_request (ingest_epcs epcs) = Http.ingest true (some (record { epc = []; epcs = epcs }))
http_request (add_drafts epcs) =
    Http.webhook_draft true [] (some (record { epc = []; epcs = epcs }))

abbrev typed : Text → List Text → Ipc.Request
typed kind epcs = record { kind = kind; epc = []; epcs = epcs }

unfoldable pub ipc_request : Operation → Ipc.Request
ipc_request start_scan = typed (codes "scan_start") []
ipc_request stop_scan = typed (codes "scan_stop") []
ipc_request refresh_now = typed (codes "turbo") []
ipc_request (ingest_epcs epcs) = typed (codes "epcs") epcs
ipc_request (add_drafts epcs) = typed (codes "draft_epcs") epcs

-- What both kinds of reply tell besides the counters.
pub record Summary : Type 0 where
  pub error : Option ErpError
  pub warning : Option Text
  pub replay : ℕ
  pub added : ℕ
  pub results : List IngestResult

abbrev nothing : Summary
nothing = record { error = none; warning = none; replay = 0; added = 0; results = [] }

abbrev pub http_summary : Http.Reply → Summary
http_summary (Http.bad_gateway e) = record nothing { error = some e }
http_summary (Http.ingested results stats) = record nothing { results = results }
http_summary (Http.drafted added replay stats) = record nothing { added = added; replay = replay }
http_summary (Http.started replay stats) = record nothing { replay = replay }
http_summary (Http.start_failed warning replay stats) = record nothing {
  warning = some warning;
  replay = replay;
}
http_summary _ = nothing

abbrev erp_error : Option Ipc.Failure → Option ErpError
erp_error (some (Ipc.from_erp e)) = some e
erp_error _ = none

abbrev pub ipc_summary : Ipc.Response → Summary
ipc_summary r = record {
  error = erp_error r.error;
  warning = r.warning;
  replay = r.replay;
  added = r.added;
  results = r.results;
}

-- The call as the socket server makes it: a start is given the context of the server.
abbrev pub as_server : ScannerCall → ScannerCall
as_server (start lifetime) = start of_server
as_server stop = stop

-- Two outcomes tell the same, a call of Status after them leaves the same service, and they call the
-- scanner alike, but for the context that a start is given.
abbrev pub Agrees : Outcome Http.Reply → Outcome Ipc.Response → Type 0
Agrees a b =
    ((status a.service).0 ≡ (status b.service).0)
    × (http_summary a.reply ≡ ipc_summary b.reply)
    × (map as_server a.scanner_calls ≡ b.scanner_calls)

refreshed-Agrees :
    (action : String) (on_http : Service → Outcome Http.Reply)
    (on_ipc : Service → Outcome Ipc.Response) (r : Service × Option ErpError)
    → ((s : Service) → Agrees (on_http s) (on_ipc s))
    → Agrees (Http.after_refresh on_http r) (Ipc.after_refresh action on_ipc r)
unfolding status
refreshed-Agrees action on_http on_ipc (s, some e) h = (refl, refl, refl)
refreshed-Agrees action on_http on_ipc (s, none) h = h s

start_summary :
    (o : Option Text) (n : ℕ) (stats : Stats)
    → http_summary (Http.scan_reply o n stats)
      ≡ ipc_summary (record (Ipc.plain "scan_start" stats) { replay = n; warning = o })
start_summary none n stats = refl
start_summary (some error) n stats = refl

start_alike :
    (scanner : Option (Option Text))
    → map as_server (start_calls of_request scanner) ≡ start_calls of_server scanner
start_alike none = refl
start_alike (some answer) = refl

stop_alike :
    (scanner : Option (Option Text)) → map as_server (stop_calls scanner) ≡ stop_calls scanner
stop_alike none = refl
stop_alike (some answer) = refl

scan_on-Agrees :
    (inputs : Inputs) (s : Service) → Agrees (Http.scan_on inputs s) (Ipc.scan_on inputs s)
unfolding status
scan_on-Agrees inputs s =
    let active = set_scan_active inputs.now true s in
    (
      refl,
      start_summary (start_error inputs.scanner) active.1 (status active.0).1,
      start_alike inputs.scanner,
    )

-- Without a webhook secret the HTTP server and the socket server do the same on each operation: the
-- same service, once its counters are brought up to date, the same error, warning and results, and the
-- same calls of the scanner, but that a start has the request's context on the one and the server's on
-- the other.
pub http_ipc_agree :
    (operation : Operation) (inputs : Inputs) (s : Service)
    → Agrees
        (Http.handle [] inputs (http_request operation) s)
        (Ipc.handle_request inputs (ipc_request operation) s)
unfolding Http.handle Ipc.handle_request http_request ipc_request status text_beq is_empty is_space
    trim_space trim_left trim_right to_lower
http_ipc_agree start_scan inputs s =
    refreshed-Agrees "scan_start" (Http.scan_on inputs) (Ipc.scan_on inputs)
      (refresh_cache inputs.now false false inputs.fetched s) (scan_on-Agrees inputs)
http_ipc_agree stop_scan inputs s = (refl, refl, stop_alike inputs.scanner)
http_ipc_agree refresh_now inputs s =
    refreshed-Agrees "turbo" (Http.with_stats Http.done) (Ipc.answer (Ipc.plain "turbo"))
      (refresh_cache inputs.now false false inputs.fetched s) (λ t. (refl, refl, refl))
http_ipc_agree (ingest_epcs epcs) inputs s = (refl, refl, refl)
http_ipc_agree (add_drafts epcs) inputs s = (refl, refl, refl)

-- A reply after a refresh is no refusal, if none of the replies to its success is one.
after_refresh_accepts :
    (Q : Type 0) (why : Http.Refusal) (next : Service → Outcome Http.Reply)
    (r : Service × Option ErpError)
    → ((s : Service) → (next s).reply ≡ Http.refused why → Q)
    → (Http.after_refresh next r).reply ≡ Http.refused why
    → Q
after_refresh_accepts Q why next (s, some e) k h = absurd (cc)
after_refresh_accepts Q why next (s, none) k h = k s h

scan_reply_accepts :
    (Q : Type 0) (why : Http.Refusal) (o : Option Text) (n : ℕ) (stats : Stats)
    → Http.scan_reply o n stats ≡ Http.refused why
    → Q
scan_reply_accepts Q why none n stats h = absurd (cc)
scan_reply_accepts Q why (some error) n stats h = absurd (cc)

abbrev IsUntouched : Service → Outcome Http.Reply → Type 0
IsUntouched s o = (o.service ≡ s) × (o.scanner_calls ≡ [])

-- An outcome that did nothing if it is a refusal.
abbrev IsHarmless : Service → Http.Refusal → Outcome Http.Reply → Type 0
IsHarmless s why o = o.reply ≡ Http.refused why → IsUntouched s o

draft_body-IsHarmless :
    (inputs : Inputs) (body : Option Http.EpcPayload) (s : Service) (why : Http.Refusal)
    → IsHarmless s why (Http.draft_body inputs body s)
draft_body-IsHarmless inputs none s why h = (refl, refl)
draft_body-IsHarmless inputs (some payload) s why h = absurd (cc)

-- A request that the HTTP server refuses leaves the service as it was, and calls no scanner.
pub refused_does_nothing :
    (secret : Text) (inputs : Inputs) (request : Http.Request) (s : Service) (why : Http.Refusal)
    → (Http.handle secret inputs request s).reply ≡ Http.refused why
    → ((Http.handle secret inputs request s).service ≡ s)
      × ((Http.handle secret inputs request s).scanner_calls ≡ [])
unfolding Http.handle
refused_does_nothing secret inputs Http.health s why h = absurd (cc)
refused_does_nothing secret inputs Http.ask_stats s why h = absurd (cc)
refused_does_nothing secret inputs (Http.ingest false body) s why h = (refl, refl)
refused_does_nothing secret inputs (Http.ingest true none) s why h = (refl, refl)
refused_does_nothing secret inputs (Http.ingest true (some p)) s why h = absurd (cc)
refused_does_nothing secret inputs (Http.webhook_draft false header body) s why h = (refl, refl)
refused_does_nothing secret inputs (Http.webhook_draft true header body) s why h =
    if_keeps (IsHarmless s why) (not (is_empty secret) && not (same (trim_space header) secret))
      (λ k. (refl, refl)) (draft_body-IsHarmless inputs body s why) h
refused_does_nothing secret inputs (Http.legacy_erp_webhook false body) s why h = (refl, refl)
refused_does_nothing secret inputs (Http.legacy_erp_webhook true none) s why h = (refl, refl)
refused_does_nothing secret inputs (Http.legacy_erp_webhook true (some p)) s why h =
    after_refresh_accepts _ why (Http.with_stats (Http.legacy p))
      (refresh_cache inputs.now false false inputs.fetched s) (λ t k. absurd (cc)) h
refused_does_nothing secret inputs (Http.turbo false) s why h = (refl, refl)
refused_does_nothing secret inputs (Http.turbo true) s why h =
    after_refresh_accepts _ why (Http.with_stats Http.done)
      (refresh_cache inputs.now false false inputs.fetched s) (λ t k. absurd (cc)) h
refused_does_nothing secret inputs (Http.scan_start false) s why h = (refl, refl)
refused_does_nothing secret inputs (Http.scan_start true) s why h =
    after_refresh_accepts _ why (Http.scan_on inputs)
      (refresh_cache inputs.now false false inputs.fetched s)
      (λ t k. scan_reply_accepts _ why (start_error inputs.scanner) _ _ k) h
refused_does_nothing secret inputs (Http.scan_stop false) s why h = (refl, refl)
refused_does_nothing secret inputs (Http.scan_stop true) s why h = absurd (cc)
