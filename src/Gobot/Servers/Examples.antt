-- ===== src/Gobot/Servers/Examples.antt =====
-- The theorems on the servers at concrete inputs.
use new_era.Prelude.{◌≡◌, refl, true, false, none, some, List, [], ◌∷◌, ok}
use new_era.Prelude.Int.{pos}
use new_era.Prelude.Text.{
  Text, codes, text_beq, is_empty, is_space, trim_space, trim_left, trim_right,
}
use new_era.Gobot.Cache
use new_era.Gobot.Erp.{submitted}
use new_era.Gobot.Service.State.{Service, ServiceConfig, new}
use new_era.Gobot.Servers.{Inputs}
use new_era.Gobot.Servers.Http
use new_era.Gobot.Servers.Ipc
use new_era.Gobot.Servers.Laws.{
  start_scan, http_request, ipc_request, Agrees, http_ipc_agree, refused_does_nothing,
}
use new_era.Gobot.Servers.Scanner.{over_http, over_ipc, work, Event}

abbrev small_config : ServiceConfig
small_config = record {
  queue_size = 4;
  submit_retry = pos 2;
  recent_seen_ttl = pos 600;
  scan_default_active = false;
}

abbrev one_epc : List Text
one_epc = codes "E280" ∷ []

-- The ERP has one draft, and the reader does not start.
abbrev no_reader : Inputs
no_reader = record {
  now = 10;
  clock = λ i. 10;
  fetched = ok (record { epcs = one_epc; draft_count = pos 1 });
  scanner = some (some (codes "no reader found"));
}

fresh : Service
fresh = new small_config (Cache.replace one_epc) 0

abbrev ingest_line : Ipc.Request
ingest_line = record { kind = codes " EPC "; epc = codes "e2 80"; epcs = [] }

abbrev some_events : List Event
some_events =
    over_http no_reader (Http.scan_start true)
    ∷ over_ipc no_reader ingest_line
    ∷ work (λ attempt. ok submitted)
    ∷ over_http no_reader (Http.webhook_draft true (codes "guess") none)
    ∷ []

http_ipc_agree_example :
    Agrees
      (Http.handle [] no_reader (http_request start_scan) fresh)
      (Ipc.handle_request no_reader (ipc_request start_scan) fresh)
http_ipc_agree_example = http_ipc_agree start_scan no_reader fresh

refused_does_nothing_example :
    ((Http.handle
        (codes "key")
        no_reader
        (Http.webhook_draft true (codes "guess") none)
        fresh).service
      ≡ fresh)
    × ((Http.handle
          (codes "key")
          no_reader
          (Http.webhook_draft true (codes "guess") none)
          fresh).scanner_calls
        ≡ [])
unfolding Http.handle text_beq is_empty is_space trim_space trim_left trim_right
refused_does_nothing_example =
    refused_does_nothing (codes "key") no_reader (Http.webhook_draft true (codes "guess") none)
      fresh Http.invalid_webhook_secret refl
