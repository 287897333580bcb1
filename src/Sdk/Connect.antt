-- ===== src/Sdk/Connect.antt =====
-- Discover, QuickConnect, Connect, Reconnect, Disconnect and ProbeInfo of sdk/client.go. The scan
-- of the network and the transport are inputs; a duration is in nanoseconds.
pub mod Choice
use new_era.Prelude.{
  ℕ, ◌*◌, Bool, not, ◌&&◌, Option, none, some, List, [], ◌∷◌, Result, ok, err, if◌then◌else◌, ◌==◌,
  length,
}
use new_era.Prelude.Int.{ℤ, pos, ltb_ℤ, leb_ℤ}
use new_era.Prelude.Text.{Text}
use new_era.Reader18.Crc.{Bytes}
use new_era.Reader18.Commands.{get_reader_info_command}
use new_era.Sdk.Client.{Client, Meanwhile, emit_status, stop_inventory}
use new_era.Sdk.Events.{
  SdkError, not_connected, no_candidate, connect_failed, disconnect_failed, connected, connected_to,
  disconnected,
}

pub record Endpoint : Type 0 where
  pub host : Text
  pub port : ℕ

-- Without the banner, the reason and the protocol's name, which are only shown.
pub record Candidate : Type 0 where
  pub host : Text
  pub port : ℕ
  pub score : ℕ
  pub verified : Bool
  pub reader_address : ℕ

pub record ScanOptions : Type 0 where
  pub ports : List ℕ
  pub timeout : ℤ
  pub concurrency : ℤ
  pub host_limit : ℤ

-- `defaults` is discovery.DefaultOptions().
unfoldable pub to_internal_scan_options : ScanOptions → ScanOptions → ScanOptions
to_internal_scan_options defaults opts = record {
  ports = if length opts.ports == 0 then defaults.ports else opts.ports;
  timeout = if leb_ℤ opts.timeout (pos 0) then defaults.timeout else opts.timeout;
  concurrency = if leb_ℤ opts.concurrency (pos 0) then defaults.concurrency else opts.concurrency;
  host_limit = if leb_ℤ opts.host_limit (pos 0) then defaults.host_limit else opts.host_limit;
}

-- The first verified candidate, else the first one, `best`.
unfoldable pub choose : Candidate → List Candidate → Candidate
choose best [] = best
choose best (candidate ∷ candidates) =
    if candidate.verified then candidate else choose best candidates

abbrev pub second : ℕ
second = 1000000000

-- `remaining` is the time until the context's deadline, where it has one.
unfoldable pub connect_timeout : Option ℤ → ℤ
connect_timeout none = pos (3 * second)
connect_timeout (some remaining) =
    if ltb_ℤ (pos 0) remaining && ltb_ℤ remaining (pos (3 * second))
    then remaining
    else pos (3 * second)

abbrev pub timeout_or_default : ℤ → ℤ
timeout_or_default timeout = if leb_ℤ timeout (pos 0) then pos (3 * second) else timeout

-- `transport` says whether the transport connects to an endpoint within a time.
unfoldable pub connect : (Endpoint → ℤ → Bool) → Endpoint → ℤ → Client → Client × Option SdkError
connect transport endpoint timeout c =
    if transport endpoint (timeout_or_default timeout)
    then (emit_status (connected endpoint.host endpoint.port) c, none)
    else (c, some connect_failed)

-- `meanwhile` is what the other goroutines do while StopInventory does not hold the lock.
unfoldable pub reconnect :
    (Endpoint → ℤ → Bool) → Endpoint → ℤ → Meanwhile → Client → Client × Option SdkError
unfolding connect
reconnect transport endpoint timeout meanwhile c =
    connect transport endpoint timeout (stop_inventory meanwhile c)

-- `ends` says whether the transport ends the connection without an error.
unfoldable pub disconnect : Bool → Meanwhile → Client → Client × Option SdkError
disconnect ends meanwhile c =
    let stopped = stop_inventory meanwhile c in
    if ends then (emit_status disconnected stopped, none) else (stopped, some disconnect_failed)

abbrev pub adopt : Candidate → Client → Client
adopt chosen c =
    emit_status (connected_to chosen.host chosen.port)
      (record c { reader_addr = if chosen.verified then chosen.reader_address else c.reader_addr })

abbrev pub endpoint_of : Candidate → Endpoint
endpoint_of chosen = record { host = chosen.host; port = chosen.port }

-- QuickConnect from the result of Reconnect on; a failed attempt returns the candidate too.
unfoldable pub conclude_connect :
    Candidate → Client × Option SdkError → Client × Option Candidate × Option SdkError
conclude_connect chosen (next, some e) = (next, some chosen, some e)
conclude_connect chosen (next, none) = (adopt chosen next, some chosen, none)

-- On what a scan found, and its error where it failed.
unfoldable pub quick_connect :
    (Endpoint → ℤ → Bool)
    → Option ℤ
    → List Candidate
    → Option SdkError
    → Meanwhile
    → Client
    → Client × Option Candidate × Option SdkError
unfolding choose connect_timeout reconnect conclude_connect
quick_connect transport remaining [] (some scan_error) meanwhile c = (c, none, some scan_error)
quick_connect transport remaining [] none meanwhile c = (c, none, some no_candidate)
quick_connect transport remaining (best ∷ others) scan_error meanwhile c =
    let chosen = choose best (best ∷ others) in
    conclude_connect chosen
      (reconnect transport (endpoint_of chosen) (connect_timeout remaining) meanwhile c)

-- What ProbeInfo sends.
unfoldable pub probe_info : Bool → Client → Result SdkError Bytes
probe_info is_connected c =
    if not is_connected then err not_connected else ok (get_reader_info_command c.reader_addr)
