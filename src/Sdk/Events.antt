-- ===== src/Sdk/Events.antt =====
-- The events and errors of sdk/types.go and sdk/client.go, and what becomes of a command.
use new_era.Prelude.{ℕ, Bool}
use new_era.Prelude.Text.{Text}
use new_era.Reader18.Tags.{TagError}

-- Without `When`; `source` tells the two inventory commands apart.
pub data Source : Type 0 where
  inventory_g2 inventory_single : Source

pub record TagEvent : Type 0 where
  pub source : Source
  pub epc : Text
  pub antenna : ℕ
  pub rssi : ℕ
  pub is_new : Bool
  pub event_rounds : ℕ
  pub event_unique : ℕ

-- The messages of the status events, by what is filled into them.
pub data Status : Type 0 where
  config_updated inventory_started inventory_stopped info_received disconnected : Status
  connected connected_to : Text → ℕ → Status
  count_only target_switched : ℕ → Status

pub data SdkError : Type 0 where
  not_connected already_running cancelled send_failed no_candidate connect_failed
        disconnect_failed :
      SdkError
  packets_unavailable errors_unavailable packets_closed errors_closed reader_failed : SdkError
  tag_error : TagError → SdkError

-- What becomes of one command: the context is done before it, the transport refuses it, or it is sent.
pub data Attempt : Type 0 where
  context_done refused sent : Attempt
