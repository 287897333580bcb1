-- ===== src/Gobot/Reader.antt =====
-- The manager of internal/gobot/reader/manager.go: the critical sections of its methods and of the
-- goroutine that Start begins. A run is the number of a call of Start that began one; it stands for
-- its context and its done channel. What the SDK client answers is an input, an error stands for its
-- text.
pub mod Lifecycle
pub mod Examples
use new_era.Prelude.{
  ℕ, ◌+◌, ◌%◌, ◌^◌, Bool, true, false, not, Option, none, some, List, [], ◌∷◌, if◌then◌else◌,
}
use new_era.Prelude.Keys.{nat_eq, contains, delete}
use new_era.Prelude.Text.{Text, codes, is_empty, trim_space}

-- A zero time and an empty error are `none`.
pub record Status : Type 0 where
  pub running : Bool
  pub connected : Bool
  pub endpoint : Text
  pub last_error : Option Text
  pub unique_seen : ℕ
  pub last_tag_at : Option ℕ
  pub last_tag_epc : Text
  pub last_start_at : Option ℕ
  pub restart_count : ℕ

-- `active` has the runs whose loop has not come to finishStopped, `closing` those that have, before
-- their channel is closed, `closed` those whose channel is closed, and `cancelled` those whose
-- context is. `cancelling` has the runs whose cancel function a Stop has taken from the manager, and
-- not called yet. `epcs` has what onEPC was given, the last one first.
pub record Manager : Type 0 where
  pub running : Bool
  pub cancel : Option ℕ
  pub done : Option ℕ
  pub status : Status
  pub runs : ℕ
  pub active : List ℕ
  pub closing : List ℕ
  pub closed : List ℕ
  pub cancelling : List ℕ
  pub cancelled : List ℕ
  pub epcs : List Text

abbrev pub new : Manager
new = record {
  running = false;
  cancel = none;
  done = none;
  status = record {
    running = false;
    connected = false;
    endpoint = [];
    last_error = none;
    unique_seen = 0;
    last_tag_at = none;
    last_tag_epc = [];
    last_start_at = none;
    restart_count = 0;
  };
  runs = 0;
  active = [];
  closing = [];
  closed = [];
  cancelling = [];
  cancelled = [];
  epcs = [];
}

unfoldable pub start : ℕ → Manager → Manager
start now m = if m.running then m else record m {
  running = true;
  cancel = some m.runs;
  done = some m.runs;
  runs = m.runs + 1;
  active = m.runs ∷ m.active;
  status = record m.status { running = true; last_error = none; last_start_at = some now };
}

abbrev pub take_cancel : Option ℕ → List ℕ → List ℕ
take_cancel none cancelling = cancelling
take_cancel (some r) cancelling = r ∷ cancelling

-- The critical section of Stop, and the run whose channel it later waits for.
unfoldable pub stop_begin : Manager → Manager × Option ℕ
stop_begin m = (record m { cancel = none; cancelling = take_cancel m.cancel m.cancelling }, m.done)

-- cancel(), which Stop calls after it has given the lock back.
unfoldable pub stop_cancel : ℕ → Manager → Manager
stop_cancel r m = record m { cancelling = delete r m.cancelling; cancelled = r ∷ m.cancelled }

unfoldable pub finish_stopped : ℕ → Manager → Manager
finish_stopped r m = record m {
  running = false;
  cancel = none;
  done = none;
  active = delete r m.active;
  closing = r ∷ m.closing;
  status = record m.status { running = false; connected = false };
}

unfoldable pub close_done : ℕ → Manager → Manager
close_done r m = record m { closing = delete r m.closing; closed = r ∷ m.closed }

unfoldable pub set_error : Text → Manager → Manager
set_error error m = record m { status = record m.status { last_error = some error } }

-- The end of connectAndStart.
unfoldable pub set_connected : Text → Manager → Manager
set_connected endpoint m = record m {
  status = record m.status { connected = true; endpoint = endpoint; last_error = none };
}

-- After consumeTags, and before the next round.
unfoldable pub set_disconnected : Manager → Manager
set_disconnected m = record m { status = record m.status { connected = false; endpoint = [] } }

unfoldable pub count_restart : Manager → Manager
count_restart m = record m {
  status = record m.status { restart_count = (m.status.restart_count + 1) % 2 ^ 64 };
}

-- What the select of consumeTags receives.
pub data Received : Type 0 where
  context_done tags_closed errors_closed : Received
  tag : ℕ → Bool → Text → Received
  failed : Option Text → Received

abbrev pub note_tag : ℕ → Text → Manager → Manager
note_tag now epc m = record m {
  status = record m.status {
    unique_seen = (m.status.unique_seen + 1) % 2 ^ 64;
    last_tag_at = some now;
    last_tag_epc = epc;
  };
  epcs = epc ∷ m.epcs;
}

-- One round of consumeTags: `some b` where it returns b.
unfoldable pub consume_round : Received → Manager → Manager × Option Bool
unfolding set_error
consume_round context_done m = (m, some false)
consume_round tags_closed m = (set_error (codes "tag channel closed") m, some true)
consume_round errors_closed m = (set_error (codes "error channel closed") m, some true)
consume_round (tag now is_new raw) m =
    let epc = trim_space raw in
    if not is_new then (m, none) else if is_empty epc then (m, none) else (note_tag now epc m, none)
consume_round (failed none) m = (m, none)
consume_round (failed (some error)) m = (set_error error m, some true)
