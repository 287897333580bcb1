-- ===== src/Gobot/Service/State.antt =====
-- Service, Stats, New, and the small methods of internal/gobot/service/service.go.
use new_era.Prelude.{
  ℕ, ◌+◌, ◌%◌, ◌^◌, ◌-◌, Bool, true, false, Option, none, some, List, [], ◌∷◌, ◌++◌, if◌then◌else◌,
  ltb, leb, length, take, map,
}
use new_era.Prelude.Int.{ℤ, pos}
use new_era.Prelude.Text.{Text, codes}
use new_era.Gobot.Cache.{Store}
use new_era.Gobot.Cache
use new_era.Gobot.Erp.{ErpError}

-- The fields of config.Config that the service reads. A duration is in nanoseconds.
pub record ServiceConfig : Type 0 where
  pub queue_size : ℕ
  pub submit_retry : ℤ
  pub recent_seen_ttl : ℤ
  pub scan_default_active : Bool

-- A zero time.Time is `none`, and so is an empty error text; an error stands for its text. The counters are uint64.
pub record Stats : Type 0 where
  pub cache_size : ℕ
  pub draft_count : ℤ
  pub last_refresh_at : Option ℕ
  pub last_refresh_ok : Bool
  pub last_error : Option ErpError
  pub scan_active : Bool
  pub scan_since : Option ℕ
  pub seen_total : ℕ
  pub cache_hits : ℕ
  pub cache_misses : ℕ
  pub submitted_ok : ℕ
  pub submit_not_found : ℕ
  pub submit_errors : ℕ
  pub queue_dropped : ℕ
  pub scan_inactive : ℕ

-- The texts sent to the notifier, by what is filled into them.
pub data Notice : Type 0 where
  new_drafts : ℕ → ℕ → List Text × ℕ → Notice
  more_drafts : ℤ → ℕ → Notice
  turbo_ready : ℤ → ℕ → Notice
  webhook_drafts : ℕ → ℕ → List Text × ℕ → Notice
  submit_ok submit_failed : Text → Notice

-- `queue` holds what the channel holds, oldest first; `notices` what the notifier was given.
pub record Service : Type 0 where
  pub cfg : ServiceConfig
  pub cache : Store
  pub queue : List Text
  pub inflight : List Text
  pub queued : List Text
  pub recent_seen : List (Text × ℕ)
  pub draft_count : ℤ
  pub last_refresh : Option ℕ
  pub last_err : Option ErpError
  pub scan_active : Bool
  pub scan_since : Option ℕ
  pub stats : Stats
  pub has_notifier : Bool
  pub notices : List Notice

abbrev pub u64_mod : ℕ
u64_mod = 2 ^ 64

-- `x++` on a uint64.
abbrev pub inc : ℕ → ℕ
inc x = (x + 1) % u64_mod

abbrev pub zero_stats : Bool → Option ℕ → Stats
zero_stats active since = record {
  cache_size = 0;
  draft_count = pos 0;
  last_refresh_at = none;
  last_refresh_ok = false;
  last_error = none;
  scan_active = active;
  scan_since = since;
  seen_total = 0;
  cache_hits = 0;
  cache_misses = 0;
  submitted_ok = 0;
  submit_not_found = 0;
  submit_errors = 0;
  queue_dropped = 0;
  scan_inactive = 0;
}

unfoldable pub new : ServiceConfig → Store → ℕ → Service
new cfg c now =
    let since : Option ℕ = if cfg.scan_default_active then some now else none in
    record {
      cfg = cfg;
      cache = c;
      queue = [];
      inflight = [];
      queued = [];
      recent_seen = [];
      draft_count = pos 0;
      last_refresh = none;
      last_err = none;
      scan_active = cfg.scan_default_active;
      scan_since = since;
      stats = zero_stats cfg.scan_default_active since;
      has_notifier = false;
      notices = [];
    }

unfoldable pub set_notifier : Service → Service
set_notifier s = record s { has_notifier = true }

-- Every text begins with a word, so trimming leaves none empty.
unfoldable pub notify : Notice → Service → Service
notify n s = if s.has_notifier then record s { notices = s.notices ++ (n ∷ []) } else s

-- Status: it also writes the copies into the counters' record.
unfoldable pub status : Service → Service × Stats
status s =
    let stats = record s.stats {
      cache_size = Cache.size s.cache;
      draft_count = s.draft_count;
      scan_active = s.scan_active;
      scan_since = s.scan_since;
    } in
    (record s { stats = stats }, stats)

unfoldable pub trim_epc : Text → Text
trim_epc epc = if leb (length epc) 16 then epc else take 16 epc ++ codes "..."

-- The parts that summarizeEPCs joins by ", ", and the number in its " (+%d)", if there is one.
unfoldable pub summarize_parts : List Text → ℕ → List Text × ℕ
unfolding trim_epc
summarize_parts epcs most =
    let wanted : ℕ = if leb most 0 then 1 else most in
    let shown : ℕ = if ltb (length epcs) wanted then length epcs else wanted in
    (map trim_epc (take shown epcs), length epcs - shown)
