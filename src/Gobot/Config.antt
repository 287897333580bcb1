-- ===== src/Gobot/Config.antt =====
-- Load and its helpers in internal/gobot/config/config.go. The environment is a function, and
-- strconv.Atoi is the parameter `atoi`. A duration is in nanoseconds and wraps at 64 bits.
pub mod Limits
pub mod Dotenv
pub mod Examples
use new_era.Prelude.{
  ℕ, ◌+◌, ◌-◌, ◌*◌, ◌%◌, ◌^◌, Bool, true, false, not, ◌&&◌, ◌||◌, Option, none, some, List, [], ◌∷◌,
  Result, ok, err, if◌then◌else◌, ltb, ◌==◌,
}
use new_era.Prelude.Int.{ℤ, pos, negsuc, ltb_ℤ, scale}
use new_era.Prelude.Keys.{same}
use new_era.Prelude.Text.{Text, codes, text_eq, is_empty, trim_space, to_lower}

pub record Config : Type 0 where
  pub http_enabled : Bool
  pub bot_token : Text
  pub erp_url : Text
  pub erp_api_key : Text
  pub erp_api_secret : Text
  pub http_addr : Text
  pub ipc_enabled : Bool
  pub ipc_socket : Text
  pub webhook_secret : Text
  pub request_timeout : ℤ
  pub refresh_interval : ℤ
  pub submit_retry : ℤ
  pub submit_retry_delay : ℤ
  pub worker_count : ℤ
  pub queue_size : ℤ
  pub recent_seen_ttl : ℤ
  pub poll_timeout : ℤ
  pub scan_backend : Text
  pub scan_default_active : Bool
  pub auto_scan : Bool
  pub reader_connect_timeout : ℤ
  pub reader_retry_delay : ℤ
  pub reader_host : Text
  pub reader_port : ℤ

pub data ConfigError : Type 0 where
  token_required erp_required : ConfigError

abbrev pub millisecond : ℕ
millisecond = 1000000

abbrev pub second : ℕ
second = 1000000000

-- A number reduced to 64 bits with a sign.
unfoldable pub wrap_int64 : ℤ → ℤ
wrap_int64 z =
    let low : ℕ = elim z [ pos n ↦ n % 2 ^ 64 | negsuc n ↦ 2 ^ 64 - 1 - n % 2 ^ 64 ] in
    if ltb low (2 ^ 63) then pos low else negsuc (2 ^ 64 - 1 - low)

-- strings.TrimRight(s, "/")
unfoldable pub trim_slashes : Text → Text
trim_slashes [] = []
trim_slashes (c ∷ s) =
    let rest = trim_slashes s in if c == 47 && is_empty rest then [] else c ∷ rest

unfoldable pub env_or : (Text → Text) → Text → Text → Text
env_or env key fallback = let val = trim_space (env key) in if is_empty val then fallback else val

unfoldable pub env_int : (Text → Option ℤ) → (Text → Text) → Text → ℤ → ℤ
env_int atoi env key fallback =
    let raw = trim_space (env key) in
    if is_empty raw then fallback else elim (atoi raw) [ none ↦ fallback | some n ↦ n ]

unfoldable pub env_bool : (Text → Text) → Text → Bool → Bool
env_bool env key fallback =
    let raw = to_lower (trim_space (env key)) in
    if same raw (codes "1")
      || same raw (codes "true")
      || same raw (codes "yes")
      || same raw (codes "on")
    then true
    else if same raw (codes "0")
        || same raw (codes "false")
        || same raw (codes "no")
        || same raw (codes "off")
    then false
    else fallback

abbrev pub env_duration_sec : (Text → Option ℤ) → (Text → Text) → Text → ℤ → ℤ
env_duration_sec atoi env key fallback = wrap_int64 (scale (env_int atoi env key fallback) second)

abbrev pub env_duration_ms : (Text → Option ℤ) → (Text → Text) → Text → ℤ → ℤ
env_duration_ms atoi env key fallback =
    wrap_int64 (scale (env_int atoi env key fallback) millisecond)

-- What Load reads, before its tests.
unfoldable pub read_config : (Text → Option ℤ) → (Text → Text) → Config
read_config atoi env =
    let http_enabled = env_bool env (codes "BOT_HTTP_ENABLED") true in
    let ipc_enabled = env_bool env (codes "BOT_IPC_ENABLED") true in
    record {
      http_enabled = http_enabled;
      bot_token = trim_space (env (codes "BOT_TOKEN"));
      erp_url = trim_slashes (trim_space (env (codes "ERP_URL")));
      erp_api_key = trim_space (env (codes "ERP_API_KEY"));
      erp_api_secret = trim_space (env (codes "ERP_API_SECRET"));
      http_addr =
          if not http_enabled then [] else env_or env (codes "BOT_HTTP_ADDR") (codes ":8098");
      ipc_enabled = ipc_enabled;
      ipc_socket =
          if not ipc_enabled
          then []
          else env_or env (codes "BOT_IPC_SOCKET") (codes "/tmp/rfid-go-bot.sock");
      webhook_secret = trim_space (env (codes "BOT_WEBHOOK_SECRET"));
      request_timeout = env_duration_ms atoi env (codes "BOT_HTTP_TIMEOUT_MS") (pos 12000);
      refresh_interval = env_duration_sec atoi env (codes "BOT_CACHE_REFRESH_SEC") (pos 5);
      submit_retry = env_int atoi env (codes "BOT_SUBMIT_RETRY") (pos 2);
      submit_retry_delay = env_duration_ms atoi env (codes "BOT_SUBMIT_RETRY_MS") (pos 300);
      worker_count = env_int atoi env (codes "BOT_WORKER_COUNT") (pos 4);
      queue_size = env_int atoi env (codes "BOT_QUEUE_SIZE") (pos 2048);
      recent_seen_ttl = env_duration_sec atoi env (codes "BOT_RECENT_SEEN_TTL_SEC") (pos 600);
      poll_timeout = env_duration_sec atoi env (codes "BOT_POLL_TIMEOUT_SEC") (pos 25);
      scan_backend = to_lower (env_or env (codes "BOT_SCAN_BACKEND") (codes "hybrid"));
      scan_default_active = env_bool env (codes "BOT_SCAN_DEFAULT_ACTIVE") true;
      auto_scan = env_bool env (codes "BOT_AUTO_SCAN") false;
      reader_connect_timeout =
          env_duration_sec atoi env (codes "BOT_READER_CONNECT_TIMEOUT_SEC") (pos 25);
      reader_retry_delay = env_duration_sec atoi env (codes "BOT_READER_RETRY_SEC") (pos 2);
      reader_host = trim_space (env (codes "BOT_READER_HOST"));
      reader_port = env_int atoi env (codes "BOT_READER_PORT") (pos 0);
    }

abbrev pub at_least : ℤ → ℤ → ℤ
at_least low z = if ltb_ℤ z low then low else z

abbrev pub at_most : ℤ → ℤ → ℤ
at_most high z = if ltb_ℤ high z then high else z

abbrev pub is_backend : Text → Bool
is_backend backend =
    same backend (codes "ingest") || same backend (codes "sdk") || same backend (codes "hybrid")

-- The limits that Load sets.
unfoldable pub limit_config : Config → Config
limit_config cfg = record cfg {
  submit_retry = at_least (pos 0) cfg.submit_retry;
  worker_count = at_least (pos 1) cfg.worker_count;
  queue_size = at_least (pos 64) cfg.queue_size;
  request_timeout = at_least (pos second) cfg.request_timeout;
  refresh_interval = at_least (pos (5 * second)) cfg.refresh_interval;
  poll_timeout = at_most (pos (55 * second)) (at_least (pos (5 * second)) cfg.poll_timeout);
  recent_seen_ttl = at_least (pos (30 * second)) cfg.recent_seen_ttl;
  scan_backend = if is_backend cfg.scan_backend then cfg.scan_backend else codes "ingest";
  reader_connect_timeout = at_least (pos (5 * second)) cfg.reader_connect_timeout;
  reader_retry_delay =
      if ltb_ℤ cfg.reader_retry_delay (pos (500 * millisecond))
      then pos (2 * second)
      else cfg.reader_retry_delay;
}

unfoldable pub load : (Text → Option ℤ) → (Text → Text) → Result ConfigError Config
unfolding read_config limit_config
load atoi env =
    let cfg = read_config atoi env in
    if is_empty cfg.bot_token
    then err token_required
    else if is_empty cfg.erp_url || is_empty cfg.erp_api_key || is_empty cfg.erp_api_secret
    then err erp_required
    else ok (limit_config cfg)
