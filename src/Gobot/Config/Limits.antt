-- ===== src/Gobot/Config/Limits.antt =====
-- The configurations that Load of internal/gobot/config/config.go returns.
use new_era.Prelude.{
  ◌*◌, ◌≡◌, refl, ap, ◌∙◌, Bool, true, false, ◌⊎◌, inl, inr, Bool-cases, Option, ok, err,
  if◌then◌else◌, arith,
}
use new_era.Prelude.Int.{ℤ, pos, ◌≤ℤ◌}
use new_era.Prelude.Text.{Text, codes, is_empty, text_beq}
use new_era.Gobot.Config.{
  Config, token_required, erp_required, millisecond, second, read_config, is_backend, limit_config,
  load,
}

-- A configuration that the bot can run with.
pub record IsLimited (cfg : Config) : Type 0 where
  pub retries : pos 0 ≤ℤ cfg.submit_retry
  pub workers : pos 1 ≤ℤ cfg.worker_count
  pub queue : pos 64 ≤ℤ cfg.queue_size
  pub request : pos second ≤ℤ cfg.request_timeout
  pub refresh : pos (5 * second) ≤ℤ cfg.refresh_interval
  pub poll_low : pos (5 * second) ≤ℤ cfg.poll_timeout
  pub poll_high : cfg.poll_timeout ≤ℤ pos (55 * second)
  pub recent : pos (30 * second) ≤ℤ cfg.recent_seen_ttl
  pub connect_time : pos (5 * second) ≤ℤ cfg.reader_connect_timeout
  pub retry_delay : pos (500 * millisecond) ≤ℤ cfg.reader_retry_delay
  pub backend : is_backend cfg.scan_backend ≡ true
  pub token : is_empty cfg.bot_token ≡ false
  pub url : is_empty cfg.erp_url ≡ false
  pub key : is_empty cfg.erp_api_key ≡ false
  pub secret : is_empty cfg.erp_api_secret ≡ false

backend_kept : (b : Text) → is_backend (if is_backend b then b else codes "ingest") ≡ true
unfolding text_beq
backend_kept b = elim (Bool-cases (is_backend b)) [
  | inl e ↦ ap (λ (t : Bool). is_backend (if t then b else codes "ingest")) e ∙ e
  | inr e ↦ ap (λ (t : Bool). is_backend (if t then b else codes "ingest")) e ∙ refl
]

limit_config-IsLimited :
    (cfg : Config)
    → is_empty cfg.bot_token ≡ false
    → is_empty cfg.erp_url ≡ false
    → is_empty cfg.erp_api_key ≡ false
    → is_empty cfg.erp_api_secret ≡ false
    → IsLimited (limit_config cfg)
unfolding limit_config
limit_config-IsLimited cfg a b c d = record {
  retries = ground arith;
  workers = ground arith;
  queue = ground arith;
  request = ground arith;
  refresh = ground arith;
  poll_low = ground arith;
  poll_high = ground arith;
  recent = ground arith;
  connect_time = ground arith;
  retry_delay = ground arith;
  backend = backend_kept cfg.scan_backend;
  token = a;
  url = b;
  key = c;
  secret = d;
}

-- The ERP's URL, its key or its secret is empty.
abbrev pub LacksErp : Config → Type 0
LacksErp cfg =
    (is_empty cfg.erp_url ≡ true)
    ⊎ ((is_empty cfg.erp_api_key ≡ true) ⊎ (is_empty cfg.erp_api_secret ≡ true))

-- Load ends with the token's error if the token is empty, with the ERP's error if the token is not
-- empty and the ERP's URL, key or secret is, and else with the limited configuration, which is within
-- its limits and has none of these texts empty.
pub load_lem :
    (atoi : Text → Option ℤ) (env : Text → Text)
    → ((is_empty (read_config atoi env).bot_token ≡ true) × (load atoi env ≡ err token_required))
      ⊎ ((is_empty (read_config atoi env).bot_token ≡ false)
          × LacksErp (read_config atoi env)
          × (load atoi env ≡ err erp_required))
      ⊎ ((load atoi env ≡ ok (limit_config (read_config atoi env)))
          × IsLimited (limit_config (read_config atoi env)))
unfolding load
load_lem atoi env =
    let cfg = read_config atoi env in
    elim (Bool-cases (is_empty cfg.bot_token)) [
      | inl e ↦ inl (e, ground (arith, e))
      | inr a ↦ (elim (Bool-cases (is_empty cfg.erp_url)) [
        | inl b ↦ inr (inl (a, inl b, ground (arith, a, b)))
        | inr b ↦ (elim (Bool-cases (is_empty cfg.erp_api_key)) [
          | inl c ↦ inr (inl (a, inr (inl c), ground (arith, a, b, c)))
          | inr c ↦ (elim (Bool-cases (is_empty cfg.erp_api_secret)) [
            | inl d ↦ inr (inl (a, inr (inr d), ground (arith, a, b, c, d)))
            | inr d ↦ inr (inr (ground (arith, a, b, c, d), limit_config-IsLimited cfg a b c d))
          ])
        ])
      ])
    ]
