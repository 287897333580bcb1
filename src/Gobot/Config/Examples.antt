-- ===== src/Gobot/Config/Examples.antt =====
-- Runs of Load and LoadDotEnv, and their theorems at concrete inputs.
use new_era.Prelude.{
  ◌≡◌, refl, ap, Bool, true, false, ◌⊎◌, Option, none, some, List, [], ◌∷◌, ok, err, if◌then◌else◌,
}
use new_era.Prelude.Int.{ℤ, pos}
use new_era.Prelude.Keys.{same}
use new_era.Prelude.Text.{Text, codes, text_beq, text_eq, is_empty, trim_space, has_prefix}
use new_era.Gobot.Config.{token_required, erp_required, read_config, limit_config, load}
use new_era.Gobot.Config.Limits.{IsLimited, LacksErp, load_lem}
use new_era.Gobot.Config.Dotenv.{Environment, cut, trim_env_quotes, load_dot_env}

-- An environment as a list of variables; the newest setting counts.
abbrev look : Text → List (Text × Text) → Text
look key [] = []
look key ((name, value) ∷ e) = if same name key then value else look key e

abbrev variables : Environment (List (Text × Text))
variables = record {
  get = look;
  set = λ key value e. (key, value) ∷ e;
  get_other = λ key other value e h. ap (λ (b : Bool). if b then value else look other e) h;
}

-- An environment with what Load requires, and workers below the limit.
abbrev small_environment : Text → Text
small_environment key = if same key (codes "BOT_WORKER_COUNT") then codes "0" else codes "x"

-- Only "0" is a number here.
abbrev read_zero : Text → Option ℤ
read_zero raw = if same raw (codes "0") then some (pos 0) else none

load_lem_example :
    ((is_empty (read_config read_zero small_environment).bot_token ≡ true)
      × (load read_zero small_environment ≡ err token_required))
    ⊎ ((is_empty (read_config read_zero small_environment).bot_token ≡ false)
        × LacksErp (read_config read_zero small_environment)
        × (load read_zero small_environment ≡ err erp_required))
    ⊎ ((load read_zero small_environment
          ≡ ok (limit_config (read_config read_zero small_environment)))
        × IsLimited (limit_config (read_config read_zero small_environment)))
load_lem_example = load_lem read_zero small_environment

-- A line for a variable that is there, and one for a variable that is not.
abbrev lines : List Text
lines = codes "A=2" ∷ codes " B = 'x' " ∷ []

abbrev with_a : List (Text × Text)
with_a = (codes "A", codes "1") ∷ []

quotes_are_trimmed : look (codes "B") (load_dot_env variables lines with_a) ≡ codes "x"
unfolding load_dot_env text_beq is_empty trim_space has_prefix cut trim_env_quotes
quotes_are_trimmed = refl
