-- ===== src/Gobot/Config/Dotenv.antt =====
-- LoadDotEnv and trimEnvQuotes of internal/gobot/config/dotenv.go.
use new_era.Prelude.{
  ℕ, ◌-◌, ◌≡◌, refl, ap, ◌∙◌, Bool-cases, inl, inr, if_keeps, Bool, true, false, not, ◌&&◌, ◌||◌,
  Option, none, some, List, [], ◌∷◌, if◌then◌else◌, ltb, ◌==◌, length, take, drop, arith,
}
use new_era.Prelude.Keys.{same, same→eq}
use new_era.Prelude.Text.{Text, codes, text_eq, is_empty, trim_space, has_prefix}

-- The process environment: os.Getenv and os.Setenv. Setting a variable leaves the others as they are.
pub record Environment (E : Type 0) : Type 0 where
  pub get : Text → E → Text
  pub set : Text → Text → E → E
  pub get_other :
      (key other value : Text) (e : E)
      → same key other ≡ false
      → get other (set key value e) ≡ get other e

-- strings.Cut(raw, "=")
unfoldable pub cut : Text → Option (Text × Text)
cut [] = none
cut (c ∷ s) =
    let rest = cut s in
    if c == 61
    then some ([], s)
    else elim rest [ none ↦ none | some (key, val) ↦ some (c ∷ key, val) ]

abbrev pub last_is : ℕ → Text → Bool
last_is c v = same (drop (length v - 1) v) (c ∷ [])

-- Double and single quotes are 34 and 39.
unfoldable pub trim_env_quotes : Text → Text
trim_env_quotes v =
    if not (ltb (length v) 2)
      && (has_prefix v (34 ∷ []) && last_is 34 v || has_prefix v (39 ∷ []) && last_is 39 v)
    then take (length v - 2) (drop 1 v)
    else v

module _ {E : Type 0} (os : Environment E) where
  unfoldable pub set_missing : Text → Text → E → E
  set_missing key val e = if is_empty (os.get key e) then os.set key val e else e

  -- A line's key and value.
  unfoldable pub load_pair : Option (Text × Text) → E → E
  unfolding set_missing
  load_pair none e = e
  load_pair (some (name, val)) e =
      let key = trim_space name in
      if is_empty key then e else set_missing key (trim_env_quotes (trim_space val)) e

  -- One line of the file.
  unfoldable pub load_line : Text → E → E
  unfolding load_pair
  load_line line e =
      let raw = trim_space line in
      if is_empty raw || has_prefix raw (codes "#") then e else load_pair (cut raw) e

  -- The lines that the scanner delivers; a read error only ends them.
  unfoldable pub load_dot_env : List Text → E → E
  unfolding load_line
  load_dot_env [] e = e
  load_dot_env (line ∷ lines) e = load_dot_env lines (load_line line e)

module _ {E : Type 0} (os : Environment E) where
  -- A variable without a text is another one than a variable with a text.
  apart :
      (key name : Text) (e : E)
      → is_empty (os.get key e) ≡ true
      → is_empty (os.get name e) ≡ false
      → same key name ≡ false
  apart key name e missing h = elim (Bool-cases (same key name)) [
    | inl equal ↦ absurd (
        ground
          (arith, ap (λ (k : Text). is_empty (os.get k e)) (same→eq key name equal), missing, h))
    | inr other ↦ other
  ]

  -- Setting a missing variable leaves alone a variable that has a text.
  set_missing_keeps :
      (key val name : Text) (e : E)
      → is_empty (os.get name e) ≡ false
      → os.get name (set_missing os key val e) ≡ os.get name e
  unfolding set_missing
  set_missing_keeps key val name e h = elim (Bool-cases (is_empty (os.get key e))) [
    | inl missing ↦
        ap (λ (b : Bool). os.get name (if b then os.set key val e else e)) missing
        ∙ os.get_other key name val e (apart key name e missing h)
    | inr there ↦ ap (λ (b : Bool). os.get name (if b then os.set key val e else e)) there
  ]

  load_pair_keeps :
      (pair : Option (Text × Text)) (name : Text) (e : E)
      → is_empty (os.get name e) ≡ false
      → os.get name (load_pair os pair e) ≡ os.get name e
  unfolding load_pair
  load_pair_keeps none name e h = refl
  load_pair_keeps (some (raw_key, val)) name e h =
      let key = trim_space raw_key in
      if_keeps (λ (d : E). os.get name d ≡ os.get name e) (is_empty key) refl
        (set_missing_keeps key (trim_env_quotes (trim_space val)) name e h)

  load_line_keeps :
      (line name : Text) (e : E)
      → is_empty (os.get name e) ≡ false
      → os.get name (load_line os line e) ≡ os.get name e
  unfolding load_line
  load_line_keeps line name e h =
      let raw = trim_space line in
      if_keeps (λ (d : E). os.get name d ≡ os.get name e)
        (is_empty raw || has_prefix raw (codes "#")) refl (load_pair_keeps (cut raw) name e h)

  -- A variable that has a text keeps it, whatever lines are loaded.
  load_dot_env_keeps :
      (lines : List Text) (name : Text) (e : E)
      → is_empty (os.get name e) ≡ false
      → os.get name (load_dot_env os lines e) ≡ os.get name e
  unfolding load_dot_env
  load_dot_env_keeps [] name e h = refl
  load_dot_env_keeps (line ∷ lines) name e h =
      let kept = load_line_keeps line name e h in
      load_dot_env_keeps lines name (load_line os line e) (ap is_empty kept ∙ h) ∙ kept
