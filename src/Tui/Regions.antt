-- ===== src/Tui/Regions.antt =====
-- The catalogue of internal/regions/regions.go, which the region screen shows.
use Prim.Native.String.{String}
use new_era.Prelude.{ℕ, ◌+◌, Option, none, some, List, [], ◌∷◌, if◌then◌else◌}
use new_era.Prelude.Keys.{same}
use new_era.Prelude.Text.{codes, text_eq}

pub record Region : Type 0 where
  pub code : String
  pub name : String
  pub band : String

abbrev pub region : String → String → String → Region
region code name band = record { code = code; name = name; band = band }

abbrev pub catalog : List Region
catalog =
    region "US" "United States" "902-928 MHz"
    ∷ region "EU" "Europe" "865-868 MHz"
    ∷ region "CN840" "China 840" "840-845 MHz"
    ∷ region "CN920" "China 920" "920-925 MHz"
    ∷ region "JP" "Japan" "916.8-923.4 MHz"
    ∷ region "KR" "Korea" "917-923.5 MHz"
    ∷ region "IN" "India" "865-867 MHz"
    ∷ region "AU" "Australia" "920-926 MHz"
    ∷ region "NZ" "New Zealand" "922-928 MHz"
    ∷ region "RU" "Russia" "866-868 MHz"
    ∷ region "BR" "Brazil" "902-907.5 MHz"
    ∷ region "ZA" "South Africa" "915-919 MHz"
    ∷ region "SG" "Singapore" "920-925 MHz"
    ∷ region "MY" "Malaysia" "919-923 MHz"
    ∷ region "TH" "Thailand" "920-925 MHz"
    ∷ region "VN" "Vietnam" "920-923 MHz"
    ∷ []

-- The loop from a place on; 0 where no region has the code.
unfoldable pub index_from : ℕ → List Region → ℕ
index_from i [] = 0
index_from i (r ∷ rs) =
    let rest = index_from (i + 1) rs in if same (codes r.code) (codes "US") then i else rest

unfoldable pub default_index : ℕ
unfolding index_from
default_index = index_from 0 catalog

abbrev pub region_at : List Region → ℕ → Option Region
region_at [] i = none
region_at (r ∷ rs) ℕ.zero = some r
region_at (r ∷ rs) (ℕ.suc i) = region_at rs i
