-- ===== src/Gobot/Cache.antt =====
-- internal/gobot/cache/store.go: the set of the EPCs that have an open draft. The mutex makes each
-- operation one step.
pub mod Laws
pub mod Refinement
pub mod Examples
use new_era.Prelude.{ℕ, ◌+◌, Bool, true, false, List, [], ◌∷◌, if◌then◌else◌, length}
use new_era.Prelude.Keys.{contains, insert, delete}
use new_era.Prelude.Text.{Text, text_eq, is_empty}

pub record Store : Type 0 where
  pub epcs : List Text

pub empty : Store
empty = record { epcs = [] }

pub replace_into : List Text → List Text → List Text
replace_into [] next = next
replace_into (epc ∷ epcs) next = replace_into epcs (if is_empty epc then next else insert epc next)

unfoldable pub replace : List Text → Store
unfolding replace_into
replace epcs = record { epcs = replace_into epcs [] }

-- The loop of Add, with its count.
pub add_into : List Text → List Text → ℕ → List Text × ℕ
add_into [] s added = (s, added)
add_into (epc ∷ epcs) s added =
    let skip = is_empty epc in
    let old = contains epc s in
    add_into epcs (if skip then s else if old then s else epc ∷ s)
      (if skip then added else if old then added else added + 1)

unfoldable pub add : List Text → Store → Store × ℕ
unfolding add_into
add epcs s = let (next, added) = add_into epcs s.epcs 0 in (record { epcs = next }, added)

unfoldable pub remove : Text → Store → Store
remove epc s = if is_empty epc then s else record { epcs = delete epc s.epcs }

unfoldable pub has : Text → Store → Bool
has epc s = if is_empty epc then false else contains epc s.epcs

unfoldable pub size : Store → ℕ
size s = length s.epcs
