-- ===== src/Gobot/Cache/Examples.antt =====
-- A small cache.
use new_era.Prelude.{◌≡◌, refl, false, foldl, List, [], ◌∷◌}
use new_era.Prelude.Keys.{contains, insert}
use new_era.Prelude.Text.{Text, text_eq, text_beq, codes, is_empty}
use new_era.Gobot.Cache.{Store, empty, replace, has, size}
use new_era.Gobot.Cache.Laws.{IsValid}
use new_era.Gobot.Cache.Refinement.{
  Call, replacing, adding, removing, perform, replay, cache_refines_set,
}

abbrev two_epcs : List Text
two_epcs = codes "E280" ∷ codes "" ∷ codes "AA" ∷ codes "E280" ∷ []

stores_two : size (replace two_epcs) ≡ 2
unfolding size replace contains is_empty insert text_beq
stores_two = refl

abbrev three_calls : List Call
three_calls =
    replacing two_epcs ∷ adding (codes "BB" ∷ codes "AA" ∷ []) ∷ removing (codes "AA") ∷ []

cache_refines_set_example :
    ((epc : Text)
      → has epc (foldl perform empty three_calls) ≡ foldl replay (λ epc. false) three_calls epc)
    × ((t : Store)
        → IsValid t
        → ((epc : Text) → has epc t ≡ foldl replay (λ epc. false) three_calls epc)
        → size (foldl perform empty three_calls) ≡ size t)
cache_refines_set_example = cache_refines_set three_calls
