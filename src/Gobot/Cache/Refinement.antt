-- ===== src/Gobot/Cache/Refinement.antt =====
-- The cache as a set of texts: a run of its operations, and the same run on a function that says of
-- each text whether it is in the set.
use new_era.Prelude.{
  ◌≡◌, refl, sym, ◌∙◌, Bool, false, not, ◌&&◌, ◌||◌, List, [], ◌∷◌, foldl, length, arith,
}
use new_era.Prelude.Keys.{
  same, same_refl, contains, delete, Distinct, contains-same, contains-delete, delete-Distinct,
  length-delete,
}
use new_era.Prelude.Text.{Text, text_eq, is_empty}
use new_era.Gobot.Cache.{Store, empty, replace, add, remove, has, size}
use new_era.Gobot.Cache.Laws.{
  IsValid, has-replace, has-add, has-remove, replace-IsValid, add-IsValid, remove-IsValid,
}

-- A call of an operation that changes the cache.
pub data Call : Type 0 where
  replacing adding : List Text → Call
  removing : Text → Call

unfoldable pub perform : Store → Call → Store
unfolding replace add remove
perform s (replacing epcs) = replace epcs
perform s (adding epcs) = (add epcs s).0
perform s (removing epc) = remove epc s

-- The same on a set. The empty text is never in it.
unfoldable pub replay : (Text → Bool) → Call → Text → Bool
replay in_set (replacing epcs) epc = not (is_empty epc) && contains epc epcs
replay in_set (adding epcs) epc = not (is_empty epc) && contains epc epcs || in_set epc
replay in_set (removing gone) epc = in_set epc && not (same epc gone)

perform-IsValid : (s : Store) (call : Call) → IsValid s → IsValid (perform s call)
unfolding perform
perform-IsValid s (replacing epcs) v = replace-IsValid epcs
perform-IsValid s (adding epcs) v = add-IsValid epcs s v
perform-IsValid s (removing epc) v = remove-IsValid epc s v

has-perform :
    (s : Store) (call : Call) (in_set : Text → Bool)
    → ((epc : Text) → has epc s ≡ in_set epc)
    → (epc : Text) → has epc (perform s call) ≡ replay in_set call epc
unfolding perform replay
has-perform s (replacing epcs) in_set h epc = has-replace epc epcs
has-perform s (adding epcs) in_set h epc = ground (arith, has-add epc epcs s, h epc)
has-perform s (removing gone) in_set h epc = ground (arith, has-remove epc gone s, h epc)

runs :
    (calls : List Call) (s : Store) (in_set : Text → Bool)
    → ((epc : Text) → has epc s ≡ in_set epc)
    → (epc : Text) → has epc (foldl perform s calls) ≡ foldl replay in_set calls epc
runs [] s in_set h epc = h epc
runs (call ∷ calls) s in_set h epc =
    runs calls (perform s call) (replay in_set call) (has-perform s call in_set h) epc

runs-IsValid : (calls : List Call) (s : Store) → IsValid s → IsValid (foldl perform s calls)
runs-IsValid [] s v = v
runs-IsValid (call ∷ calls) s v = runs-IsValid calls (perform s call) (perform-IsValid s call v)

-- Lists without duplicates that have the same elements have the same length.
same_length :
    (xs ys : List Text)
    → Distinct xs
    → Distinct ys
    → ((epc : Text) → contains epc xs ≡ contains epc ys)
    → length xs ≡ length ys
unfolding contains
same_length [] [] d f h = refl
same_length [] (y ∷ ys) d f h = absurd (ground (arith, h y, same_refl y))
same_length (x ∷ xs) ys d f h =
    let rest =
      same_length xs (delete x ys) d.1 (delete-Distinct x ys f)
        (λ epc. ground (arith, h epc, contains-delete epc x ys, contains-same epc x xs, d.0)) in
    ground (arith, rest, length-delete x ys f, h x, same_refl x)

same_epcs :
    (s t : Store)
    → IsValid s
    → IsValid t
    → ((epc : Text) → has epc s ≡ has epc t)
    → (epc : Text) → contains epc s.epcs ≡ contains epc t.epcs
unfolding has is_empty
same_epcs s t v w h [] = v.no_empty ∙ sym w.no_empty
same_epcs s t v w h (c ∷ epc) = h (c ∷ epc)

-- Every run of Replace, Add and Remove from the empty cache answers Has as the same run on a set
-- does, for any text; and its size is that of every valid cache that answers alike, so that neither
-- depends on how the set is stored.
pub cache_refines_set :
    (calls : List Call)
    → ((epc : Text) → has epc (foldl perform empty calls) ≡ foldl replay (λ epc. false) calls epc)
      × ((t : Store)
          → IsValid t
          → ((epc : Text) → has epc t ≡ foldl replay (λ epc. false) calls epc)
          → size (foldl perform empty calls) ≡ size t)
unfolding size has empty contains
cache_refines_set calls =
    let at_first : (epc : Text) → has epc empty ≡ false = λ epc. ground arith in
    let contents = runs calls empty (λ epc. false) at_first in
    let valid = runs-IsValid calls empty (record { distinct = tt; no_empty = refl }) in
    (
      contents,
      λ t w h.
          same_length (foldl perform empty calls).epcs t.epcs valid.distinct w.distinct
            (same_epcs (foldl perform empty calls) t valid w (λ epc. contents epc ∙ sym (h epc))),
    )
