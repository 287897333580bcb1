-- ===== src/Tui/Laws.antt =====
-- The list window of internal/tui, and the tags, which the terminal program counts as the SDK does.
use new_era.Prelude.{
  take_all, All, foldl, ℕ, ◌+◌, ◌-◌, ◌≤◌, ◌<◌, ◌≡◌, refl, sym, ◌∙◌, List, [], ◌∷◌, if◌then◌else◌,
  ltb, length, arith,
}
use new_era.Prelude.Keys.{contains}
use new_era.Prelude.Text.{Text, is_empty, text_eq}
use new_era.Reader18.Crc.{Bytes}
use new_era.Sdk.Receive.{upper_hex}
use new_era.Tui.Texts.{list_window, pairs, join_words, format_hex, without_spaces}
use new_era.Reader18.Tags.{InventoryG2Tag}
use new_era.Sdk.Client.{Client}
use new_era.Sdk.Events.{Source}
use new_era.Sdk.Receive.{record_tag, record_g2, note_tag}
use new_era.Tui.Model.{Model}
use new_era.Tui.Frames.{epc_text, see_tag, see_tags}

-- The window of a list with a row at the cursor is within the list, has its size, or all rows of a
-- shorter list, and shows the cursor.
list_window_lem :
    (cursor total window : ℕ)
    → cursor < total
    → 0 < window
    → (list_window cursor total window).0 ≤ cursor
      × (cursor < (list_window cursor total window).1)
      × ((list_window cursor total window).1 ≤ total)
      × ((list_window cursor total window).1 - (list_window cursor total window).0
          ≡ (if ltb total window then total else window))
unfolding list_window
list_window_lem cursor total window c w = ground arith

-- Without spaces again, the words that two digits each were joined to are the digits.
spaces_between :
    (bytes : Bytes) → without_spaces (join_words (pairs (upper_hex bytes))) ≡ upper_hex bytes
unfolding without_spaces join_words pairs upper_hex
spaces_between [] = refl
spaces_between (b ∷ []) = ground arith
spaces_between (b ∷ c ∷ bytes) = ground (arith, spaces_between (c ∷ bytes))

-- The terminal program and the SDK write an EPC of at most 96 bytes alike.
pub epc_text-upper_hex : (epc : Bytes) → length epc ≤ 96 → epc_text epc ≡ upper_hex epc
unfolding epc_text format_hex upper_hex
epc_text-upper_hex [] h = refl
epc_text-upper_hex (b ∷ epc) h = ground (arith, take_all 96 (b ∷ epc) h, spaces_between (b ∷ epc))

-- What seeing a text makes of the set.
unfoldable pub note_text : Text → List Text → List Text
note_text text seen =
    if is_empty text then seen else if contains text seen then seen else text ∷ seen

module _ {S : Type 0} where
  see_tag-note_text :
      (tag : InventoryG2Tag) (m : Model S)
      → (see_tag tag m).0.reading.seen_tag_epc ≡ note_text (epc_text tag.epc) m.reading.seen_tag_epc
  unfolding see_tag note_text
  see_tag-note_text tag m = ground arith

record_tag-note_text :
    (source : Source) (antenna rssi : ℕ) (epc : Bytes) (c : Client)
    → (record_tag source antenna rssi epc c).seen ≡ note_text (upper_hex epc) c.seen
unfolding record_tag note_tag note_text
record_tag-note_text source antenna rssi epc c = ground arith

-- The loop of the terminal program and the SDK's over the same tags, whose EPCs have at most 96
-- bytes, make the same set of seen EPCs of the same set.
pub see_tags-record_g2 :
    {S : Type 0} (tags : List InventoryG2Tag) (new_count : ℕ) (m : Model S) (c : Client)
    → All (λ tag. length tag.epc ≤ 96) tags
    → m.reading.seen_tag_epc ≡ c.seen
    → (see_tags tags new_count m).0.reading.seen_tag_epc ≡ (foldl record_g2 c tags).seen
unfolding see_tags
see_tags-record_g2 [] new_count m c short same_set = same_set
see_tags-record_g2 (tag ∷ tags) new_count m c (short, rest) same_set =
    see_tags-record_g2 tags (if (see_tag tag m).1 then new_count + 1 else new_count)
      (see_tag tag m).0 (record_g2 c tag) rest
      (see_tag-note_text tag m
        ∙ (λ i. note_text (epc_text-upper_hex tag.epc short i) (same_set i))
        ∙ sym (record_tag-note_text Source.inventory_g2 tag.antenna tag.rssi tag.epc c))
