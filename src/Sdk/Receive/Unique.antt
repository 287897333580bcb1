-- ===== src/Sdk/Receive/Unique.antt =====
-- What recordTag and observeNoTag of sdk/client.go keep: the seen set and its count, the tag events,
-- and the switch of the target.
use new_era.Prelude.{
  ℕ, ◌+◌, ◌&&◌, ◌≡◌, refl, Bool, true, false, not, List, [], ◌∷◌, ◌++◌, foldl, Result, ok, err,
  if◌then◌else◌, if_keeps, if_by, ltb, ◌==◌, length, arith,
}
use new_era.Prelude.Keys.{contains, Distinct}
use new_era.Prelude.Text.{Text, text_eq, text_beq, is_empty}
use new_era.Reader18.Crc.{Bytes}
use new_era.Reader18.Commands.{
  cmd_inventory, cmd_inventory_single, cmd_get_reader_info, status_success,
}
use new_era.Reader18.Frames.{Frame, parse_frames}
use new_era.Reader18.Tags.{
  TagError, InventoryG2Tag, parse_inventory_g2_tags, parse_single_inventory_result,
  inventory_tag_count,
}
use new_era.Sdk.Client.{Client, begin_run, emit_status}
use new_era.Sdk.Events.{Source, count_only}
use new_era.Sdk.Receive.{
  upper_hex, note_tag, record_tag, record_g2, observe_no_tag, handle_no_tags, handle_g2_result,
  handle_inventory_frame, handle_inventory_single_frame, handle_frame, learn_address, consume_frame,
  consume_packet, is_no_tag_status, switches, is_reported, limit_buffer,
}

abbrev no_text : Text
no_text = []

-- A set of EPCs has each once and no empty one, and a counter is its size.
pub record IsCount (seen : List Text) (count : ℕ) : Type 0 where
  pub once : Distinct seen
  pub no_empty : contains no_text seen ≡ false
  pub counts : count ≡ length seen

abbrev pub Counted : Client → Type 0
Counted c = IsCount c.seen c.unique_tags

not_empty :
    (epc : Text) (seen : List Text)
    → is_empty epc ≡ false
    → contains no_text seen ≡ false
    → contains no_text (epc ∷ seen) ≡ false
unfolding contains is_empty text_beq
not_empty [] seen h k = absurd (ground arith)
not_empty (x ∷ xs) seen h k = k

grown :
    (epc : Text) (seen : List Text) (count : ℕ) (exists : Bool)
    → contains epc seen ≡ exists
    → is_empty epc ≡ false
    → IsCount seen count
    → IsCount (if exists then seen else epc ∷ seen) (if exists then count else count + 1)
grown epc seen count true e h v = v
grown epc seen count false e h v = record {
  once = (e, v.once);
  no_empty = not_empty epc seen h v.no_empty;
  counts = omega (arith, v.counts);
}

note_tag-Counted :
    (epc : Text) (c : Client) → is_empty epc ≡ false → Counted c → Counted (note_tag epc c)
unfolding note_tag
note_tag-Counted epc c h v = grown epc c.seen c.unique_tags (contains epc c.seen) refl h v

record_tag-Counted :
    (source : Source) (antenna rssi : ℕ) (epc : Bytes) (c : Client)
    → Counted c
    → Counted (record_tag source antenna rssi epc c)
unfolding record_tag
record_tag-Counted source antenna rssi epc c v =
    if_by Counted (is_empty (upper_hex epc)) (λ e. v) (λ e. note_tag-Counted (upper_hex epc) c e v)

observe_no_tag-Counted : (status : ℕ) (c : Client) → Counted c → Counted (observe_no_tag status c)
unfolding observe_no_tag
observe_no_tag-Counted status c v =
    if_keeps Counted (not (is_no_tag_status status)) v
      (if_keeps Counted (switches c (c.no_tag_hit + 1)) v v)

handle_no_tags-Counted : (frame : Frame) (c : Client) → Counted c → Counted (handle_no_tags frame c)
unfolding handle_no_tags
handle_no_tags-Counted frame c v =
    if_keeps Counted (frame.status == status_success)
      (elim (inventory_tag_count frame)
        as (λ r. Counted (elim r [
          | ok count ↦ (if ltb 0 count then emit_status (count_only count) c else c)
          | err e ↦ c
        ])) [ ok count ↦ if_keeps Counted (ltb 0 count) v v | err e ↦ v ])
      (observe_no_tag-Counted frame.status c v)

record_all-Counted :
    (tags : List InventoryG2Tag) (c : Client) → Counted c → Counted (foldl record_g2 c tags)
record_all-Counted [] c v = v
record_all-Counted (tag ∷ tags) c v =
    record_all-Counted tags (record_g2 c tag)
      (record_tag-Counted Source.inventory_g2 tag.antenna tag.rssi tag.epc c v)

handle_g2_result-Counted :
    (frame : Frame) (r : Result TagError (List InventoryG2Tag)) (c : Client)
    → Counted c
    → Counted (handle_g2_result frame r c)
unfolding handle_g2_result
handle_g2_result-Counted frame (err e) c v = if_keeps Counted (is_reported e) v v
handle_g2_result-Counted frame (ok tags) c v =
    if_keeps Counted (ltb 0 (length tags)) (record_all-Counted tags c v)
      (handle_no_tags-Counted frame c v)

handle_inventory_single_frame-Counted :
    (frame : Frame) (c : Client) → Counted c → Counted (handle_inventory_single_frame frame c)
unfolding handle_inventory_single_frame
handle_inventory_single_frame-Counted frame c v =
    elim (parse_single_inventory_result frame)
      as (λ r. Counted (elim r [
        | err e ↦ c
        | ok result ↦
            (if ltb 0 result.tag_count && ltb 0 (length result.epc)
              then record_tag Source.inventory_single result.antenna 0 result.epc c
              else observe_no_tag frame.status c)
      ])) [
        | err e ↦ v
        | ok result ↦
            if_keeps Counted (ltb 0 result.tag_count && ltb 0 (length result.epc))
              (record_tag-Counted Source.inventory_single result.antenna 0 result.epc c v)
              (observe_no_tag-Counted frame.status c v)
      ]

consume_frame-Counted : (frame : Frame) (c : Client) → Counted c → Counted (consume_frame c frame)
unfolding consume_frame handle_frame handle_inventory_frame
consume_frame-Counted frame c v =
    let learned = learn_address frame c in
    if_keeps Counted (frame.command == cmd_inventory)
      (handle_g2_result-Counted frame (parse_inventory_g2_tags frame) learned v)
      (if_keeps Counted (frame.command == cmd_inventory_single)
        (handle_inventory_single_frame-Counted frame learned v)
        (if_keeps Counted (frame.command == cmd_get_reader_info) v v))

consume_all-Counted :
    (frames : List Frame) (c : Client) → Counted c → Counted (foldl consume_frame c frames)
consume_all-Counted [] c v = v
consume_all-Counted (frame ∷ frames) c v =
    consume_all-Counted frames (consume_frame c frame) (consume_frame-Counted frame c v)

abbrev pub consume_next : Client → Bytes → Client
consume_next c data_bytes = consume_packet data_bytes c

packets_keep :
    (packets : List Bytes) (c : Client) → Counted c → Counted (foldl consume_next c packets)
unfolding consume_packet
packets_keep [] c v = v
packets_keep (data_bytes ∷ packets) c v =
    let (frames, remaining) = parse_frames (limit_buffer (c.parser_buffer ++ data_bytes)) in
    packets_keep packets (consume_next c data_bytes)
      (consume_all-Counted frames (record c { parser_buffer = remaining }) v)

-- After the start of a run and any packets the seen set has no EPC twice and no empty one, and the
-- count of unique tags is its size.
pub consume_packet-Counted :
    (packets : List Bytes) (c : Client) → Counted (foldl consume_next (begin_run c) packets)
unfolding begin_run contains
consume_packet-Counted packets c =
    packets_keep packets (begin_run c) (record { once = tt; no_empty = refl; counts = refl })
