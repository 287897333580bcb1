-- ===== src/Reader18/Tags.antt =====
-- The inventory responses of internal/protocol/reader18/protocol.go: InventoryTagCount,
-- ParseInventoryG2Tags, ParseSingleInventoryResult and antennaIDFromMask.
pub mod Walk
pub mod Layout
pub mod Examples
use new_era.Prelude.{
  ℕ, zero, suc, ◌+◌, ◌-◌, Bool, not, ◌&&◌, ◌||◌, List, [], ◌∷◌, Result, ok, err, ◌>>=◌, ltb, leb,
  ◌==◌, if◌then◌else◌, length, take, drop,
}
use new_era.Reader18.Crc.{Bytes}
use new_era.Reader18.Commands.{cmd_inventory, cmd_inventory_single, status_success, status_no_tag}
use new_era.Reader18.Frames.{Frame, byte_at}

-- The errors by their messages; a number is the tag's place or the status.
pub data TagError : Type 0 where
  not_inventory not_single_inventory payload_too_short single_invalid_epc_len : TagError
  truncated invalid_epc_len missing_rssi single_status : ℕ → TagError

unfoldable pub inventory_tag_count : Frame → Result TagError ℕ
inventory_tag_count frame =
    if not (frame.command == cmd_inventory)
    then err not_inventory
    else if not (frame.status == status_success)
    then ok 0
    else if length frame.payload == 0
    then ok 0
    else ok (byte_at frame.payload 0)

pub record SingleInventoryResult : Type 0 where
  pub antenna : ℕ
  pub tag_count : ℕ
  pub epc : Bytes

pub record InventoryG2Tag : Type 0 where
  pub antenna : ℕ
  pub epc : Bytes
  pub rssi : ℕ

-- bytes[from:to]
abbrev pub slice : Bytes → ℕ → ℕ → Bytes
slice bytes from to = take (to - from) (drop from bytes)

pub antenna_id_from_mask : ℕ → ℕ
antenna_id_from_mask mask =
    if mask == 1
    then 1
    else if mask == 2
    then 2
    else if mask == 4
    then 3
    else if mask == 8
    then 4
    else if mask == 16
    then 5
    else if mask == 32
    then 6
    else if mask == 64
    then 7
    else if mask == 128
    then 8
    else mask + 1

-- The loop over the tags: the rounds left, the place `i`, and the cursor.
pub tags_loop : ℕ → ℕ → ℕ → Bytes → ℕ → Result TagError (List InventoryG2Tag)
tags_loop zero i cursor payload antenna = ok []
tags_loop (suc left) i cursor payload antenna =
    if leb (length payload) cursor
    then err (truncated i)
    else (let epc_len = byte_at payload cursor in
        let start = cursor + 1 in
        let stop = start + epc_len in
        let rest = tags_loop left (i + 1) (stop + 1) payload antenna in
        if leb epc_len 0 || ltb (length payload) stop
        then err (invalid_epc_len i)
        else if leb (length payload) stop
        then err (missing_rssi i)
        else do
          tags ← rest
          ok (
              record {
                antenna = antenna;
                epc = slice payload start stop;
                rssi = byte_at payload stop;
              }
              ∷ tags))

unfoldable pub parse_inventory_g2_tags : Frame → Result TagError (List InventoryG2Tag)
unfolding tags_loop antenna_id_from_mask
parse_inventory_g2_tags frame =
    if not (frame.command == cmd_inventory)
    then err not_inventory
    else if ltb (length frame.payload) 2
    then ok []
    else (let tag_num = byte_at frame.payload 1 in
        if leb tag_num 0
        then ok []
        else tags_loop tag_num 0 2 frame.payload (antenna_id_from_mask (byte_at frame.payload 0)))

unfoldable pub parse_single_inventory_result : Frame → Result TagError SingleInventoryResult
parse_single_inventory_result frame =
    if not (frame.command == cmd_inventory_single)
    then err not_single_inventory
    else if not (frame.status == status_no_tag) && not (frame.status == status_success)
    then err (single_status frame.status)
    else if ltb (length frame.payload) 3
    then err payload_too_short
    else (let epc_len = byte_at frame.payload 2 in
        if ltb (length frame.payload) (3 + epc_len)
        then err single_invalid_epc_len
        else ok (record {
          antenna = byte_at frame.payload 0;
          tag_count = byte_at frame.payload 1;
          epc = slice frame.payload 3 (3 + epc_len);
        }))
