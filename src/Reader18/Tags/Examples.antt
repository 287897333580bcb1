-- ===== src/Reader18/Tags/Examples.antt =====
-- A concrete inventory response.
use new_era.Prelude.{ℕ, ◌≡◌, ◌↔◌, refl, true, [], ◌∷◌, ok}
use new_era.Reader18.Crc.{Bytes}
use new_era.Reader18.Frames.{Frame}
use new_era.Reader18.Tags.{InventoryG2Tag, parse_inventory_g2_tags}
use new_era.Reader18.Tags.Layout.{Holds, parse_inventory_g2_tags_iff}

abbrev inventory_frame : ℕ → Bytes → Frame
inventory_frame status payload = record {
  frame_length = 5;
  address = 0;
  command = 1;
  status = status;
  payload = payload;
  raw = [];
  crc_valid = true;
}

abbrev short_tag : InventoryG2Tag
short_tag = record { antenna = 1; epc = 0xE2 ∷ 0x80 ∷ []; rssi = 60 }

abbrev tag_frame : Frame
tag_frame = inventory_frame 1 (1 ∷ 1 ∷ 2 ∷ 0xE2 ∷ 0x80 ∷ 60 ∷ [])

reads_short_tag : parse_inventory_g2_tags tag_frame ≡ ok (short_tag ∷ [])
unfolding parse_inventory_g2_tags
reads_short_tag = refl

parse_inventory_g2_tags_iff_example :
    (parse_inventory_g2_tags tag_frame ≡ ok (short_tag ∷ []))
    ↔ ((mask : ℕ) × Holds tag_frame.payload mask (short_tag ∷ []))
parse_inventory_g2_tags_iff_example = parse_inventory_g2_tags_iff tag_frame short_tag [] refl
