-- ===== src/Reader18/Tags/Layout.antt =====
-- ParseInventoryG2Tags against the layout that its comment gives:
-- AntMask(1), TagNum(1), repeated [EpcLen(1), EPC(n), RSSI(1)].
use new_era.Prelude.{
  ℕ, zero, suc, ◌+◌, ◌≤◌, ◌≡◌, ◌↔◌, refl, sym, ap, ◌∙◌, inl, inr, List, [], ◌∷◌, ◌++◌, ok, length,
  length-append, take, drop, take-append_left, drop-append_left, take-append-drop, length-take,
  append_assoc, arith, All, Result-cases,
}
use mathlib.Core.Path.{subst, ap₂}
use new_era.Reader18.Crc.{Bytes}
use new_era.Reader18.Commands.{cmd_inventory}
use new_era.Reader18.Frames.{Frame}
use new_era.Reader18.Tags.{InventoryG2Tag, antenna_id_from_mask, parse_inventory_g2_tags}
use new_era.Reader18.Tags.Walk.{walk, add_tag, loop-walk}

abbrev pub tag_bytes : InventoryG2Tag → Bytes
tag_bytes tag = length tag.epc ∷ tag.epc ++ (tag.rssi ∷ [])

abbrev pub tags_bytes : List InventoryG2Tag → Bytes
tags_bytes [] = []
tags_bytes (tag ∷ tags) = tag_bytes tag ++ tags_bytes tags

-- A tag that was read at an antenna, with an EPC that is not empty.
abbrev pub IsReadAt : ℕ → InventoryG2Tag → Type 0
IsReadAt antenna tag = (tag.antenna ≡ antenna) × (1 ≤ length tag.epc)

drop_tag :
    (tag : InventoryG2Tag) (later : Bytes)
    → drop (length tag.epc) ((tag.epc ++ (tag.rssi ∷ [])) ++ later) ≡ tag.rssi ∷ later
drop_tag tag later =
    ap (drop (length tag.epc)) (append_assoc tag.epc (tag.rssi ∷ []) later)
    ∙ drop-append_left (length tag.epc) tag.epc (tag.rssi ∷ later) refl

take_tag :
    (tag : InventoryG2Tag) (later : Bytes)
    → take (length tag.epc) ((tag.epc ++ (tag.rssi ∷ [])) ++ later) ≡ tag.epc
take_tag tag later =
    ap (take (length tag.epc)) (append_assoc tag.epc (tag.rssi ∷ []) later)
    ∙ take-append_left (length tag.epc) tag.epc (tag.rssi ∷ later) refl

walk_tag :
    (left i antenna : ℕ) (tag : InventoryG2Tag) (later : Bytes)
    → IsReadAt antenna tag
    → walk (suc left) i (tag_bytes tag ++ later) antenna
      ≡ add_tag tag (walk left (i + 1) later antenna)
unfolding walk
walk_tag left i antenna tag later h =
    rw (drop_tag tag later, walk)
      (ground (
        arith,
        take_tag tag later,
        length-append (tag.epc ++ (tag.rssi ∷ [])) later,
        length-append tag.epc (tag.rssi ∷ []),
      ))

walk-tags_bytes :
    (tags : List InventoryG2Tag) (i antenna : ℕ) (later : Bytes)
    → All (IsReadAt antenna) tags
    → walk (length tags) i (tags_bytes tags ++ later) antenna ≡ ok tags
walk-tags_bytes [] i antenna later h = unfold walk in refl
walk-tags_bytes (tag ∷ tags) i antenna later h =
    ap (λ bytes. walk (suc (length tags)) i bytes antenna)
      (append_assoc (tag_bytes tag) (tags_bytes tags) later)
    ∙ walk_tag (length tags) i antenna tag (tags_bytes tags ++ later) h.0
    ∙ ap (add_tag tag) (walk-tags_bytes tags (i + 1) antenna later h.1)

-- The bytes begin with `left` tags.
abbrev BeginsWith : ℕ → ℕ → Bytes → List InventoryG2Tag → Type 0
BeginsWith left antenna bytes tags =
    (later : Bytes) × (bytes ≡ tags_bytes tags ++ later)
    × (length tags ≡ left)
    × All (IsReadAt antenna) tags

read_tag : ℕ → ℕ → ℕ → Bytes → InventoryG2Tag
read_tag antenna n rssi bytes = record { antenna = antenna; epc = take n bytes; rssi = rssi }

-- A round that succeeds.
walk_round :
    (left i antenna n : ℕ) (bytes : Bytes) (tags : List InventoryG2Tag) (dropped : Bytes)
    → drop n bytes ≡ dropped
    → walk (suc left) i (n ∷ bytes) antenna ≡ ok tags
    → (rssi : ℕ) × (later : Bytes) × (rest : List InventoryG2Tag) × (dropped ≡ rssi ∷ later)
      × (1 ≤ n)
      × (n ≤ length bytes)
      × (walk left (i + 1) later antenna ≡ ok rest)
      × (tags ≡ read_tag antenna n rssi bytes ∷ rest)
unfolding walk read_tag
walk_round left i antenna n bytes tags [] d e = absurd (ground (arith, d))
walk_round left i antenna n bytes tags (rssi ∷ later) d e =
    elim (Result-cases (walk left (i + 1) later antenna)) [
      | inl (rest, r) ↦
          (rssi, later, rest, refl, ground (arith, d), ground (arith, d), r, ground (arith, d, r))
      | inr (x, r) ↦ absurd (ground (arith, d, r))
    ]

begins_with :
    (left antenna n rssi : ℕ) (bytes later : Bytes) (rest : List InventoryG2Tag)
    → drop n bytes ≡ rssi ∷ later
    → 1 ≤ n
    → n ≤ length bytes
    → BeginsWith left antenna later rest
    → BeginsWith (suc left) antenna (n ∷ bytes) (read_tag antenna n rssi bytes ∷ rest)
unfolding read_tag
begins_with left antenna n rssi bytes later rest d low fits (end, cut, count, valid) =
    let epc = take n bytes in
    let len : n ≡ length epc = omega (arith, length-take n bytes) in
    let whole : bytes ≡ epc ++ (rssi ∷ (tags_bytes rest ++ end)) =
      sym (take-append-drop n bytes) ∙ ap (◌++◌ epc) (d ∙ ap (◌∷◌ rssi) cut) in
    let grouped =
      append_assoc (epc ++ (rssi ∷ [])) (tags_bytes rest) end
      ∙ append_assoc epc (rssi ∷ []) (tags_bytes rest ++ end) in
    (end, ap₂ ◌∷◌ len (whole ∙ sym grouped), omega arith, ((refl, omega arith), valid))

walk_sound :
    (left i antenna : ℕ) (bytes : Bytes) (tags : List InventoryG2Tag)
    → walk left i bytes antenna ≡ ok tags
    → BeginsWith left antenna bytes tags
walk_sound zero i antenna bytes [] e = (bytes, refl, refl, tt)
walk_sound zero i antenna bytes (tag ∷ tags) e = unfold walk in cc e
walk_sound (suc left) i antenna [] tags e = unfold walk in cc e
walk_sound (suc left) i antenna (n ∷ bytes) tags e =
    let (rssi, later, rest, d, low, fits, r, t) =
      walk_round left i antenna n bytes tags (drop n bytes) refl e in
    subst (BeginsWith (suc left) antenna (n ∷ bytes)) (sym t) (
      begins_with left antenna n rssi bytes later rest d low fits
        (walk_sound left (i + 1) antenna later rest r))

-- A payload in the layout of the comment: a mask, the number of tags, the tags, and what follows.
abbrev pub Holds : Bytes → ℕ → List InventoryG2Tag → Type 0
Holds payload mask tags =
    (later : Bytes) × (payload ≡ mask ∷ length tags ∷ (tags_bytes tags ++ later))
    × All (IsReadAt (antenna_id_from_mask mask)) tags

parse_laid_out :
    (frame : Frame) (mask : ℕ) (tag : InventoryG2Tag) (tags : List InventoryG2Tag)
    → frame.command ≡ cmd_inventory
    → Holds frame.payload mask (tag ∷ tags)
    → parse_inventory_g2_tags frame ≡ ok (tag ∷ tags)
unfolding parse_inventory_g2_tags
parse_laid_out frame mask tag tags c (later, e, valid) =
    let antenna = antenna_id_from_mask mask in
    let payload = mask ∷ length (tag ∷ tags) ∷ (tags_bytes (tag ∷ tags) ++ later) in
    ground (
      arith,
      e,
      loop-walk (length (tag ∷ tags)) 0 2 payload antenna,
      walk-tags_bytes (tag ∷ tags) 0 antenna later valid,
    )

parse_walks :
    (frame : Frame) (payload : Bytes) (tag : InventoryG2Tag) (tags : List InventoryG2Tag)
    → frame.payload ≡ payload
    → parse_inventory_g2_tags frame ≡ ok (tag ∷ tags)
    → (mask : ℕ) × (count : ℕ) × (bytes : Bytes) × (payload ≡ mask ∷ count ∷ bytes)
      × (walk count 0 bytes (antenna_id_from_mask mask) ≡ ok (tag ∷ tags))
unfolding parse_inventory_g2_tags
parse_walks frame [] tag tags p e = absurd (ground (arith, p))
parse_walks frame (mask ∷ []) tag tags p e = absurd (ground (arith, p))
parse_walks frame (mask ∷ count ∷ bytes) tag tags p e = (
  mask,
  count,
  bytes,
  refl,
  ground (arith, p, loop-walk count 0 2 (mask ∷ count ∷ bytes) (antenna_id_from_mask mask)),
)

parse_sound :
    (frame : Frame) (tag : InventoryG2Tag) (tags : List InventoryG2Tag)
    → parse_inventory_g2_tags frame ≡ ok (tag ∷ tags)
    → (mask : ℕ) × Holds frame.payload mask (tag ∷ tags)
parse_sound frame tag tags e =
    let (mask, count, bytes, p, w) = parse_walks frame frame.payload tag tags refl e in
    let (later, cut, number, valid) =
      walk_sound count 0 (antenna_id_from_mask mask) bytes (tag ∷ tags) w in
    (mask, (later, p ∙ ap₂ (λ (k : ℕ) (t : Bytes). mask ∷ k ∷ t) (sym number) cut, valid))

-- On a frame of the inventory command, ParseInventoryG2Tags returns a list of at least one tag
-- exactly if the payload is an antenna mask, the number of these tags, and the tags one after the
-- other in the documented layout, each with a non-empty EPC and the antenna of the mask; bytes may
-- follow.
pub parse_inventory_g2_tags_iff :
    (frame : Frame) (tag : InventoryG2Tag) (tags : List InventoryG2Tag)
    → frame.command ≡ cmd_inventory
    → (parse_inventory_g2_tags frame ≡ ok (tag ∷ tags))
      ↔ ((mask : ℕ) × Holds frame.payload mask (tag ∷ tags))
parse_inventory_g2_tags_iff frame tag tags c =
    (parse_sound frame tag tags, λ h. parse_laid_out frame h.0 tag tags c h.1)
