-- ===== src/Sdk/Antenna/Laws.antt =====
-- The antenna that nextInventoryAntenna of sdk/client.go picks, and that every antenna gets its turn.
use new_era.Prelude.{
  ℕ, zero, suc, ◌+◌, ◌-◌, ◌%◌, ◌≤◌, ◌<◌, bit_or, ◌≡◌, refl, sym, ap, ◌∙◌, Bool, true, false, ◌||◌,
  ==_iff, ◌⊎◌, inl, inr, Bool-cases, ◌==◌, if◌then◌else◌, arith,
}
use new_era.Prelude.Int.{ℤ, pos, negsuc}
use new_era.Prelude.Bits.{holds_below, holds_at}
use new_era.Sdk.Antenna.{wrap_index, enabled, antenna_loop, next_inventory_antenna}

-- The antenna at `k` places after `from`, in the circle of eight.
abbrev pub place : ℕ → ℕ → ℕ
place from k = (from + k) % 8

-- The mask that is used for a mask.
abbrev pub used_mask : ℕ → ℕ
used_mask mask = if mask == 0 then 0x01 else mask

-- What the loop returns at a place.
abbrev pick : ℕ → ℕ × ℕ
pick idx = (bit_or 0x80 idx, (idx + 1) % 8)

-- Some of the eight antennas is on.
abbrev any_enabled : ℕ → Bool
any_enabled mask =
    enabled mask 0
    || enabled mask 1
    || enabled mask 2
    || enabled mask 3
    || enabled mask 4
    || enabled mask 5
    || enabled mask 6
    || enabled mask 7

byte_enables : holds_below (λ mask. (mask == 0) || any_enabled mask) 256 ≡ true
unfolding holds_below enabled
byte_enables = refl

some_enabled : (mask : ℕ) → 1 ≤ mask → mask < 256 → any_enabled mask ≡ true
some_enabled mask h lt =
    ground (arith, holds_at (λ m. (m == 0) || any_enabled m) 256 byte_enables mask lt)

pub wrap_index_small : (start : ℤ) → wrap_index start < 8
unfolding wrap_index
wrap_index_small (pos n) = omega arith
wrap_index_small (negsuc n) = omega arith

loop_pick :
    (k left i mask from : ℕ)
    → k < left
    → enabled mask (place from (i + k)) ≡ true
    → ((j : ℕ) → j < k → enabled mask (place from (i + j)) ≡ false)
    → antenna_loop left i mask from ≡ pick (place from (i + k))
unfolding antenna_loop
loop_pick k zero i mask from lt on first = absurd (omega arith)
loop_pick zero (suc left) i mask from lt on first =
    let same : i + 0 ≡ i = omega arith in
    ap (λ (b : Bool). if b then pick (place from i) else antenna_loop left (i + 1) mask from)
      (ap (λ (n : ℕ). enabled mask (place from n)) (sym same) ∙ on)
    ∙ ap (λ (n : ℕ). pick (place from n)) (sym same)
loop_pick (suc k) (suc left) i mask from lt on first =
    let same : i + 0 ≡ i = omega arith in
    let shift : (j : ℕ) → i + 1 + j ≡ i + suc j = λ j. omega arith in
    ap (λ (b : Bool). if b then pick (place from i) else antenna_loop left (i + 1) mask from)
      (ap (λ (n : ℕ). enabled mask (place from n)) (sym same) ∙ first 0 (omega arith))
    ∙ loop_pick k left (i + 1) mask from (omega arith)
        (ap (λ (n : ℕ). enabled mask (place from n)) (shift k) ∙ on)
        (λ j h. ap (λ (n : ℕ). enabled mask (place from n)) (shift j) ∙ first (suc j) (omega arith))
    ∙ ap (λ (n : ℕ). pick (place from n)) (shift k)

-- A test has a first place below `n`, or none.
first_place :
    (n : ℕ) (p : ℕ → Bool)
    → ((k : ℕ) × (k < n) × (p k ≡ true) × ((j : ℕ) → j < k → p j ≡ false))
      ⊎ ((j : ℕ) → j < n → p j ≡ false)
first_place zero p = inr (λ j h. absurd (omega arith))
first_place (suc n) p = elim (first_place n p) [
  | inl (k, lt, on, first) ↦ inl (k, omega arith, on, first)
  | inr none_yet ↦ (elim (Bool-cases (p n)) [
    | inl on ↦ inl (n, omega arith, on, none_yet)
    | inr off ↦ inr (λ j h. ground (arith, none_yet j))
  ])
]

-- An antenna below 8 is some place in the circle.
place_of : (from a : ℕ) → from < 8 → a < 8 → place from ((a + 8 - from) % 8) ≡ a
place_of from a h k = omega arith

bit_or_high : (idx : ℕ) → idx < 8 → bit_or 0x80 idx ≡ 0x80 + idx
bit_or_high idx h =
    (==_iff (bit_or 0x80 idx) (0x80 + idx)).0
      (holds_at (λ n. bit_or 0x80 n == 0x80 + n) 8 (unfold holds_below in refl) idx h)

-- The used mask of a byte has an enabled place.
not_all_off :
    (mask from : ℕ)
    → 1 ≤ mask
    → mask < 256
    → from < 8
    → ¬ ((j : ℕ) → j < 8 → enabled mask (place from j) ≡ false)
not_all_off mask from h lt small off =
    let off_at : (a : ℕ) → a < 8 → enabled mask a ≡ false = λ a k.
      ap (enabled mask) (sym (place_of from a small k)) ∙ off ((a + 8 - from) % 8) (omega arith) in
    ground (
      arith,
      some_enabled mask h lt,
      off_at 0 (omega arith),
      off_at 1 (omega arith),
      off_at 2 (omega arith),
      off_at 3 (omega arith),
      off_at 4 (omega arith),
      off_at 5 (omega arith),
      off_at 6 (omega arith),
      off_at 7 (omega arith),
    )

-- For a mask below 256, nextInventoryAntenna returns the first antenna at or after the start that the mask enables, and
-- the place behind it. A mask of 0 stands for antenna 1.
pub next_inventory_antenna_lem :
    (mask : ℕ) (start : ℤ)
    → mask < 256
    → (k : ℕ) × (k < 8)
      × (next_inventory_antenna mask start
          ≡ (0x80 + place (wrap_index start) k, (place (wrap_index start) k + 1) % 8))
      × (enabled (used_mask mask) (place (wrap_index start) k) ≡ true)
      × ((j : ℕ) → j < k → enabled (used_mask mask) (place (wrap_index start) j) ≡ false)
unfolding next_inventory_antenna
next_inventory_antenna_lem mask start lt =
    let used = used_mask mask in
    let from = wrap_index start in
    let small = wrap_index_small start in
    let start_at : (j : ℕ) → 0 + j ≡ j = λ j. omega arith in
    elim (first_place 8 (λ j. enabled used (place from j))) [
      | inl (k, near, on, first) ↦ (
        k,
        near,
        loop_pick k 8 0 used from near
              (ap (λ (n : ℕ). enabled used (place from n)) (start_at k) ∙ on)
              (λ j h. ap (λ (n : ℕ). enabled used (place from n)) (start_at j) ∙ first j h)
            ∙ ap (λ (n : ℕ). pick (place from n)) (start_at k)
            ∙ ap (λ (b : ℕ). (b, (place from k + 1) % 8))
                (bit_or_high (place from k) (omega arith)),
        on,
        first,
      )
      | inr off ↦ absurd (not_all_off used from (ground arith) (ground arith) small off)
    ]

-- The antenna of the n-th call from a start on, counted from 0.
unfoldable pub nth_antenna : ℕ → ℤ → ℕ → ℕ
nth_antenna mask start zero = (next_inventory_antenna mask start).0
nth_antenna mask start (suc n) = nth_antenna mask (pos (next_inventory_antenna mask start).1) n

wrap_again : (n : ℕ) → wrap_index (pos (n % 8)) ≡ n % 8
unfolding wrap_index
wrap_again n = omega arith

-- From behind the place `k` the place `d` is nearer.
place_behind : (from k d : ℕ) → k < d → place ((place from k + 1) % 8) (d - k - 1) ≡ place from d
place_behind from k d h = omega arith

apart→lt : (k d : ℕ) → (k == d) ≡ false → k ≤ d → k < d
apart→lt k d h le = ground arith

reached_from :
    (n d mask a : ℕ) (start : ℤ)
    → d < n
    → d < 8
    → mask < 256
    → place (wrap_index start) d ≡ a
    → enabled (used_mask mask) a ≡ true
    → (m : ℕ) × (m ≤ d) × (nth_antenna mask start m ≡ 0x80 + a)
unfolding nth_antenna
reached_from zero d mask a start h _ lt here on = absurd (omega arith)
reached_from (suc n) d mask a start h small lt here on =
    let (k, near, eq, picked, first) = next_inventory_antenna_lem mask start lt in
    let from = wrap_index start in
    let k_le_d : k ≤ d = ground (arith, first d, ap (enabled (used_mask mask)) here, on) in
    elim (Bool-cases (k == d)) [
      | inl same ↦ (
        0,
        omega arith,
        ap (λ (r : ℕ × ℕ). r.0) eq
            ∙ ap (λ (j : ℕ). 0x80 + place from j) ((==_iff k d).0 same)
            ∙ ap (λ (b : ℕ). 0x80 + b) here,
      )
      | inr apart ↦
          (let nearer = apart→lt k d apart k_le_d in
            let next = pos (next_inventory_antenna mask start).1 in
            let next_from : wrap_index next ≡ (place from k + 1) % 8 =
              ap (λ (r : ℕ × ℕ). wrap_index (pos r.1)) eq ∙ wrap_again (place from k + 1) in
            let there : place (wrap_index next) (d - k - 1) ≡ a =
              ap (λ (b : ℕ). place b (d - k - 1)) next_from ∙ place_behind from k d nearer ∙ here in
            let (m, le, reached) =
              reached_from n (d - k - 1) mask a next (omega arith) (omega arith) lt there on in
            (suc m, omega arith, reached))
    ]

-- Each antenna that the mask enables is picked within the next eight calls.
pub antenna_reached :
    (mask a : ℕ) (start : ℤ)
    → mask < 256
    → a < 8
    → enabled (used_mask mask) a ≡ true
    → (m : ℕ) × (m < 8) × (nth_antenna mask start m ≡ 0x80 + a)
antenna_reached mask a start lt small on =
    let from = wrap_index start in
    let (m, le, reached) =
      reached_from 8 ((a + 8 - from) % 8) mask a start (omega arith) (omega arith) lt
        (place_of from a (wrap_index_small start) small) on in
    (m, omega arith, reached)
