-- ===== src/Reader18/Tags/Walk.antt =====
-- The loop of ParseInventoryG2Tags as a walk along the bytes from its cursor on.
use new_era.Prelude.{
  ℕ, zero, suc, ◌+◌, ◌≤◌, ◌<◌, ◌≡◌, refl, sym, ap, ◌∙◌, ◌||◌, List, [], ◌∷◌, Result, ok, err, ◌>>=◌,
  ltb, leb, if◌then◌else◌, length, length-drop, take, drop, arith,
}
use native.Mathlib.Decide.{dec_lt}
use new_era.Reader18.Crc.{Bytes}
use new_era.Reader18.Frames.{byte_at}
use new_era.Reader18.Tags.{
  TagError, truncated, invalid_epc_len, missing_rssi, InventoryG2Tag, tags_loop,
}

-- One tag more in front of a result.
abbrev pub add_tag :
    InventoryG2Tag → Result TagError (List InventoryG2Tag) → Result TagError (List InventoryG2Tag)
add_tag tag rest = rest >>= λ tags. ok (tag ∷ tags)

unfoldable pub walk : ℕ → ℕ → Bytes → ℕ → Result TagError (List InventoryG2Tag)
walk zero i bytes antenna = ok []
walk (suc left) i [] antenna = err (truncated i)
walk (suc left) i (epc_len ∷ bytes) antenna =
    if leb epc_len 0 || ltb (length bytes) epc_len
    then err (invalid_epc_len i)
    else elim (drop epc_len bytes) [
      | [] ↦ err (missing_rssi i)
      | rssi ∷ later ↦
          add_tag (record { antenna = antenna; epc = take epc_len bytes; rssi = rssi })
            (walk left (i + 1) later antenna)
    ]

drop-cons : (n : ℕ) (xs : Bytes) → n < length xs → drop n xs ≡ byte_at xs n ∷ drop (suc n) xs
drop-cons zero [] h = absurd (omega arith)
drop-cons zero (x ∷ xs) h = refl
drop-cons (suc n) [] h = absurd (omega arith)
drop-cons (suc n) (x ∷ xs) h = drop-cons n xs (omega arith)

drop-all : (n : ℕ) (xs : Bytes) → length xs ≤ n → drop n xs ≡ []
drop-all zero [] h = refl
drop-all zero (x ∷ xs) h = absurd (omega arith)
drop-all (suc n) [] h = refl
drop-all (suc n) (x ∷ xs) h = drop-all n xs (omega arith)

drop-drop : (m n k : ℕ) (xs : Bytes) → k ≡ n + m → drop m (drop n xs) ≡ drop k xs
drop-drop m zero k xs h = let e : m ≡ k = omega arith in ap (λ j. drop j xs) e
drop-drop m (suc n) zero xs h = absurd (omega arith)
drop-drop m (suc n) (suc k) [] h = drop-all m [] (omega arith)
drop-drop m (suc n) (suc k) (x ∷ xs) h = drop-drop m n k xs (omega arith)

loop_past :
    (left i cursor : ℕ) (payload : Bytes) (antenna : ℕ)
    → length payload ≤ cursor
    → tags_loop (suc left) i cursor payload antenna
      ≡ walk (suc left) i (drop cursor payload) antenna
unfolding tags_loop walk
loop_past left i cursor payload antenna h = rw (drop-all cursor payload h, walk) (ground arith)

-- Past its first two tests a round of the loop is a round of the walk.
loop-walk_round :
    (left i cursor : ℕ) (payload : Bytes) (antenna : ℕ)
    → cursor < length payload
    → tags_loop left (i + 1) (cursor + 1 + byte_at payload cursor + 1) payload antenna
      ≡ walk left (i + 1) (drop (cursor + 1 + byte_at payload cursor + 1) payload) antenna
    → tags_loop (suc left) i cursor payload antenna
      ≡ walk (suc left) i (byte_at payload cursor ∷ drop (cursor + 1) payload) antenna
unfolding tags_loop walk
loop-walk_round left i cursor payload antenna h ih =
    let n = byte_at payload cursor in
    let stop = cursor + 1 + n in
    let d = length-drop (cursor + 1) payload in
    let e = drop-drop n (cursor + 1) stop payload (omega arith) in
    elim (dec_lt stop (length payload)) [
      | yes more ↦
          let c = drop-cons stop payload more in
          let e' : drop n (drop (cursor + 1) payload)
              ≡ byte_at payload stop ∷ drop (stop + 1) payload =
            e ∙ c ∙ ap (λ j. byte_at payload stop ∷ drop j payload) {x = suc stop} (omega arith) in
          rw (e', walk) (ground (arith, d, ih, e'))
      | no less ↦
          let z : drop n (drop (cursor + 1) payload) ≡ [] =
            e ∙ drop-all stop payload (omega arith) in
          rw (z, walk) (ground (arith, d, z))
    ]

pub loop-walk :
    (left i cursor : ℕ) (payload : Bytes) (antenna : ℕ)
    → tags_loop left i cursor payload antenna ≡ walk left i (drop cursor payload) antenna
loop-walk zero i cursor payload antenna = unfold tags_loop walk in refl
loop-walk (suc left) i cursor payload antenna = elim (dec_lt cursor (length payload)) [
  | yes more ↦
      let e : drop cursor payload ≡ byte_at payload cursor ∷ drop (cursor + 1) payload =
        drop-cons cursor payload more
        ∙ ap (λ j. byte_at payload cursor ∷ drop j payload) {x = suc cursor} (omega arith) in
      loop-walk_round left i cursor payload antenna more
        (loop-walk left (i + 1) (cursor + 1 + byte_at payload cursor + 1) payload antenna)
      ∙ ap (λ bytes. walk (suc left) i bytes antenna) (sym e)
  | no less ↦ loop_past left i cursor payload antenna (omega arith)
]
