-- ===== src/Reader18/Frames/Steps.antt =====
-- One round of ParseFrames, and its loop as a recursion on the bytes themselves.
use new_era.Prelude.{
  ℕ, zero, suc, ◌-◌, ◌≤◌, ◌<◌, ◌≡◌, ◌≢◌, refl, sym, ap, ◌∙◌, ◌⊎◌, inl, inr, true, List, [], ◌∷◌,
  ◌++◌, length, length-append, length-drop, take, drop, take-append, get_or-append, arith,
}
use new_era.Reader18.Crc.{Bytes}
use new_era.Reader18.Frames.{
  Frame, Step, wait, skip, emit, total_of, step, decode, verify_packet, parse_loop, parse_frames,
}

Step-cases : (s : Step) → (s ≡ wait) ⊎ ((s ≡ skip) ⊎ (s ≡ emit))
Step-cases wait = inl refl
Step-cases skip = inr (inl refl)
Step-cases emit = inr (inr refl)

pub step-cases : (buf : Bytes) → (step buf ≡ wait) ⊎ ((step buf ≡ skip) ⊎ (step buf ≡ emit))
step-cases buf = Step-cases (step buf)

pub step_emit :
    (buf : Bytes)
    → step buf ≡ emit
    → (6 ≤ total_of buf)
      × (total_of buf ≤ length buf)
      × (verify_packet (take (total_of buf) buf) ≡ true)
unfolding step
step_emit buf e = ground arith

pub step_skip : (buf : Bytes) → step buf ≡ skip → 6 ≤ length buf
unfolding step
step_skip buf e = ground arith

pub step_wait : (buf : Bytes) → step buf ≡ wait → (length buf < 6) ⊎ (length buf < total_of buf)
unfolding step
step_wait buf e = ground arith

-- More bytes behind the buffer do not change a round that did not wait for them.
pub step-append : (buf more : Bytes) → step buf ≢ wait → step (buf ++ more) ≡ step buf
unfolding step
step-append buf more h =
    ground (
      arith,
      length-append buf more,
      get_or-append buf more 0 0,
      take-append (total_of buf) buf more,
    )

abbrev pub cons_frame : Frame → List Frame × Bytes → List Frame × Bytes
cons_frame frame (frames, remaining) = (frame ∷ frames, remaining)

-- The loop by its rounds.
loop_wait : (f : ℕ) (buf : Bytes) → step buf ≡ wait → parse_loop f buf ≡ ([], buf)
unfolding parse_loop
loop_wait zero buf e = refl
loop_wait (suc f) buf e = rw (e, parse_loop) refl

loop_skip :
    (f : ℕ) (buf : Bytes) → step buf ≡ skip → parse_loop (suc f) buf ≡ parse_loop f (drop 1 buf)
unfolding parse_loop
loop_skip f buf e = rw (e, parse_loop) refl

loop_emit :
    (f : ℕ) (buf : Bytes)
    → step buf ≡ emit
    → parse_loop (suc f) buf
      ≡ cons_frame (decode (take (total_of buf) buf)) (parse_loop f (drop (total_of buf) buf))
unfolding parse_loop
loop_emit f buf e = rw (e, parse_loop) refl

pub length-drop-le : (n : ℕ) (buf : Bytes) → 0 < n → length (drop n buf) ≤ length buf - 1
length-drop-le n buf h = omega (arith, length-drop n buf)

step_short : (buf : Bytes) → length buf < 6 → step buf ≡ wait
unfolding step
step_short buf h = ground arith

-- Any two amounts of fuel that cover the bytes give the same result.
pub parse_loop_fuel :
    (f g : ℕ) (buf : Bytes) → length buf ≤ f → length buf ≤ g → parse_loop f buf ≡ parse_loop g buf
parse_loop_fuel zero g buf h k =
    let w = step_short buf (omega arith) in loop_wait zero buf w ∙ sym (loop_wait g buf w)
parse_loop_fuel (suc f) zero buf h k =
    let w = step_short buf (omega arith) in loop_wait (suc f) buf w ∙ sym (loop_wait zero buf w)
parse_loop_fuel (suc f) (suc g) buf h k = elim (step-cases buf) [
  | inl w ↦ loop_wait (suc f) buf w ∙ sym (loop_wait (suc g) buf w)
  | inr (inl s) ↦
      let d = length-drop-le 1 buf (omega arith) in
      loop_skip f buf s
      ∙ parse_loop_fuel f g (drop 1 buf) (omega (arith, d)) (omega (arith, d))
      ∙ sym (loop_skip g buf s)
  | inr (inr e) ↦
      let d = length-drop-le (total_of buf) buf (omega arith) in
      loop_emit f buf e
      ∙ ap (cons_frame (decode (take (total_of buf) buf)))
          (parse_loop_fuel f g (drop (total_of buf) buf) (omega (arith, d)) (omega (arith, d)))
      ∙ sym (loop_emit g buf e)
]

-- ParseFrames by its rounds.
pub parse_wait : (buf : Bytes) → step buf ≡ wait → parse_frames buf ≡ ([], buf)
unfolding parse_frames
parse_wait buf e = loop_wait (length buf) buf e

pub parse_skip : (buf : Bytes) → step buf ≡ skip → parse_frames buf ≡ parse_frames (drop 1 buf)
unfolding parse_frames
parse_skip buf e =
    let d = length-drop-le 1 buf (omega arith) in
    parse_loop_fuel (length buf) (suc (length buf)) buf (omega arith) (omega arith)
    ∙ loop_skip (length buf) buf e
    ∙ parse_loop_fuel (length buf) (length (drop 1 buf)) (drop 1 buf) (omega (arith, d))
        (omega arith)

pub parse_emit :
    (buf : Bytes)
    → step buf ≡ emit
    → parse_frames buf
      ≡ cons_frame (decode (take (total_of buf) buf)) (parse_frames (drop (total_of buf) buf))
unfolding parse_frames
parse_emit buf e =
    let rest = drop (total_of buf) buf in
    let d = length-drop-le (total_of buf) buf (omega arith) in
    parse_loop_fuel (length buf) (suc (length buf)) buf (omega arith) (omega arith)
    ∙ loop_emit (length buf) buf e
    ∙ ap (cons_frame (decode (take (total_of buf) buf)))
        (parse_loop_fuel (length buf) (length rest) rest (omega (arith, d)) (omega arith))

-- Induction over the rounds: a statement about each buffer, given it for what the round leaves.
pub by_rounds {ℓ} :
    (P : Bytes → Type ℓ)
    → ((buf : Bytes) → step buf ≡ wait → P buf)
    → ((buf : Bytes) → step buf ≡ skip → P (drop 1 buf) → P buf)
    → ((buf : Bytes) → step buf ≡ emit → P (drop (total_of buf) buf) → P buf)
    → (n : ℕ) (buf : Bytes) → length buf ≤ n
    → P buf
by_rounds P waits skips emits zero buf h = waits buf (step_short buf (omega arith))
by_rounds P waits skips emits (suc n) buf h = elim (step-cases buf) [
  | inl w ↦ waits buf w
  | inr (inl s) ↦ skips buf s (
      by_rounds P waits skips emits n (drop 1 buf)
        (omega (arith, length-drop-le 1 buf (omega arith))))
  | inr (inr e) ↦ emits buf e (
      by_rounds P waits skips emits n (drop (total_of buf) buf)
        (omega (arith, length-drop-le (total_of buf) buf (omega arith))))
]
