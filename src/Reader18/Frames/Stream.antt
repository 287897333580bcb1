-- ===== src/Reader18/Frames/Stream.antt =====
-- ParseFrames on a stream that comes in pieces, and what it returns on any stream.
use new_era.Prelude.{
  ℕ, ◌+◌, ◌≡◌, refl, sym, ap, ◌∙◌, List, [], ◌++◌, length, take, drop, take-append, drop-append,
  get_or-append, arith,
}
use new_era.Reader18.Crc.{Bytes}
use new_era.Reader18.Frames.{Frame, skip, emit, total_of, step, decode, parse_frames}
use new_era.Reader18.Frames.Steps.{
  step-append, step_emit, step_skip, cons_frame, parse_wait, parse_skip, parse_emit, by_rounds,
}

-- First parse one piece; then what it left, with the next piece behind it.
unfoldable pub resume : List Frame × Bytes → Bytes → List Frame × Bytes
resume (frames, remaining) more =
    let (later, rest) = parse_frames (remaining ++ more) in (frames ++ later, rest)

resume-cons_frame :
    (frame : Frame) (r : List Frame × Bytes) (more : Bytes)
    → resume (cons_frame frame r) more ≡ cons_frame frame (resume r more)
unfolding resume
resume-cons_frame frame r more = refl

resume_nothing : (buf more : Bytes) → parse_frames (buf ++ more) ≡ resume ([], buf) more
unfolding resume
resume_nothing buf more = refl

parse-append_skip :
    (more buf : Bytes)
    → step buf ≡ skip
    → parse_frames (drop 1 buf ++ more) ≡ resume (parse_frames (drop 1 buf)) more
    → parse_frames (buf ++ more) ≡ resume (parse_frames buf) more
parse-append_skip more buf e ih =
    parse_skip (buf ++ more) (step-append buf more (λ w. cc) ∙ e)
    ∙ ap parse_frames (drop-append 1 buf more (omega (arith, step_skip buf e)))
    ∙ ih
    ∙ ap (λ r. resume r more) (sym (parse_skip buf e))

parse-append_emit :
    (more buf : Bytes)
    → step buf ≡ emit
    → parse_frames (drop (total_of buf) buf ++ more)
      ≡ resume (parse_frames (drop (total_of buf) buf)) more
    → parse_frames (buf ++ more) ≡ resume (parse_frames buf) more
parse-append_emit more buf e ih =
    let (low, fits, _) = step_emit buf e in
    let n = total_of buf in
    let same_total : total_of (buf ++ more) ≡ n =
      ap (λ (t : ℕ). t + 1) (get_or-append buf more 0 0 (omega arith)) in
    parse_emit (buf ++ more) (step-append buf more (λ w. cc) ∙ e)
    ∙ (λ i.
        cons_frame (decode (take (same_total i) (buf ++ more)))
          (parse_frames (drop (same_total i) (buf ++ more))))
    ∙ (λ i.
        cons_frame (decode (take-append n buf more fits i))
          (parse_frames (drop-append n buf more fits i)))
    ∙ ap (cons_frame (decode (take n buf))) ih
    ∙ sym (resume-cons_frame (decode (take n buf)) (parse_frames (drop n buf)) more)
    ∙ ap (λ r. resume r more) (sym (parse_emit buf e))

-- How the network cuts a stream into packets does not matter: parsing a first piece and then what
-- it left together with a second piece gives the frames, and the rest, of the whole.
pub parse_frames-append :
    (stream more : Bytes) → parse_frames (stream ++ more) ≡ resume (parse_frames stream) more
parse_frames-append stream more =
    by_rounds (λ buf. parse_frames (buf ++ more) ≡ resume (parse_frames buf) more)
      (λ buf e. resume_nothing buf more ∙ ap (λ r. resume r more) (sym (parse_wait buf e)))
      (parse-append_skip more) (parse-append_emit more) (length stream) stream (omega arith)
