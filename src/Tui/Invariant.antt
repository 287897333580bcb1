-- ===== src/Tui/Invariant.antt =====
-- What the terminal program of internal/tui keeps whatever messages it gets, and the functions that
-- every message uses: pushLog, and the calls of the bot.
use Prim.Native.String.{String}
use new_era.Prelude.{
  ℕ, ◌+◌, ◌-◌, ◌*◌, ◌≤◌, ◌<◌, ◌≡◌, refl, ap, ◌∙◌, Bool, true, false, List, [], ◌∷◌, ◌++◌, foldl,
  if◌then◌else◌, if_keeps, ltb, length, length-append, length-drop, arith,
}
use new_era.Prelude.Int.{ℤ, pos, negsuc}
use new_era.Prelude.Keys.{Distinct}
use new_era.Prelude.Text.{Text, text_eq}
use new_era.Sdk.Config.{millisecond}
use new_era.Tui.Plan.{Candidate, Endpoint}
use new_era.Tui.Model.{
  Model, View, Tuning, Reading, Connecting, Line, Arg, BotCall, start_reading, stop_reading,
  new_epc, Cmd, say, push_line, push_log,
}
use new_era.Tui.Tune.{inv_tune_count}
use new_era.Tui.Actions.{home_count, control_count}
use new_era.Tui.Regions.{catalog}
pub mod Tune
pub mod Connect
pub mod Frames
pub mod Actions
pub mod Keys
pub mod Runs

-- A cursor on a list: on one of its rows, or 0 if there are none.
abbrev pub Points : ℕ → ℕ → Type 0
Points i total = i ≤ total - 1

-- The cursors of the menus and of the regions.
abbrev pub IsView : ℕ → ℕ → ℕ → ℕ → ℕ → Type 0
IsView home_row control_row tune_row chosen cursor =
    (home_row < home_count)
    × (control_row < control_count)
    × (tune_row < inv_tune_count)
    × (chosen < length catalog)
    × (cursor < length catalog)

abbrev pub Between : ℕ → ℕ → ℕ → Type 0
Between low high n = (low ≤ n) × (n ≤ high)

-- An integer that is a number within two bounds.
abbrev pub IntBetween : ℕ → ℕ → ℤ → Type 0
IntBetween low high z = (n : ℕ) × (z ≡ pos n) × Between low high n

abbrev pub IsTuning : ℕ → ℕ → ℕ → ℕ → ℤ → Type 0
IsTuning q_value session scan_time mask interval =
    (q_value ≤ 15)
    × (session ≤ 3)
    × Between 1 255 scan_time
    × Between 1 255 mask
    × IntBetween (20 * millisecond) (1000 * millisecond) interval

-- The EPCs that the bot was told of since it was last told to start.
unfoldable pub note_call : List Text → BotCall → List Text
note_call told start_reading = []
note_call told stop_reading = told
note_call told (new_epc text) = text ∷ told

unfoldable pub told_epcs : List BotCall → List Text
unfolding note_call
told_epcs calls = foldl note_call [] calls

-- The bot was told of each EPC of the seen set once, and the counter is the size of that set.
abbrev pub IsReading : List BotCall → List Text → ℕ → ℕ → Type 0
IsReading calls seen total ant_idx =
    (told_epcs calls ≡ seen) × Distinct seen × (total ≡ length seen) × (ant_idx < 8)

module _ {S : Type 0} where
  abbrev pub ViewFits : Model S → Type 0
  ViewFits m =
      let v = m.view in
      IsView v.home_index v.control_index v.inventory_index v.region_index v.region_cursor

  abbrev pub PlanFits : Model S → Type 0
  PlanFits m =
      Points m.view.device_index (length m.plan.candidates)
      × Points m.plan.attempt (length m.plan.queue)

  abbrev pub TuningFits : Model S → Type 0
  TuningFits m = let t = m.tuning in IsTuning t.q_value t.session t.scan_time t.ant_mask t.interval

  abbrev pub ReadingFits : Model S → Type 0
  ReadingFits m = let r = m.reading in IsReading m.bot_calls r.seen_tag_epc r.tag_total r.ant_idx

  abbrev pub Safe : Model S → Type 0
  Safe m = ViewFits m × PlanFits m × TuningFits m × ReadingFits m × (length m.logs ≤ 240)

  abbrev pub SafeAfter : Model S × List Cmd → Type 0
  SafeAfter p = Safe p.0

pub push_line_short : (line : Line) (lines : List Line) → length (push_line line lines) ≤ 240
unfolding push_line
push_line_short line lines = ground (
  arith,
  length-append lines (line ∷ []),
  length-drop (length (lines ++ (line ∷ [])) - 240) (lines ++ (line ∷ [])),
)

told_snoc :
    (told : List Text) (calls : List BotCall) (call : BotCall)
    → foldl note_call told (calls ++ (call ∷ [])) ≡ note_call (foldl note_call told calls) call
told_snoc told [] call = refl
told_snoc told (c ∷ calls) call = told_snoc (note_call told c) calls call

pub told_epcs-snoc :
    (calls : List BotCall) (call : BotCall)
    → told_epcs (calls ++ (call ∷ [])) ≡ note_call (told_epcs calls) call
unfolding told_epcs
told_epcs-snoc calls call = told_snoc [] calls call
