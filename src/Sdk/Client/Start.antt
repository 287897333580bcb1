-- ===== src/Sdk/Client/Start.antt =====
-- StartInventory and ApplyInventoryConfig in sdk/client.go.
use mathlib.Core.Path.{subst}
use new_era.Prelude.{
  ℕ, suc, ◌+◌, ◌≤◌, ◌<◌, ◌≡◌, ◌≢◌, ◌⊎◌, inl, inr, refl, sym, ap, ◌∙◌, Bool, true, false, Bool-cases,
  Option, none, some, List, [], ◌∷◌, if◌then◌else◌, take, length, arith,
}
use new_era.Prelude.Keys.{nat_eq, contains}
use new_era.Reader18.Crc.{Bytes}
use new_era.Sdk.Client.{
  Client, Meanwhile, then_send, send_commands, config_commands, apply_inventory_config, begin_run,
  abandon_run, conclude_start, start_inventory, cancel_context, emit_status,
}
use new_era.Sdk.Events.{
  SdkError, already_running, Attempt, context_done, refused, sent, inventory_started,
}
use new_era.Sdk.Client.Lifecycle.{close_open, close_again, contains_head}

-- What was sent is a front part of the commands, and all of them without an error.
pub IsFront : List Bytes → List Bytes × Option SdkError → Type 0
IsFront commands (done, error) =
    (k : ℕ) × (k ≤ length commands)
    × (done ≡ take k commands)
    × (((error ≡ none) × (k ≡ length commands)) ⊎ ((error ≢ none) × (k < length commands)))

some_not_none : {e : SdkError} → some e ≢ none
some_not_none h = absurd (ground arith)

then_send-IsFront :
    (a : Attempt) (command : Bytes) (commands : List Bytes) (rest : List Bytes × Option SdkError)
    → IsFront commands rest
    → IsFront (command ∷ commands) (then_send a command rest)
unfolding IsFront
then_send-IsFront context_done command commands rest v =
    (0, omega arith, refl, inr (some_not_none, omega arith))
then_send-IsFront refused command commands rest v =
    (0, omega arith, refl, inr (some_not_none, omega arith))
then_send-IsFront sent command commands (done, error) (k, le, eq, inl (e, all)) =
    (suc k, omega arith, ap (λ xs. command ∷ xs) eq, inl (e, omega arith))
then_send-IsFront sent command commands (done, error) (k, le, eq, inr (e, few)) =
    (suc k, omega arith, ap (λ xs. command ∷ xs) eq, inr (e, omega arith))

send_commands-IsFront :
    (attempt : ℕ → Attempt) (i : ℕ) (commands : List Bytes)
    → IsFront commands (send_commands attempt i commands)
unfolding send_commands
send_commands-IsFront attempt i [] = unfold IsFront in (0, omega arith, refl, inl (refl, refl))
send_commands-IsFront attempt i (command ∷ commands) =
    then_send-IsFront (attempt i) command commands (send_commands attempt (i + 1) commands)
      (send_commands-IsFront attempt (i + 1) commands)

apply_inventory_config-IsFront :
    (is_connected : Bool) (attempt : ℕ → Attempt) (c : Client)
    → IsFront (config_commands c.cfg c.reader_addr) (apply_inventory_config is_connected attempt c)
unfolding apply_inventory_config
apply_inventory_config-IsFront true attempt c =
    send_commands-IsFront attempt 0 (config_commands c.cfg c.reader_addr)
apply_inventory_config-IsFront false attempt c =
    unfold IsFront in (0, omega arith, refl, inr (some_not_none, omega arith))

-- How StartInventory ends for the run `run`, if the others made the client `later` of it before the
-- second critical section: with all commands sent and no error; or after an error by a panic, if the
-- run's channel was closed already; or after an error with the client stopped, the channel closed,
-- and the context cancelled that the client then had.
pub EndsStart :
    ℕ
    → Client
    → List Bytes × Option SdkError
    → Option (Client × List Bytes × Option SdkError)
    → Type 0
EndsStart run later (commands, error) result =
    ((error ≡ none) × (result ≡ some (emit_status inventory_started later, commands, none)))
    ⊎ (((error ≢ none) × (contains run later.closed ≡ true) × (result ≡ none))
        ⊎ ((error ≢ none)
            × (contains run later.closed ≡ false)
            × ((d : Client) × (result ≡ some (d, commands, error))
                × (d.inventory_on ≡ false)
                × (d.cancel_inv ≡ none)
                × (contains run d.closed ≡ true)
                × ((held : ℕ)
                    → later.cancel_inv ≡ some held
                    → contains held d.cancelled_runs ≡ true))))

-- The client of the second critical section after a failure, before it closes the channel.
abbrev abandoned : Client → Client
abandoned c = record c {
  cancelled_runs = cancel_context c.cancel_inv c.cancelled_runs;
  cancel_inv = none;
  inventory_on = false;
}

held_cancelled :
    (held : ℕ) (cancel : Option ℕ) (runs : List ℕ)
    → cancel ≡ some held
    → contains held (cancel_context cancel runs) ≡ true
held_cancelled held none runs h = absurd (cc)
held_cancelled held (some run) runs h =
    let here : run ≡ held = ap (λ (o : Option ℕ). elim o [ none ↦ run | some y ↦ y ]) h in
    ap (λ (y : ℕ). contains held (y ∷ runs)) here ∙ contains_head held runs

conclude_start_ends :
    (run : ℕ) (later : Client) (result : List Bytes × Option SdkError)
    → EndsStart run later result (conclude_start run later result)
unfolding conclude_start EndsStart abandon_run
conclude_start_ends run later (commands, none) = inl (refl, refl)
conclude_start_ends run later (commands, some e) =
    let close = λ (o : Option Client).
      elim o as (λ _. Option (Client × List Bytes × Option SdkError)) [
        | none ↦ none
        | some stopped ↦ some (stopped, commands, some e)
      ] in
    elim (Bool-cases (contains run later.closed)) [
      | inl was ↦ inr (inl (some_not_none, was, ap close (close_again run (abandoned later) was)))
      | inr open_yet ↦ inr (
          inr (
            some_not_none,
            open_yet,
            (
              record (abandoned later) { closed = run ∷ later.closed },
              ap close (close_open run (abandoned later) open_yet),
              refl,
              refl,
              contains_head run later.closed,
              λ held h. held_cancelled held later.cancel_inv later.cancelled_runs h,
            ),
          ))
    ]

-- On a stopped client and a connected transport, whatever the other goroutines do to the client while
-- StartInventory does not hold its lock: it sends a front part of the four configuration commands for
-- the configuration and the address of its snapshot. Without an error it sends all of them, and
-- announces the start. With an error it panics if another goroutine closed the channel of its run
-- meanwhile; and if not, the client is stopped, the channel closed, and the context cancelled whose
-- cancel function the client then had.
pub start_inventory_lem :
    (still_connected : Bool) (attempt : ℕ → Attempt) (meanwhile : Meanwhile) (c : Client)
    → c.inventory_on ≡ false
    → (commands : List Bytes) × (error : Option SdkError) × IsFront
        (config_commands
          (meanwhile.early (begin_run c)).cfg
          (meanwhile.early (begin_run c)).reader_addr)
        (commands, error)
      × EndsStart c.runs
          (meanwhile.late (meanwhile.early (begin_run c)))
          (commands, error)
          (start_inventory true still_connected attempt meanwhile c)
unfolding start_inventory
start_inventory_lem still_connected attempt meanwhile c off =
    let snapshot = meanwhile.early (begin_run c) in
    let later = meanwhile.late snapshot in
    let (commands, error) = apply_inventory_config still_connected attempt snapshot in
    let started : start_inventory true still_connected attempt meanwhile c
        ≡ conclude_start c.runs later (commands, error) =
      ap
        (λ (on : Bool).
          if on
          then some (c, [], some already_running)
          else conclude_start c.runs later (commands, error))
        off in
    (
      commands,
      error,
      apply_inventory_config-IsFront still_connected attempt snapshot,
      subst (EndsStart c.runs later (commands, error)) (sym started)
          (conclude_start_ends c.runs later (commands, error)),
    )
