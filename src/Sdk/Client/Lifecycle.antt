-- ===== src/Sdk/Client/Lifecycle.antt =====
-- Starting and stopping the inventory in sdk/client.go: StartInventory,
-- stopInventoryAsync and finishInventoryRun.
use new_era.Prelude.{
  ℕ, ◌≤◌, ◌<◌, ◌≡◌, refl, ap, Bool, true, false, none, some, List, ◌∷◌, if◌then◌else◌, arith,
}
use new_era.Prelude.Keys.{nat_eq, contains}
use new_era.Sdk.Client.{
  Client, close_channel, begin_run, abandon_run, stop_inventory_async, finish_inventory_run,
  cancel_context,
}

-- A new run's number was never used, and a running client has an open channel and a context.
pub record Sound (c : Client) : Type 0 where
  pub fresh : (run : ℕ) → c.runs ≤ run → contains run c.closed ≡ false
  pub open_done :
      c.inventory_on ≡ true
      → (run : ℕ) × (c.inventory_done ≡ some run)
        × (c.cancel_inv ≡ some run)
        × (contains run c.closed ≡ false)
        × (run < c.runs)

pub close_open :
    (run : ℕ) (c : Client)
    → contains run c.closed ≡ false
    → close_channel run c ≡ some (record c { closed = run ∷ c.closed })
unfolding close_channel
close_open run c h =
    ap (λ (b : Bool). if b then none else some (record c { closed = run ∷ c.closed })) h

pub close_again : (run : ℕ) (c : Client) → contains run c.closed ≡ true → close_channel run c ≡ none
unfolding close_channel
close_again run c h =
    ap (λ (b : Bool). if b then none else some (record c { closed = run ∷ c.closed })) h

pub contains_head : (run : ℕ) (runs : List ℕ) → contains run (run ∷ runs) ≡ true
unfolding contains
contains_head run runs = ground arith

pub begin_run-Sound : (c : Client) → Sound c → Sound (begin_run c)
unfolding begin_run contains
begin_run-Sound c v = record {
  fresh = λ run h. v.fresh run (omega arith);
  open_done = λ on. (c.runs, refl, refl, v.fresh c.runs (omega arith), omega arith);
}

pub stop_inventory_async-Sound : (c : Client) → Sound c → Sound (stop_inventory_async c)
unfolding stop_inventory_async
stop_inventory_async-Sound c v = record { fresh = v.fresh; open_done = λ on. absurd (ground arith) }

-- The critical section at the end of a run, before it closes its channel.
abbrev pub stopped : Client → Client
stopped c = record c { inventory_done = none; cancel_inv = none; inventory_on = false }

-- On a client that keeps its runs in order, the run of a failed send that has not yet finished when
-- the next run begins then closes the new run's channel and marks the client as stopped, while no
-- context is cancelled.
pub late_finish_stops_new_run :
    (c : Client)
    → Sound c
    → (d : Client) × (finish_inventory_run (begin_run (stop_inventory_async c)) ≡ some d)
      × (d.inventory_on ≡ false)
      × (contains c.runs d.closed ≡ true)
      × (d.cancelled_runs ≡ (stop_inventory_async c).cancelled_runs)
unfolding finish_inventory_run begin_run stop_inventory_async
late_finish_stops_new_run c v =
    let ended = stopped (begin_run (stop_inventory_async c)) in
    (
      record ended { closed = c.runs ∷ c.closed },
      close_open c.runs ended (v.fresh c.runs (omega arith)),
      refl,
      contains_head c.runs c.closed,
      refl,
    )

-- On such a client, if the new run fails to configure the reader, StartInventory closes its channel,
-- and the older run that then finishes closes it again, which panics.
pub late_finish_panics :
    (c : Client)
    → Sound c
    → (d : Client) × (abandon_run c.runs (begin_run (stop_inventory_async c)) ≡ some d)
      × (finish_inventory_run d ≡ none)
unfolding finish_inventory_run begin_run abandon_run stop_inventory_async
late_finish_panics c v =
    let begun = begin_run (stop_inventory_async c) in
    let abandoned : Client = record begun {
      cancelled_runs = cancel_context begun.cancel_inv begun.cancelled_runs;
      cancel_inv = none;
      inventory_on = false;
    } in
    let d = record abandoned { closed = c.runs ∷ c.closed } in
    (
      d,
      close_open c.runs abandoned (v.fresh c.runs (omega arith)),
      close_again c.runs (stopped d) (contains_head c.runs c.closed),
    )
