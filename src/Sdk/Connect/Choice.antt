-- ===== src/Sdk/Connect/Choice.antt =====
-- The candidate that QuickConnect of sdk/client.go takes, and how it ends.
use new_era.Prelude.{
  ℕ, not, if_by, ◌≡◌, refl, sym, ap, ◌∙◌, ◌⊎◌, inl, inr, Bool, true, false, Bool-cases, Option,
  none, some, List, [], ◌∷◌, ◌++◌, All, if◌then◌else◌, arith,
}
use new_era.Prelude.Int.{ℤ}
use new_era.Sdk.Client.{
  Client, Meanwhile, call_cancel, wait_done, stop_begin, stop_inventory, emit_status,
}
use new_era.Sdk.Events.{SdkError, connect_failed, connected}
use new_era.Sdk.Connect.{
  Endpoint, Candidate, choose, connect_timeout, timeout_or_default, connect, reconnect, endpoint_of,
  adopt, conclude_connect, quick_connect,
}

-- No candidate of the list is verified.
abbrev pub Unverified : Candidate → Type 0
Unverified candidate = candidate.verified ≡ false

-- The first verified candidate, or `best` if there is none.
pub IsChoice : Candidate → List Candidate → Candidate → Type 0
IsChoice best candidates chosen =
    ((front : List Candidate) × (back : List Candidate) × (candidates ≡ front ++ chosen ∷ back)
      × All Unverified front
      × (chosen.verified ≡ true))
    ⊎ (All Unverified candidates × (chosen ≡ best))

pub choose-IsChoice :
    (best : Candidate) (candidates : List Candidate)
    → IsChoice best candidates (choose best candidates)
unfolding choose IsChoice
choose-IsChoice best [] = inr (tt, refl)
choose-IsChoice best (candidate ∷ candidates) = elim (Bool-cases candidate.verified) [
  | inl hit ↦
      (let this : (if candidate.verified then candidate else choose best candidates) ≡ candidate =
          ap (λ (b : Bool). if b then candidate else choose best candidates) hit in
        inl (
          [],
          candidates,
          ap (λ c. c ∷ candidates) (sym this),
          tt,
          ap (λ (c : Candidate). c.verified) this ∙ hit,
        ))
  | inr miss ↦
      (let later : (if candidate.verified then candidate else choose best candidates)
            ≡ choose best candidates =
          ap (λ (b : Bool). if b then candidate else choose best candidates) miss in
        elim (choose-IsChoice best candidates) [
          | inl (front, back, eq, off, on) ↦ inl (
            candidate ∷ front,
            back,
            ap (λ cs. candidate ∷ cs) (eq ∙ ap (λ c. front ++ c ∷ back) (sym later)),
            (miss, off),
            ap (λ (c : Candidate). c.verified) later ∙ on,
          )
          | inr (off, eq) ↦ inr ((miss, off), later ∙ eq)
        ])
]

-- The other goroutines do not start an inventory.
pub record StartsNone (meanwhile : Meanwhile) : Type 0 where
  pub early_keeps : (c : Client) → c.inventory_on ≡ false → (meanwhile.early c).inventory_on ≡ false
  pub late_keeps : (c : Client) → c.inventory_on ≡ false → (meanwhile.late c).inventory_on ≡ false

waited_off :
    (done : Option ℕ) (f : Client → Client) (c : Client)
    → ((d : Client) → d.inventory_on ≡ false → (f d).inventory_on ≡ false)
    → c.inventory_on ≡ false
    → (wait_done done f c).inventory_on ≡ false
waited_off none f c h off = off
waited_off (some run) f c h off = h c off

-- StopInventory leaves the client stopped.
stops :
    (meanwhile : Meanwhile) (c : Client)
    → StartsNone meanwhile
    → (stop_inventory meanwhile c).inventory_on ≡ false
unfolding stop_inventory stop_begin
stops meanwhile c h =
    let stopping : Client = record c { cancel_inv = none; inventory_on = false } in
    if_by (λ (d : Client). d.inventory_on ≡ false) (not c.inventory_on) (λ off. ground arith)
      (λ on.
        waited_off c.inventory_done meanwhile.late
          (call_cancel c.cancel_inv (meanwhile.early stopping)) h.late_keeps
          (h.early_keeps stopping refl))

answered :
    (transport : Endpoint → ℤ → Bool) (endpoint : Endpoint) (timeout : ℤ) (c : Client)
    (answer : Bool)
    → transport endpoint (timeout_or_default timeout) ≡ answer
    → connect transport endpoint timeout c ≡ (
        if answer
        then (emit_status (connected endpoint.host endpoint.port) c, none)
        else (c, some connect_failed))
unfolding connect
answered transport endpoint timeout c answer e =
    ap
      (λ (b : Bool).
        if b
        then (emit_status (connected endpoint.host endpoint.port) c, none)
        else (c, some connect_failed))
      e

-- On a scan that found candidates, if no other goroutine starts the inventory while QuickConnect
-- stops it: QuickConnect takes the first verified candidate, or the first one if none is verified, and
-- stops the inventory. If the transport connects there is no error, and a verified candidate's address
-- is the reader's; else there is an error.
pub quick_connect_lem :
    (transport : Endpoint → ℤ → Bool) (remaining : Option ℤ) (best : Candidate)
    (others : List Candidate) (scan_error : Option SdkError) (meanwhile : Meanwhile) (c : Client)
    → StartsNone meanwhile
    → (d : Client) × (chosen : Candidate) × (error : Option SdkError) × (quick_connect transport
          remaining
          (best ∷ others)
          scan_error
          meanwhile
          c
        ≡ (d, some chosen, error))
      × IsChoice best (best ∷ others) chosen
      × (d.inventory_on ≡ false)
      × (((transport (endpoint_of chosen) (timeout_or_default (connect_timeout remaining)) ≡ true)
            × (error ≡ none)
            × (chosen.verified ≡ true → d.reader_addr ≡ chosen.reader_address))
          ⊎ ((transport (endpoint_of chosen) (timeout_or_default (connect_timeout remaining))
                ≡ false)
              × (error ≡ some connect_failed)))
unfolding quick_connect conclude_connect reconnect
quick_connect_lem transport remaining best others scan_error meanwhile c v =
    let chosen = choose best (best ∷ others) in
    let stopped = stop_inventory meanwhile c in
    let timeout = connect_timeout remaining in
    elim (Bool-cases (transport (endpoint_of chosen) (timeout_or_default timeout))) [
      | inl hit ↦ (
        adopt chosen (emit_status (connected chosen.host chosen.port) stopped),
        chosen,
        none,
        ap (conclude_connect chosen)
            (answered transport (endpoint_of chosen) timeout stopped true hit),
        choose-IsChoice best (best ∷ others),
        stops meanwhile c v,
        inl (
          hit,
          refl,
          λ verified.
              ap (λ (b : Bool). if b then chosen.reader_address else stopped.reader_addr) verified,
        ),
      )
      | inr miss ↦ (
        stopped,
        chosen,
        some connect_failed,
        ap (conclude_connect chosen)
            (answered transport (endpoint_of chosen) timeout stopped false miss),
        choose-IsChoice best (best ∷ others),
        stops meanwhile c v,
        inr (miss, refl),
      )
    ]
