-- ===== src/Tui/Retry.antt =====
-- The walk over a connection plan of internal/tui/update.go, and what a successful connection leaves
-- undone: the other endpoints, and the bot's scan.
use Prim.Native.String.{String}
use new_era.Prelude.{
  ℕ, ◌+◌, ◌≤◌, ◌≡◌, refl, ap, sym, ◌∙◌, ◌⊎◌, inl, inr, false, Option, none, some, List, [], ◌∷◌,
  foldl, if_by, ◌==◌, length, arith,
}
use new_era.Prelude.Text.{Text}
use new_era.Tui.Plan.{Endpoint, build_connect_plan}
use new_era.Tui.Model.{Model, Cmd, reconnect, disconnect_reader, push_log, set_status, str}
use new_era.Tui.Actions.{stop_action}
use new_era.Tui.Connect.{
  endpoint_at, or_label, or_cause, begin_queue, begin_connect_plan, try_next, retry_next_connect,
  or_else,
}
use new_era.Tui.Outcomes.{
  no_pending, probe_endpoint, run_pending, connect_failed, connect_succeeded, on_connect_finished,
}
use new_era.Tui.Update.{on_probe_timeout}

past_last : (es : List Endpoint) (i : ℕ) → length es ≤ i → endpoint_at es i ≡ none
past_last [] i h = refl
past_last (e ∷ es) ℕ.zero h = absurd (omega arith)
past_last (e ∷ es) (ℕ.suc i) h = past_last es i (omega arith)

last_before : (es : List Endpoint) (i : ℕ) → endpoint_at es i ≡ none → length es ≤ i
last_before [] i h = ground arith
last_before (e ∷ es) ℕ.zero h = absurd (cc)
last_before (e ∷ es) (ℕ.suc i) h = let l = last_before es i h in omega arith

-- The commands that connect to an endpoint, if there is one.
abbrev pub dial : Option Endpoint → List Cmd
dial none = []
dial (some e) = reconnect e ∷ []

module _ {S : Type 0} where
  -- What one failure does: it keeps the queue, and dials the next endpoint.
  abbrev Stepped : Option Endpoint → Model S → Model S × List Cmd → Type 0
  Stepped o m p =
      (p.0.plan.queue ≡ m.plan.queue)
      × (p.0.plan.attempt ≡ (elim o [ none ↦ m.plan.attempt | some e ↦ m.plan.attempt + 1 ]))
      × (p.1 ≡ dial o)

  tried :
      (label cause : Text) (x o : Option Endpoint) (m : Model S) (other : Model S × List Cmd)
      → x ≡ o
      → Stepped none m other
      → Stepped o m (or_else (try_next label cause (m.plan.attempt + 1) x m) other)
  tried label cause none none m other h s = s
  tried label cause none (some e) m other h s = absurd (cc)
  tried label cause (some e) none m other h s = absurd (cc)
  tried label cause (some e) (some d) m other h s = (refl, refl, cc)

  still :
      (o : Option Endpoint) (m : Model S) (other : Model S × List Cmd)
      → o ≡ none
      → Stepped none m other
      → Stepped o m other
  still none m other h s = s
  still (some e) m other h s = absurd (cc)

  failed :
      (error : Text) (o : Option Endpoint) (m : Model S)
      → endpoint_at m.plan.queue (m.plan.attempt + 1) ≡ o
      → Stepped o m (connect_failed error m)
  unfolding connect_failed retry_next_connect
  failed error o m h =
      let logged = push_log "connect error: %s" (str error ∷ []) m in
      let other : Model S × List Cmd =
        (set_status "Connect failed: %s" (str error ∷ []) (no_pending logged), []) in
      if_by (λ (q : Model S × Option (List Cmd)). Stepped o m (or_else q other))
        (length m.plan.queue == 0)
        (λ e.
          still o m other (sym h ∙ past_last m.plan.queue (m.plan.attempt + 1) (ground arith))
            (refl, refl, refl))
        (λ e.
          tried (or_label m.plan.action_label) (or_cause error)
            (endpoint_at m.plan.queue (m.plan.attempt + 1)) o logged other h (refl, refl, refl))

  -- So many connections that fail, one after the other.
  unfoldable pub after_failures : Endpoint → List Text → Model S × List Cmd → Model S × List Cmd
  unfolding on_connect_finished
  after_failures endpoint errors p =
      foldl (λ (q : Model S × List Cmd) error. on_connect_finished (some error) endpoint q.0) p
        errors

  -- After `k` failures the endpoint at `k` is dialled; beyond the last one the queue is at its end.
  abbrev Dialling : List Endpoint → ℕ → Model S × List Cmd → Type 0
  Dialling es k p =
      (p.0.plan.queue ≡ es)
      × (p.1 ≡ dial (endpoint_at es k))
      × ((p.0.plan.attempt ≡ k)
          ⊎ ((length es ≤ k) × (endpoint_at es (p.0.plan.attempt + 1) ≡ none)))

  next_at :
      (es : List Endpoint) (k : ℕ) (o : Option Endpoint) (m : Model S) (p : Model S × List Cmd)
      → m.plan.queue ≡ es
      → m.plan.attempt ≡ k
      → endpoint_at es (k + 1) ≡ o
      → Stepped o m p
      → Dialling es (k + 1) p
  next_at es k none m p q a h (sq, sa, sc) = (
    sq ∙ q,
    sc ∙ ap dial (sym h),
    inr (last_before es (k + 1) h, ap (λ (i : ℕ). endpoint_at es (i + 1)) (sa ∙ a) ∙ h),
  )
  next_at es k (some e) m p q a h (sq, sa, sc) =
      (sq ∙ q, sc ∙ ap dial (sym h), inl (sa ∙ ap (λ (i : ℕ). i + 1) a))

  past_end :
      (es : List Endpoint) (k : ℕ) (m : Model S) (p : Model S × List Cmd)
      → m.plan.queue ≡ es
      → length es ≤ k
      → endpoint_at es (m.plan.attempt + 1) ≡ none
      → Stepped none m p
      → Dialling es (k + 1) p
  past_end es k m p q l h (sq, sa, sc) = (
    sq ∙ q,
    sc ∙ ap dial (sym (past_last es (k + 1) (omega arith))),
    inr (omega arith, ap (λ (i : ℕ). endpoint_at es (i + 1)) sa ∙ h),
  )

  one_failure :
      (endpoint : Endpoint) (error : Text) (es : List Endpoint) (k : ℕ) (p : Model S × List Cmd)
      → Dialling es k p
      → Dialling es (k + 1) (on_connect_finished (some error) endpoint p.0)
  unfolding on_connect_finished
  one_failure endpoint error es k (m, cmds) (q, c, inl a) =
      let done = record m { plan = record m.plan { active = false } } in
      let here : endpoint_at m.plan.queue (m.plan.attempt + 1) ≡ endpoint_at es (k + 1) =
        λ i. endpoint_at (q i) (a i + 1) in
      next_at es k (endpoint_at es (k + 1)) done (connect_failed error done) q a refl
        (failed error (endpoint_at es (k + 1)) done here)
  one_failure endpoint error es k (m, cmds) (q, c, inr (l, h)) =
      let done = record m { plan = record m.plan { active = false } } in
      let here : endpoint_at m.plan.queue (m.plan.attempt + 1) ≡ none =
        ap (λ (fs : List Endpoint). endpoint_at fs (m.plan.attempt + 1)) q ∙ h in
      past_end es k done (connect_failed error done) q l h (failed error none done here)

  failures :
      (endpoint : Endpoint) (errors : List Text) (es : List Endpoint) (k : ℕ)
      (p : Model S × List Cmd)
      → Dialling es k p
      → (after_failures endpoint errors p).1 ≡ dial (endpoint_at es (k + length errors))
  unfolding after_failures
  failures endpoint [] es k (m, cmds) (q, c, r) =
      c ∙ ap (λ (i : ℕ). dial (endpoint_at es i)) (omega arith)
  failures endpoint (error ∷ errors) es k p d =
      failures endpoint errors es (k + 1) (on_connect_finished (some error) endpoint p.0)
        (one_failure endpoint error es k p d)
      ∙ ap (λ (i : ℕ). dial (endpoint_at es i)) (omega arith)

  begun :
      (label : String) (es : List Endpoint) (m : Model S) → Dialling es 0 (begin_queue label es m)
  unfolding begin_queue
  begun label [] m = (refl, refl, inl refl)
  begun label (e ∷ es) m = (refl, refl, inl refl)

  -- After a list of errors, one for each connection of a plan that failed, the program
  -- connects to the endpoint of the plan at the length of the list, and to none if the plan
  -- is no longer than that.
  pub begin_connect_plan_walks :
      (label : String) (preferred : ℕ) (endpoint : Endpoint) (errors : List Text) (m : Model S)
      → (after_failures endpoint errors (begin_connect_plan label preferred m)).1
        ≡ dial (
            endpoint_at
              (build_connect_plan m.plan.candidates preferred m.scan_ports)
              (length errors))
  unfolding begin_connect_plan
  begin_connect_plan_walks label preferred endpoint errors m =
      let es = build_connect_plan m.plan.candidates preferred m.scan_ports in
      failures endpoint errors es 0 (begin_connect_plan label preferred m) (begun label es m)
      ∙ ap (λ (i : ℕ). dial (endpoint_at es i)) (omega arith)

  -- Once a connection succeeds while no action is pending, a timeout of its probe only disconnects:
  -- whatever endpoints the plan had left are not tried.
  pub probe_timeout_gives_up :
      (endpoint : Endpoint) (m : Model S)
      → m.plan.pending_action ≡ none
      → (on_probe_timeout (on_connect_finished none endpoint m).0).1 ≡ disconnect_reader ∷ []
  unfolding on_connect_finished connect_succeeded run_pending probe_endpoint on_probe_timeout
      retry_next_connect
  probe_timeout_gives_up endpoint m h = rw h refl

  -- A connection that succeeds while no action is pending ends the reading without telling the bot,
  -- and to stop the reading then does not tell it either.
  pub reconnect_keeps_scan :
      (endpoint : Endpoint) (m : Model S)
      → m.plan.pending_action ≡ none
      → let after = (on_connect_finished none endpoint m).0 in
        (after.reading.running ≡ false)
        × (after.bot_calls ≡ m.bot_calls)
        × ((stop_action after).0.bot_calls ≡ m.bot_calls)
  unfolding on_connect_finished connect_succeeded run_pending probe_endpoint stop_action
  reconnect_keeps_scan endpoint m h = rw h (refl, refl, refl)
