-- ===== src/Gobot/Reader/Lifecycle.antt =====
-- The steps that the callers of the manager and its goroutines take in any order, and what they keep:
-- one loop at a time, and each channel closed once.
use new_era.Prelude.{
  ℕ, ◌<◌, ◌≡◌, refl, ap, sym, ◌∙◌, ◌⊎◌, inl, inr, Bool, true, false, not, ◌||◌, Option, none, some,
  List, [], ◌∷◌, if_by, if_keeps, arith,
}
use new_era.Prelude.Keys.{nat_eq, contains, delete, contains-delete}
use new_era.Prelude.Text.{Text, is_empty, trim_space}
use new_era.Gobot.Reader.{
  Manager, new, start, take_cancel, stop_begin, stop_cancel, finish_stopped, close_done, set_error,
  set_connected, set_disconnected, count_restart, Received, context_done, tags_closed,
  errors_closed, tag, failed, consume_round,
}

-- One critical section, or the call of cancel after that of Stop. A loop takes its steps while it is active; `close` is the deferred close of
-- the channel of a run that came to its end.
pub data Step : Manager → Manager → Type 0 where
  starts : (now : ℕ) (m : Manager) → Step m (start now m)
  stops : (m : Manager) → Step m (stop_begin m).0
  cancels : (r : ℕ) (m : Manager) → contains r m.cancelling ≡ true → Step m (stop_cancel r m)
  finishes : (r : ℕ) (m : Manager) → contains r m.active ≡ true → Step m (finish_stopped r m)
  closes : (r : ℕ) (m : Manager) → contains r m.closing ≡ true → Step m (close_done r m)
  fails : (error : Text) (m : Manager) → Step m (set_error error m)
  connects : (endpoint : Text) (m : Manager) → Step m (set_connected endpoint m)
  disconnects : (m : Manager) → Step m (set_disconnected m)
  restarts : (m : Manager) → Step m (count_restart m)
  receives : (event : Received) (m : Manager) → Step m (consume_round event m).0

pub data Reaches : Manager → Manager → Type 0 where
  here : (m : Manager) → Reaches m m
  next : {a b c : Manager} → Reaches a b → Step b c → Reaches a c

-- No loop while the manager is stopped, and else the one whose channel it has.
abbrev pub HasOneLoop : Bool → Option ℕ → List ℕ → Type 0
HasOneLoop running done active =
    ((running ≡ false) × (active ≡ []))
    ⊎ ((r : ℕ) × (running ≡ true) × (done ≡ some r) × (active ≡ r ∷ []))

-- The context of the run is cancelled, or a Stop has taken its cancel function and is to call it.
abbrev pub IsEnding : ℕ → List ℕ → List ℕ → Type 0
IsEnding r cancelling cancelled = (contains r cancelling || contains r cancelled) ≡ true

-- The run whose channel the manager has is ending, or the manager can cancel it.
abbrev pub CanStop : Option ℕ → Option ℕ → List ℕ → List ℕ → Type 0
CanStop done cancel cancelling cancelled =
    (r : ℕ) → done ≡ some r → (cancel ≡ some r) ⊎ IsEnding r cancelling cancelled

-- The runs are told apart by their numbers, and no closed channel is about to be closed.
pub record Tidy (runs : ℕ) (active closing closed : List ℕ) : Type 0 where
  pub active_known : (r : ℕ) → contains r active ≡ true → r < runs
  pub closing_known : (r : ℕ) → contains r closing ≡ true → r < runs
  pub closed_known : (r : ℕ) → contains r closed ≡ true → r < runs
  pub active_open :
      (r : ℕ) → contains r active ≡ true → (contains r closing || contains r closed) ≡ false
  pub closing_open : (r : ℕ) → contains r closing ≡ true → contains r closed ≡ false

abbrev pub Inv : Manager → Type 0
Inv m =
    HasOneLoop m.running m.done m.active
    × Tidy m.runs m.active m.closing m.closed
    × CanStop m.done m.cancel m.cancelling m.cancelled

start-Inv : (now : ℕ) (m : Manager) → Inv m → Inv (start now m)
unfolding start contains
start-Inv now m (inr (r, on, d, a), t, c) =
    if_by Inv m.running (λ h. (inr (r, on, d, a), t, c)) (λ h. absurd (cc))
start-Inv now m (inl (off, a), t, c) =
    if_by Inv m.running (λ h. absurd (cc))
      (λ h. (
        inr (m.runs, refl, refl, ap (λ (rs : List ℕ). m.runs ∷ rs) a),
        record {
          active_known = λ r k. ground (arith, t.active_known r);
          closing_known = λ r k. ground (arith, t.closing_known r);
          closed_known = λ r k. ground (arith, t.closed_known r);
          active_open = λ r k. ground (arith, t.active_open r, t.closing_known r, t.closed_known r);
          closing_open = t.closing_open;
        },
        λ r h. inl h,
      ))

delete_only : (r b : ℕ) → contains r (b ∷ []) ≡ true → delete r (b ∷ []) ≡ []
unfolding contains delete
delete_only r b h = ground arith

-- The loop that ends was the only one.
emptied :
    (r : ℕ) (running : Bool) (done : Option ℕ) (active : List ℕ)
    → contains r active ≡ true
    → HasOneLoop running done active
    → delete r active ≡ []
unfolding delete
emptied r running own active k (inl (off, e)) = ap (delete r) e
emptied r running own active k (inr (b, on, d, e)) =
    ap (delete r) e ∙ delete_only r b (sym (ap (contains r) e) ∙ k)

finish_stopped-Inv :
    (r : ℕ) (m : Manager) → contains r m.active ≡ true → Inv m → Inv (finish_stopped r m)
unfolding finish_stopped contains
finish_stopped-Inv r m k (loop, t, c) = (
  inl (refl, emptied r m.running m.done m.active k loop),
  record {
    active_known = λ i h. ground (arith, t.active_known i, contains-delete i r m.active);
    closing_known = λ i h. ground (arith, t.closing_known i, t.active_known i);
    closed_known = t.closed_known;
    active_open = λ i h. ground (arith, t.active_open i, contains-delete i r m.active);
    closing_open = λ i h. ground (arith, t.closing_open i, t.active_open i);
  },
  λ i h. absurd (cc),
)

close_done-Inv : (r : ℕ) (m : Manager) → contains r m.closing ≡ true → Inv m → Inv (close_done r m)
unfolding close_done contains
close_done-Inv r m k (loop, t, c) = (
  loop,
  record {
    active_known = t.active_known;
    closing_known = λ i h. ground (arith, t.closing_known i, contains-delete i r m.closing);
    closed_known = λ i h. ground (arith, t.closed_known i, t.closing_known i);
    active_open = λ i h. ground (arith, t.active_open i, contains-delete i r m.closing);
    closing_open = λ i h. ground (arith, t.closing_open i, contains-delete i r m.closing);
  },
  c,
)

-- What Stop takes it is to cancel.
take_cancel-IsEnding :
    (r : ℕ) (cancel : Option ℕ) (cancelling cancelled : List ℕ)
    → ((cancel ≡ some r) ⊎ IsEnding r cancelling cancelled)
    → IsEnding r (take_cancel cancel cancelling) cancelled
unfolding contains
take_cancel-IsEnding r none cancelling cancelled (inl h) = absurd (cc)
take_cancel-IsEnding r none cancelling cancelled (inr h) = h
take_cancel-IsEnding r (some i) cancelling cancelled (inl h) =
    let here : i ≡ r = ap (λ (x : Option ℕ). elim x [ none ↦ i | some y ↦ y ]) h in
    ground (arith, here)
take_cancel-IsEnding r (some i) cancelling cancelled (inr h) = ground (arith, h)

stop_begin-Inv : (m : Manager) → Inv m → Inv (stop_begin m).0
unfolding stop_begin
stop_begin-Inv m (loop, t, c) =
    (loop, t, λ r h. inr (take_cancel-IsEnding r m.cancel m.cancelling m.cancelled (c r h)))

-- The call of cancel for one run keeps the others as they were.
delete-IsEnding :
    (r i : ℕ) (cancelling cancelled : List ℕ)
    → IsEnding r cancelling cancelled
    → IsEnding r (delete i cancelling) (i ∷ cancelled)
unfolding contains
delete-IsEnding r i cancelling cancelled h = ground (arith, h, contains-delete r i cancelling)

stop_cancel-Inv : (i : ℕ) (m : Manager) → Inv m → Inv (stop_cancel i m)
unfolding stop_cancel
stop_cancel-Inv i m (loop, t, c) = (
  loop,
  t,
  λ r h. elim (c r h) [
    | inl held ↦ inl held
    | inr ending ↦ inr (delete-IsEnding r i m.cancelling m.cancelled ending)
  ],
)

consume_round-Inv : (event : Received) (m : Manager) → Inv m → Inv (consume_round event m).0
unfolding consume_round set_error
consume_round-Inv context_done m v = v
consume_round-Inv tags_closed m v = v
consume_round-Inv errors_closed m v = v
consume_round-Inv (tag now is_new raw) m v =
    if_keeps (λ (p : Manager × Option Bool). Inv p.0) (not is_new) v
      (if_keeps (λ (p : Manager × Option Bool). Inv p.0) (is_empty (trim_space raw)) v v)
consume_round-Inv (failed none) m v = v
consume_round-Inv (failed (some error)) m v = v

step-Inv : {a b : Manager} → Step a b → Inv a → Inv b
unfolding set_error set_connected set_disconnected count_restart
step-Inv (starts now m) v = start-Inv now m v
step-Inv (stops m) v = stop_begin-Inv m v
step-Inv (cancels i m k) v = stop_cancel-Inv i m v
step-Inv (finishes r m k) v = finish_stopped-Inv r m k v
step-Inv (closes r m k) v = close_done-Inv r m k v
step-Inv (fails error m) v = v
step-Inv (connects endpoint m) v = v
step-Inv (disconnects m) v = v
step-Inv (restarts m) v = v
step-Inv (receives event m) v = consume_round-Inv event m v

Reaches-Inv : {a b : Manager} → Reaches a b → Inv a → Inv b
Reaches-Inv (here m) v = v
Reaches-Inv (next path step) v = step-Inv step (Reaches-Inv path v)

new-Inv : Inv new
unfolding contains
new-Inv = (
  inl (refl, refl),
  record {
    active_known = λ r h. absurd (cc);
    closing_known = λ r h. absurd (cc);
    closed_known = λ r h. absurd (cc);
    active_open = λ r h. absurd (cc);
    closing_open = λ r h. absurd (cc);
  },
  λ r h. absurd (cc),
)

-- However the callers of a new manager and its goroutines take turns, a stopped manager has no loop
-- and a running one the single loop whose channel it has; and a channel that a loop is about to
-- close has not been closed.
pub one_loop_at_a_time :
    (m : Manager)
    → Reaches new m
    → HasOneLoop m.running m.done m.active
      × ((r : ℕ) → contains r m.closing ≡ true → contains r m.closed ≡ false)
one_loop_at_a_time m path = let (loop, t, c) = Reaches-Inv path new-Inv in (loop, t.closing_open)

runs_loop :
    (r : ℕ) (running : Bool) (done : Option ℕ) (active : List ℕ)
    → HasOneLoop running done active
    → done ≡ some r
    → running ≡ true
    → active ≡ r ∷ []
runs_loop r running own active (inl (off, a)) h on = absurd (cc)
runs_loop r running own active (inr (i, _, d, a)) h on =
    let same_run : i ≡ r = ap (λ (x : Option ℕ). elim x [ none ↦ i | some y ↦ y ]) (sym d ∙ h) in
    a ∙ ap (λ (j : ℕ). j ∷ []) same_run

-- A run that is ending stays so in every step.
abbrev EndingIn : ℕ → Manager → Type 0
EndingIn r m = IsEnding r m.cancelling m.cancelled

consume_round-EndingIn :
    (r : ℕ) (event : Received) (m : Manager) → EndingIn r m → EndingIn r (consume_round event m).0
unfolding consume_round set_error
consume_round-EndingIn r context_done m v = v
consume_round-EndingIn r tags_closed m v = v
consume_round-EndingIn r errors_closed m v = v
consume_round-EndingIn r (tag now is_new raw) m v =
    if_keeps (λ (p : Manager × Option Bool). EndingIn r p.0) (not is_new) v
      (if_keeps (λ (p : Manager × Option Bool). EndingIn r p.0) (is_empty (trim_space raw)) v v)
consume_round-EndingIn r (failed none) m v = v
consume_round-EndingIn r (failed (some error)) m v = v

step-EndingIn : (r : ℕ) {a b : Manager} → Step a b → EndingIn r a → EndingIn r b
unfolding start stop_begin stop_cancel finish_stopped close_done set_error set_connected
    set_disconnected count_restart
step-EndingIn r (starts now m) v = if_keeps (EndingIn r) m.running v v
step-EndingIn r (stops m) v = take_cancel-IsEnding r m.cancel m.cancelling m.cancelled (inr v)
step-EndingIn r (cancels i m k) v = delete-IsEnding r i m.cancelling m.cancelled v
step-EndingIn r (finishes i m k) v = v
step-EndingIn r (closes i m k) v = v
step-EndingIn r (fails error m) v = v
step-EndingIn r (connects endpoint m) v = v
step-EndingIn r (disconnects m) v = v
step-EndingIn r (restarts m) v = v
step-EndingIn r (receives event m) v = consume_round-EndingIn r event m v

Reaches-EndingIn : (r : ℕ) {a b : Manager} → Reaches a b → EndingIn r a → EndingIn r b
Reaches-EndingIn r (here m) v = v
Reaches-EndingIn r (next path step) v = step-EndingIn r step (Reaches-EndingIn r path v)

-- However they take turns, the run that a Stop of a running manager waits for is the one whose loop
-- is active at its critical section; and from then on, whatever turns follow, the context of that run
-- is cancelled, or a Stop has taken its cancel function and not called it yet.
pub stop_waits_for_cancelled :
    (m later : Manager) (r : ℕ)
    → Reaches new m
    → m.running ≡ true
    → (stop_begin m).1 ≡ some r
    → Reaches (stop_begin m).0 later
    → (m.active ≡ r ∷ []) × ((contains r later.cancelling || contains r later.cancelled) ≡ true)
unfolding stop_begin
stop_waits_for_cancelled m later r path on h after =
    let (loop, t, c) = Reaches-Inv path new-Inv in
    (
      runs_loop r m.running m.done m.active loop h on,
      Reaches-EndingIn r after (take_cancel-IsEnding r m.cancel m.cancelling m.cancelled (c r h)),
    )
