-- ===== src/Client/Connection/Manage.antt =====
-- The goroutine of client/replica_conn.go that connects again and again, and the state that Close and
-- WaitReady share with it. A generation is the number of the attempt that opened it.
pub mod Life
pub mod Stops
use red_lease.Prelude.{
  ℕ, zero, suc, ◌+◌, ◌≡◌, Bool, true, false, not, ◌&&◌, List, [], ◌∷◌, Option, none, some, ◌==◌,
  if◌then◌else◌,
}

-- `changed` counts the channels that notifyStateChangeLocked closed.
pub record ConnState : Type 0 where
  pub generation : Option ℕ
  pub closed : Bool
  pub changed : ℕ

abbrev pub new_conn_state : ConnState
new_conn_state = record { generation = none; closed = false; changed = 0 }

unfoldable pub notify_state_change : ConnState → ConnState
notify_state_change m = record m { changed = suc m.changed }

unfoldable pub is_generation : Option ℕ → ℕ → Bool
is_generation none g = false
is_generation (some h) g = h == g

unfoldable pub readiness : ConnState → Bool × Bool × ℕ
readiness m = (elim m.generation [ none ↦ false | some g ↦ not m.closed ], m.closed, m.changed)

unfoldable pub publish : ConnState → ℕ → Bool × ConnState
unfolding notify_state_change
publish m g =
    if m.closed then (false, m) else (true, notify_state_change (record m { generation = some g }))

unfoldable pub clear : ConnState → ℕ → ConnState
unfolding notify_state_change is_generation
clear m g =
    if is_generation m.generation g then notify_state_change (record m { generation = none }) else m

-- The new state, and the generation that Close has to close.
unfoldable pub mark_closed : ConnState → ConnState × Option ℕ
unfolding notify_state_change
mark_closed m = (notify_state_change (record m { closed = true; generation = none }), m.generation)

-- Where manage is: in open, in the select on a published generation, in waitBeforeRetry, or returned.
pub data Phase : Type 0 where
  opening : ℕ → Phase
  serving : ℕ → Phase
  pausing : ℕ → Phase
  stopped : Phase

-- `cancelled` says that the context is done; `opened` and `shut` list the generations that manage opened and
-- those that it closed.
pub record Managed : Type 0 where
  pub state : ConnState
  pub cancelled : Bool
  pub phase : Phase
  pub opened : List ℕ
  pub shut : List ℕ

-- What manage waits for: open fails or gives a connection, the generation is done, the wait ends with true, or
-- the context ends it.
pub data Event : Type 0 where
  open_failed opened_connection generation_done waited wait_cancelled : Event

-- The number of the next connection.
abbrev pub fresh : List ℕ → ℕ
fresh [] = 0
fresh (g ∷ rest) = suc g

unfoldable pub established : Managed → ℕ → Bool × ConnState → Managed
established w g (true, m) = record w { state = m; phase = serving g; opened = g ∷ w.opened }
established w g (false, m) = record w {
  state = m;
  phase = stopped;
  opened = g ∷ w.opened;
  shut = g ∷ w.shut;
}

-- manage from one wait to the next.
unfoldable pub manage : Managed → Phase → Event → Managed
unfolding established publish clear
manage w (opening attempt) open_failed = record w { phase = pausing attempt }
manage w (opening attempt) opened_connection =
    let g = fresh w.opened in established w g (publish w.state g)
manage w (serving g) generation_done = record w {
  state = clear w.state g;
  phase = if w.cancelled then stopped else pausing 0;
  shut = g ∷ w.shut;
}
manage w (pausing attempt) waited = record w { phase = opening (suc attempt) }
manage w (pausing attempt) wait_cancelled = record w { phase = stopped }
manage w p e = w

abbrev pub new_managed : Managed
new_managed = record {
  state = new_conn_state;
  cancelled = false;
  phase = opening 0;
  opened = [];
  shut = [];
}

-- Which waits can end: one of waitBeforeRetry ends with true only while the context is not done.
pub data Enabled (cancelled : Bool) : Phase → Event → Type 0 where
  fails : (attempt : ℕ) → Enabled cancelled (opening attempt) open_failed
  opens : (attempt : ℕ) → Enabled cancelled (opening attempt) opened_connection
  finishes : (g : ℕ) → Enabled cancelled (serving g) generation_done
  elapses : (attempt : ℕ) → cancelled ≡ false → Enabled cancelled (pausing attempt) waited
  gives_up : (attempt : ℕ) → cancelled ≡ true → Enabled cancelled (pausing attempt) wait_cancelled

-- A step of manage, or of Close, which cancels the context before it marks the connection closed.
pub data ManageStep (w : Managed) : Managed → Type 0 where
  advances : (e : Event) → Enabled w.cancelled w.phase e → ManageStep w (manage w w.phase e)
  ends : ManageStep w (record w { cancelled = true })
  marks : w.cancelled ≡ true → ManageStep w (record w { state = (mark_closed w.state).0 })

pub data Manages (w : Managed) : Managed → Type 0 where
  here : Manages w w
  followed : {v u : Managed} → Manages w v → ManageStep v u → Manages w u
