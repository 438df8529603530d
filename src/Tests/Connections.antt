-- ===== src/Tests/Connections.antt =====
-- The connection of client/replica_conn.go at concrete requests.
use red_lease.Prelude.{
  ℕ, ◌<◌, ◌≡◌, refl, [], ◌∷◌, ◌++◌, Option, none, some, true, false, arith, ◌≤◌, ◌⊎◌, length,
}
use red_lease.Protocol.{Response}
use red_lease.Wire.{OutboundRequest}
use red_lease.Client.Connection.{
  ReplicaConn, ConnError, replica_closed, broken, new_replica_conn, submit_for_operation,
  close_conn, pending_shard_count,
}
use red_lease.Client.Connection.Pending.{sent}
use red_lease.Client.Connection.Account.{Ledger, submits, Reach, start, next, Account, times}
use red_lease.Client.Connection.Account.Total.{Reach-Account, submit-total, close_conn-answers}
use red_lease.Client.Connection.Manage.{
  Managed, Event, stopped, opened_connection, open_failed, wait_cancelled, new_managed, manage,
  readiness, Enabled, opens, fails, gives_up, advances, Manages, here, followed,
}
use red_lease.Client.Connection.Manage.Life.{Sound, Woken, manage-Sound, new_managed-Sound}
use red_lease.Client.Connection.Manage.Stops.{run, manage-stops}
use red_lease.Client.Ready.{ready_count, wait_ready, state_changed, client_over}
use red_lease.Client.Ready.Wakes.{ready_count-wakes}

abbrev asked : ℕ → OutboundRequest
asked id = record {
  request_id = id;
  key = 7;
  sequence = 1;
  ttl_ms = 1000;
  client_id = 1;
  boot_id = 2;
  operation = 1;
}

abbrev answer : ℕ → Response
answer id = record { request_id = id; operation = 1; status = 1; ttl_ms = 900 }

abbrev submitted : Option (Option ConnError × ReplicaConn)
submitted = submit_for_operation none (new_replica_conn 0) (asked 5) 9

-- The connection after the submission.
abbrev conn_of : Option (Option ConnError × ReplicaConn) → ReplicaConn
conn_of none = new_replica_conn 0
conn_of (some (e, c)) = c

-- The channel 9 waits for the request 5, and no response came.
abbrev one_pending : Ledger
one_pending = record { conn = conn_of submitted; accepted = 5 ∷ []; results = [] }

one_pending-Reach : Reach 0 one_pending
unfolding submit_for_operation new_replica_conn
one_pending-Reach = next start (submits none (asked 5) 9 none (conn_of submitted) refl refl)

Reach-Account_example : Account one_pending
Reach-Account_example = Reach-Account 0 one_pending one_pending-Reach

submit-total_example :
    (r : Option ConnError × ReplicaConn) × (submit_for_operation none one_pending.conn (asked 21) 8
      ≡ some r)
submit-total_example = submit-total 0 one_pending one_pending-Reach none (asked 21) 8

close_conn-answers_example :
    ((k : ℕ) → sent ((close_conn one_pending.conn).1 ++ []) k ≡ times (5 ∷ []) k)
    × ((i : ℕ)
        → i < pending_shard_count
        → ((close_conn one_pending.conn).0.shards i).pending ≡ none)
    × ((close_conn one_pending.conn).0.req_queue ≡ [])
close_conn-answers_example = close_conn-answers 0 one_pending one_pending-Reach

-- The close of the connection tells the channel that it is closed.
closed-told :
    (close_conn one_pending.conn).1
    ≡ record {
      destination = 9;
      response = record { replica = 0; request_id = 5; result = broken replica_closed };
    }
      ∷ []
unfolding close_conn submit_for_operation new_replica_conn
closed-told = refl

-- The first connection is open.
abbrev connected : Managed
connected = manage new_managed new_managed.phase opened_connection

connected-Manages : Manages new_managed connected
connected-Manages = followed here (advances opened_connection (opens 0))

manage-Sound_example : Sound connected × Woken new_managed.state connected.state
manage-Sound_example = manage-Sound new_managed connected new_managed-Sound connected-Manages

connected-ready : (readiness connected.state).0 ≡ true
unfolding readiness manage
connected-ready = refl

-- The context is done while manage dials.
abbrev ending : Managed
ending = record new_managed { cancelled = true }

abbrev failed : Managed
failed = manage ending ending.phase open_failed

failed-waits : Enabled failed.cancelled failed.phase wait_cancelled
unfolding manage
failed-waits = gives_up 0 refl

manage-stops_example :
    (length (open_failed ∷ wait_cancelled ∷ []) ≤ 2)
    × (((run ending (open_failed ∷ wait_cancelled ∷ [])).phase ≡ stopped)
        ⊎ ((e : Event) × Enabled true (run ending (open_failed ∷ wait_cancelled ∷ [])).phase e))
manage-stops_example =
    manage-stops ending (open_failed ∷ wait_cancelled ∷ []) refl (fails 0, (failed-waits, tt))

-- Every replica comes to be connected while WaitReady waits.
none_ready : ready_count (λ j. new_managed.state) 3 < ready_count (λ j. connected.state) 3
unfolding ready_count readiness manage
none_ready = omega arith

ready_count-wakes_example :
    (j : ℕ) × (j < 3) × (new_managed.state.changed < connected.state.changed)
ready_count-wakes_example =
    ready_count-wakes (λ j. new_managed) (λ j. connected) 3 (λ j. here) (λ j. connected-Manages)
      none_ready

-- Two passes of WaitReady, the second of which finds three of three connected.
waited-ready :
    wait_ready 3 2 (
      record {
        caller = none;
        cancelled = false;
        states = λ j. new_managed.state;
        event = state_changed;
      }
      ∷ record {
        caller = none;
        cancelled = false;
        states = λ j. connected.state;
        event = client_over;
      }
      ∷ [])
    ≡ some none
unfolding wait_ready ready_count readiness manage
waited-ready = refl
