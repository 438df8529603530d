-- ===== src/Client/Connection/Account.antt =====
-- Every accepted request is still pending or has had its one result, in any interleaving of the callers, the
-- workers and the end of a connection.
pub mod Moves
pub mod Submit
pub mod Total
use red_lease.Prelude.{
  ℕ, zero, suc, ◌+◌, ◌%◌, ◌≤◌, ◌<◌, ◌≡◌, ◌≢◌, refl, ap, sym, ◌∙◌, subst, arith, Bool, true, false,
  List, [], ◌∷◌, ◌++◌, Option, none, some, ◌==◌, if◌then◌else◌, Bool-cases, Option-cases, inl, inr,
  ℕ_discrete, update, length,
}
use red_lease.Protocol.{Response}
use red_lease.Wire.{OutboundRequest}
use red_lease.Client.Connection.{
  ReplicaConn, PendingShard, ConnError, send_queue_full, ConnResult, Delivery, lookup, delete,
  deliveries, pending_shard_count, pending_shard_index, set_pending, try_enqueue,
  submit_no_response, submit_for_operation, submit_pending, complete, complete_in_shard,
  receive_response, complete_responses, next_outbound, fail_shard, cancel, new_replica_conn,
  req_queue_capacity, response_queue_capacity,
}
use red_lease.Client.Connection.Pending.{
  same, entries, held, sent, sent-append, entries-delete-same, entries-delete-other, lookup-none,
  lookup-some, sent-deliveries,
}

-- The connection, the identifiers of the requests that it accepted, and the results that it sent.
pub record Ledger : Type 0 where
  pub conn : ReplicaConn
  pub accepted : List ℕ
  pub results : List Delivery

abbrev pub times : List ℕ → ℕ → ℕ
times [] k = 0
times (j ∷ rest) k = same j k + times rest k

abbrev pub accept : Option ConnError → ℕ → List ℕ → List ℕ
accept none k ids = k ∷ ids
accept (some e) k ids = ids

-- A client never uses an identifier twice, and fails the pending requests only once the context is done.
pub data Step (s : Ledger) : Ledger → Type 0 where
  submits :
      (caller : Option ℕ) (request : OutboundRequest) (operation : ℕ) (e : Option ConnError)
      (c : ReplicaConn)
      → times s.accepted request.request_id ≡ 0
      → submit_for_operation caller s.conn request operation ≡ some (e, c)
      → Step s (record {
        conn = c;
        accepted = accept e request.request_id s.accepted;
        results = s.results;
      })
  releases :
      (request : OutboundRequest)
      → Step s (record s { conn = (submit_no_response s.conn request).1 })
  completes :
      (request_id : ℕ) (result : ConnResult)
      → Step s (record s {
        conn = (complete s.conn request_id result).0;
        results = (complete s.conn request_id result).1 ++ s.results;
      })
  receives :
      (response : Response) (c : ReplicaConn)
      → receive_response s.conn response ≡ some c
      → Step s (record s { conn = c })
  works :
      (i : ℕ)
      → Step s (record s {
        conn = (complete_responses s.conn i (s.conn.shards i).responses).0;
        results = (complete_responses s.conn i (s.conn.shards i).responses).1 ++ s.results;
      })
  sends : Step s (record s { conn = (next_outbound s.conn s.conn.req_queue).1 })
  cancels : Step s (record s { conn = cancel s.conn })
  fails :
      (i : ℕ) (result : ConnResult)
      → s.conn.cancelled ≡ true
      → Step s (record s {
        conn = (fail_shard s.conn result i (s.conn.shards i).pending).0;
        results = (fail_shard s.conn result i (s.conn.shards i).pending).1 ++ s.results;
      })

-- Any sequence of steps of a new connection.
pub data Reach (index : ℕ) : Ledger → Type 0 where
  start : Reach index (record { conn = new_replica_conn index; accepted = []; results = [] })
  next : {s t : Ledger} → Reach index s → Step s t → Reach index t

abbrev pub held_at : ReplicaConn → ℕ → ℕ → ℕ
held_at c i k = held (c.shards i).pending k

-- The maps of a connection whose context is not done.
abbrev pub IsOpen : ReplicaConn → Type 0
IsOpen c = c.cancelled ≡ false → (i : ℕ) → (xs : List (ℕ × ℕ)) × ((c.shards i).pending ≡ some xs)

pub record Account (s : Ledger) : Type 0 where
  pub count :
      (k : ℕ) → sent s.results k + held_at s.conn (pending_shard_index k) k ≡ times s.accepted k
  pub once : (k : ℕ) → times s.accepted k ≤ 1
  pub alone : (i k : ℕ) → i ≢ pending_shard_index k → held_at s.conn i k ≡ 0
  pub is_open : IsOpen s.conn

-- A change of the connection that turns pending requests into the given results.
pub record Moved (c d : ReplicaConn) (ds : List Delivery) : Type 0 where
  pub kept :
      (k : ℕ)
      → sent ds k + held_at d (pending_shard_index k) k ≡ held_at c (pending_shard_index k) k
  pub fewer : (i k : ℕ) → held_at d i k ≤ held_at c i k
  pub is_open : IsOpen d

pub Moved-Account :
    (s : Ledger) (d : ReplicaConn) (ds : List Delivery)
    → Account s
    → Moved s.conn d ds
    → Account (record s { conn = d; results = ds ++ s.results })
Moved-Account s d ds inv m = record {
  count = λ k. omega (arith, inv.count k, m.kept k, sent-append ds s.results k);
  once = inv.once;
  alone = λ i k ne. omega (arith, inv.alone i k ne, m.fewer i k);
  is_open = m.is_open;
}

-- A change that leaves the maps alone.
pub unmoved :
    (c d : ReplicaConn)
    → ((i : ℕ) → (d.shards i).pending ≡ (c.shards i).pending)
    → IsOpen d
    → Moved c d []
unmoved c d e stays = record {
  kept = λ k. omega (arith, ap (λ x. held x k) (e (pending_shard_index k)));
  fewer = λ i k. omega (arith, ap (λ x. held x k) (e i));
  is_open = stays;
}
