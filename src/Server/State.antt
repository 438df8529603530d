-- ===== src/Server/State.antt =====
-- The operations of server/state.go on a whole server. One worker holds a shard's mutex through an
-- operation, and the operations of all workers are taken one after the other: the atomic counter of keys
-- is read and written without interference. `now` is the `time.Now()` that `apply` reads. The result
-- `none` is a run-time panic.
pub mod Inv
pub mod Steps
pub mod Acquire
pub mod Cleanup
pub mod Renew
pub mod Release
use red_lease.Prelude.{
  ℕ, zero, suc, ◌+◌, ◌-◌, ◌*◌, ◌/◌, ◌%◌, min, Bool, true, false, Option, none, some, List, [], ◌∷◌,
  ltb, leb, ◌==◌, if◌then◌else◌, update, ◌>>=◌,
}
use red_lease.Protocol.{Response, millisecond}
use red_lease.Protocol.LeaseStatus
use red_lease.Protocol.ClientOperation
use red_lease.Server.Shard.{
  Shard, LeaseId, id_eq, add_lease, remove_lease, extend_lease, remove_expired_leases,
}

-- The counts are those after resolveConfig; the logger is left out.
pub record Config : Type 0 where
  pub max_ttl : ℕ
  pub max_keys : ℕ
  pub shard_count : ℕ

pub data OperationKind : Type 0 where
  acquire_kind renew_kind release_kind : OperationKind

pub record Operation : Type 0 where
  pub request_id : ℕ
  pub kind : OperationKind
  pub key : ℕ
  pub lease_id : LeaseId
  pub requested_ttl_ms : ℕ

pub data Phase : Type 0 where
  quarantine active failed closed : Phase

pub record Totals : Type 0 where
  pub acquires : ℕ
  pub renews : ℕ
  pub releases : ℕ

-- What fail, Close and the quarantine timer write: the phase, whether `failOnce` has run, the context and
-- the connections, and how many errors were sent to the channel `fatal`.
pub record Life : Type 0 where
  pub phase : Phase
  pub fail_once : Bool
  pub cancelled : Bool
  pub connections_closed : Bool
  pub fatal : ℕ

pub record Server : Type 0 where
  pub config : Config
  pub keys : ℕ
  pub operation_totals : Totals
  pub shards : ℕ → Shard
  pub life : Life
  pub open life use *

abbrev pub put_shard : Server → ℕ → Shard → Server
put_shard s i t = record s { shards = update s.shards i t }

-- `failOnce.Do`, with the effects of `fail`; the log entry is left out.
unfoldable pub fail_life : Life → Life
fail_life l = elim l.fail_once [
  | true ↦ l
  | false ↦ elim l.phase [
    | closed ↦ record l { fail_once = true }
    | _ ↦ record {
      phase = failed;
      fail_once = true;
      cancelled = true;
      connections_closed = true;
      fatal = l.fatal + 1;
    }
  ]
]

unfoldable pub fail : Server → Server
unfolding fail_life
fail s = record s { life = fail_life s.life }

-- `none` when the limit is reached.
pub reserve_key : Server → Option Server
reserve_key s = if leb s.config.max_keys s.keys then none else some (record s { keys = s.keys + 1 })

pub release_keys : Server → ℕ → Server
unfolding fail
release_keys s count =
    if count == 0
    then s
    else if ltb s.keys count
    then fail s
    else record s { keys = s.keys - count }

pub remaining_ttl_ms : ℕ → ℕ → ℕ → ℕ
remaining_ttl_ms deadline now maximum = min ((deadline - now) / millisecond) maximum

abbrev pub acquire_response : ℕ → ℕ → ℕ → Response
acquire_response request_id status ttl_ms = record {
  request_id = request_id;
  operation = ClientOperation.acquire;
  status = status;
  ttl_ms = ttl_ms;
}

abbrev pub renew_response : ℕ → ℕ → ℕ → Response
renew_response request_id status ttl_ms = record {
  request_id = request_id;
  operation = ClientOperation.renew;
  status = status;
  ttl_ms = ttl_ms;
}

abbrev pub release_response : ℕ → ℕ → Response
release_response request_id status = record {
  request_id = request_id;
  operation = ClientOperation.release;
  status = status;
  ttl_ms = 0;
}

abbrev pub no_response : Response
no_response = record { request_id = 0; operation = 0; status = 0; ttl_ms = 0 }

-- The cleanup of the first `n` shards, with the number of leases deleted.
pub expire_shards : ℕ → (ℕ → Shard) → ℕ → Option (ℕ × (ℕ → Shard))
expire_shards zero shards now = some (0, shards)
expire_shards (suc n) shards now = expire_shards n shards now >>= λ (deleted, cleaned).
    remove_expired_leases (cleaned n) now >>= λ (count, t).
    some (deleted + count, update cleaned n t)

pub remove_expired_keys : Server → ℕ → Option Server
unfolding expire_shards release_keys
remove_expired_keys s now =
    expire_shards s.config.shard_count s.shards now >>= λ (deleted, cleaned).
    some (release_keys (record s { shards = cleaned }) deleted)

-- The end of acquireLocked, for a key that has no lease. The flag says that capacity is full.
pub grant : Server → ℕ → Operation → ℕ → ℕ → (Response × Bool) × Server
unfolding reserve_key
grant s i op now ttl_ms = elim (ttl_ms == 0) [
  | true ↦ ((acquire_response op.request_id LeaseStatus.ok 0, false), s)
  | false ↦ elim (reserve_key s) [
    | none ↦ ((no_response, true), s)
    | some s' ↦ (
      (acquire_response op.request_id LeaseStatus.ok ttl_ms, false),
      put_shard s' i (add_lease (s'.shards i) op.key op.lease_id (now + ttl_ms * millisecond)),
    )
  ]
]

-- A lease that is not expired is reported, and an expired one is removed.
pub acquire_found : Server → ℕ → ℕ → Operation → ℕ → ℕ → Option ((Response × Bool) × Server)
unfolding grant release_keys remaining_ttl_ms
acquire_found s i p op now ttl_ms =
    let shard = s.shards i in
    if ltb now (shard.deadline p)
    then if id_eq (shard.id p) op.lease_id
      then some (
        (
          acquire_response op.request_id LeaseStatus.already_owned
              (remaining_ttl_ms (shard.deadline p) now s.config.max_ttl),
          false,
        ),
        s,
      )
      else some ((acquire_response op.request_id LeaseStatus.busy 0, false), s)
    else remove_lease shard p >>= λ t.
        some (grant (release_keys (put_shard s i t) 1) i op now ttl_ms)

pub acquire_locked : Server → ℕ → Operation → ℕ → ℕ → Option ((Response × Bool) × Server)
unfolding acquire_found
acquire_locked s i op now ttl_ms = elim ((s.shards i).leases op.key) [
  | none ↦ some (grant s i op now ttl_ms)
  | some p ↦ acquire_found s i p op now ttl_ms
]

-- What follows the cleanup: one more attempt.
pub acquire_again : Server → ℕ → Operation → ℕ → ℕ → Option (Response × Server)
unfolding acquire_locked
acquire_again s i op now ttl_ms = acquire_locked s i op now ttl_ms >>= λ ((response, full), s').
    some (
      (if full then acquire_response op.request_id LeaseStatus.key_limit_reached 0 else response),
      s',
    )

abbrev pub effective_ttl_ms : Server → Operation → ℕ
effective_ttl_ms s op = min op.requested_ttl_ms s.config.max_ttl

unfoldable pub acquire : Server → ℕ → Operation → ℕ → Option (Response × Server)
unfolding acquire_locked acquire_again remove_expired_keys
acquire s i op now =
    let ttl_ms = effective_ttl_ms s op in
    acquire_locked s i op now ttl_ms >>= λ ((response, full), s').
    let retry = remove_expired_keys s' now >>= λ cleaned. acquire_again cleaned i op now ttl_ms in
    if full then retry else some (response, s')

-- Renew of the lease at `p`.
pub renew_found : Server → ℕ → ℕ → Operation → ℕ → Option (Response × Server)
unfolding release_keys remaining_ttl_ms
renew_found s i p op now =
    let shard = s.shards i in
    let stale = renew_response op.request_id LeaseStatus.stale 0 in
    let candidate = now + effective_ttl_ms s op * millisecond in
    let renewed = λ (deadline : ℕ).
      renew_response op.request_id LeaseStatus.ok
        (remaining_ttl_ms deadline now s.config.max_ttl) in
    let extended =
      extend_lease shard p candidate >>= λ t. some (renewed (t.deadline p), put_shard s i t) in
    let removed = remove_lease shard p >>= λ t. some (stale, release_keys (put_shard s i t) 1) in
    if ltb now (shard.deadline p)
    then if id_eq (shard.id p) op.lease_id
      then if ltb (shard.deadline p) candidate
        then extended
        else some (renewed (shard.deadline p), s)
      else some (stale, s)
    else removed

unfoldable pub renew : Server → ℕ → Operation → ℕ → Option (Response × Server)
unfolding renew_found
renew s i op now = elim ((s.shards i).leases op.key) [
  | none ↦ some (renew_response op.request_id LeaseStatus.stale 0, s)
  | some p ↦ renew_found s i p op now
]

-- Release of the lease at `p`.
pub release_found : Server → ℕ → ℕ → Operation → ℕ → Option (Response × Server)
unfolding release_keys
release_found s i p op now =
    let shard = s.shards i in
    let done = release_response op.request_id LeaseStatus.ok in
    let removed = remove_lease shard p >>= λ t. some (done, release_keys (put_shard s i t) 1) in
    if ltb now (shard.deadline p)
    then if id_eq (shard.id p) op.lease_id then removed else some (done, s)
    else removed

unfoldable pub release : Server → ℕ → Operation → ℕ → Option (Response × Server)
unfolding release_found
release s i op now = elim ((s.shards i).leases op.key) [
  | none ↦ some (release_response op.request_id LeaseStatus.ok, s)
  | some p ↦ release_found s i p op now
]

unfoldable pub count_operation : OperationKind → Totals → Totals
count_operation acquire_kind t = record t { acquires = t.acquires + 1 }
count_operation renew_kind t = record t { renews = t.renews + 1 }
count_operation release_kind t = record t { releases = t.releases + 1 }

-- A kind outside the enumeration, which no caller builds, is left out.
unfoldable pub run_operation :
    OperationKind → Server → ℕ → Operation → ℕ → Option (Response × Server)
unfolding acquire renew release
run_operation acquire_kind s i op now = acquire s i op now
run_operation renew_kind s i op now = renew s i op now
run_operation release_kind s i op now = release s i op now

unfoldable pub apply : Server → ℕ → Operation → ℕ → Option (Response × Server)
unfolding count_operation run_operation
apply s i op now =
    run_operation op.kind
      (record s { operation_totals = count_operation op.kind s.operation_totals }) i op now

-- A server that is not active drops the operation; the response goes to the session's queue.
unfoldable pub apply_operation : Server → ℕ → Operation → ℕ → Option (Option Response × Server)
unfolding apply
apply_operation s i op now =
    let answered = apply s i op now >>= λ (response, s'). some (some response, s') in
    elim s.phase [ active ↦ answered | _ ↦ some (none, s) ]

-- `maphash.Comparable(hashSeed, key) & s.shardMask`, for a power of two.
unfoldable pub shard_index : (ℕ → ℕ) → Server → ℕ → ℕ
shard_index hash s key = hash key % s.config.shard_count
