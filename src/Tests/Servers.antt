-- ===== src/Tests/Servers.antt =====
-- The operations of the server at concrete inputs.
use red_lease.Prelude.{
  ℕ, ◌+◌, ◌*◌, ◌⊎◌, Option, ◌≤◌, ◌<◌, ◌≡◌, refl, ap, true, false, none, some, [], ◌∷◌, arith,
}
use red_lease.Protocol.{Response, millisecond}
use red_lease.Protocol.LeaseStatus
use red_lease.Server.Heap.{push}
use red_lease.Server.Shard.{LeaseId, add_lease}
use red_lease.Server.State.{
  Server, Config, Operation, acquire_kind, active, acquire, renew, release, apply_operation,
  acquire_response, release_response, remove_expired_keys,
}
use red_lease.Server.State.Inv.{ServerInv}
use red_lease.Server.State.Cleanup.{Cleaned, remove_expired_keys-Cleaned}
use red_lease.Server.State.Acquire.{Acquired, acquire-Acquired}
use red_lease.Server.State.Renew.{Renewed, renew-Renewed}
use red_lease.Server.State.Release.{Released, release-Released}
use red_lease.Server.Safety.History.{Event, run_history, run_history_total}
use red_lease.Server.Lifecycle.{
  RawConfig, ConfigError, ok, err, empty_server, new_server, end_quarantine, here, next,
  quarantine_ends, failure, closing,
}
use red_lease.Server.State.{fail}
use red_lease.Server.Lifecycle.{close}
use red_lease.Server.Lifecycle.Phases.{rank, IsSound, Step-Advances, Reach-Advances}
use red_lease.Server.Lifecycle.Startup.{Accepted, Started, empty_server-Inv, new_server_decides}
use red_lease.Server.Lifecycle.Restart.{Clocked, waits, timer, quarantine_outlasts}
use red_lease.Server.Lifecycle.Restart
use red_lease.Server.Safety.Served.{Served, apply_operation-Served}
use red_lease.Client.Quorum.{candidate_valid_until}

-- Four shards, room for two keys, five seconds.
abbrev pub small : Config
small = record { max_ttl = 5_000; max_keys = 2; shard_count = 4 }

abbrev pub fresh : Server
fresh = record (empty_server small) {
  life = record {
    phase = active;
    fail_once = false;
    cancelled = false;
    connections_closed = false;
    fatal = 0;
  };
}

pub fresh-Inv : ServerInv fresh
fresh-Inv =
    let v = empty_server-Inv small in
    record { sound = v.sound; counted = v.counted; limited = v.limited }

abbrev pub alice : LeaseId
alice = record { client_id = 1; boot_id = 7; lease_seq = 1 }

abbrev pub bob : LeaseId
bob = record { client_id = 2; boot_id = 9; lease_seq = 1 }

abbrev pub wants : LeaseId → ℕ → Operation
wants id key = record {
  request_id = 11;
  kind = acquire_kind;
  key = key;
  lease_id = id;
  requested_ttl_ms = 3_000;
}

abbrev pub hash : ℕ → ℕ
hash k = k * 31

-- Alice has the key 5.
abbrev first : Event
first = record { at = 1_000; op = wants alice 5 }

abbrev taken : Server
taken = (run_history_total hash fresh (first ∷ []) fresh-Inv (omega arith)).0

taken-Inv : ServerInv taken
taken-Inv = (run_history_total hash fresh (first ∷ []) fresh-Inv (omega arith)).2

taken-config : taken.config ≡ small
taken-config = (run_history_total hash fresh (first ∷ []) fresh-Inv (omega arith)).3

in_range : 3 < taken.config.shard_count
in_range = omega (arith, ap (λ (c : Config). c.shard_count) taken-config)

acquire-Acquired_example :
    (r : Response) × (t : Server) × (acquire taken 3 (wants bob 5) 2_000 ≡ some (r, t))
    × Acquired taken 3 (wants bob 5) 2_000 r t
acquire-Acquired_example = acquire-Acquired taken 3 (wants bob 5) 2_000 taken-Inv in_range

renew-Renewed_example :
    (r : Response) × (t : Server) × (renew taken 3 (wants alice 5) 2_000 ≡ some (r, t))
    × Renewed taken 3 (wants alice 5) 2_000 r t
renew-Renewed_example = renew-Renewed taken 3 (wants alice 5) 2_000 taken-Inv in_range

release-Released_example :
    (t : Server) × (release taken 3 (wants bob 5) 2_000
      ≡ some (release_response 11 LeaseStatus.ok, t))
    × Released taken 3 (wants bob 5) 2_000 t
release-Released_example = release-Released taken 3 (wants bob 5) 2_000 taken-Inv in_range

run_history_total_example :
    (t : Server) × (run_history hash fresh (first ∷ record { at = 2_000; op = wants bob 5 } ∷ [])
      ≡ some t)
    × ServerInv t
    × (t.config ≡ small)
    × (t.life ≡ fresh.life)
run_history_total_example =
    run_history_total hash fresh (first ∷ record { at = 2_000; op = wants bob 5 } ∷ []) fresh-Inv
      (omega arith)

-- A grant, computed.
abbrev pub granted_answer : Response
granted_answer = acquire_response 11 LeaseStatus.ok 3_000

pub first_answer :
    elim (acquire fresh 3 (wants alice 5) 1_000) [ none ↦ none | some (r, t) ↦ some r ]
    ≡ some granted_answer
unfolding acquire add_lease push
first_answer = refl

-- Bob is told that the key is busy.
second_answer :
    elim (acquire fresh 3 (wants alice 5) 1_000) [
      | none ↦ none
      | some (r, t) ↦ elim (acquire t 3 (wants bob 5) 2_000) [ none ↦ none | some (q, u) ↦ some q ]
    ]
    ≡ some (acquire_response 11 LeaseStatus.busy 0)
unfolding acquire add_lease push
second_answer = refl

abbrev raw : RawConfig
raw = record { max_ttl = 5_000; max_keys = 0; has_logger = true; shard_count = 8 }

abbrev booted : Server
booted = empty_server (record { max_ttl = 5_000; max_keys = 10_000; shard_count = 8 })

new_server_run : new_server true raw ≡ ok booted
unfolding new_server
new_server_run = refl

new_server_decides_example :
    ((s : Server) × (new_server true raw ≡ ok s) × Accepted true raw × Started raw s)
    ⊎ ((e : ConfigError) × (new_server true raw ≡ err e) × (¬ Accepted true raw))
new_server_decides_example = new_server_decides true raw

booted-IsSound : IsSound booted
booted-IsSound = record {
  inv = empty_server-Inv booted.config;
  shards = omega arith;
  life = record {
    once = omega arith;
    serving = λ lt. (refl, refl);
    stopped = λ le. absurd (omega arith);
    reported = λ e. ground arith;
    silent = λ e. refl;
  };
  cold = λ e. refl;
}

abbrev ended : Server
ended = close (fail (end_quarantine booted))

Reach-Advances_example :
    IsSound ended × (ended.config ≡ booted.config) × (rank booted.phase ≤ rank ended.phase)
Reach-Advances_example =
    Reach-Advances booted ended booted-IsSound
      (next (next (next here (quarantine_ends refl)) (failure refl)) (closing refl))

-- The server starts at 1_000; its timer fires, and Alice asks for the key 5.
abbrev due : ℕ
due = 5_101_001_000

abbrev serving : Server
serving = end_quarantine booted

serving_run : Clocked booted 1_000 due serving
serving_run = timer (waits due Restart.booted (omega arith)) (omega arith)

serving_answer :
    elim (apply_operation serving 3 (wants alice 5) due) [ none ↦ none | some (r, t) ↦ r ]
    ≡ some granted_answer
unfolding end_quarantine apply_operation acquire add_lease push
serving_answer = refl

in_eight : 3 < serving.config.shard_count
unfolding end_quarantine
in_eight = omega arith

serving_served :
    (r : Option Response) × (t : Server) × (apply_operation serving 3 (wants alice 5) due
      ≡ some (r, t))
    × Served serving 3 (wants alice 5) due t
serving_served =
    let v = (Step-Advances booted serving booted-IsSound (quarantine_ends refl)).0.inv in
    apply_operation-Served serving 3 (wants alice 5) due serving.phase refl v in_eight

serving_granted :
    apply_operation serving 3 (wants alice 5) due ≡ some (some granted_answer, serving_served.1)
serving_granted =
    let known : serving_served.0 ≡ some granted_answer =
      ground (arith, serving_served.2, serving_answer) in
    rw (← known) serving_served.2

quarantine_outlasts_example :
    (1_000 + 5_100 * millisecond < due)
    × (candidate_valid_until 900 5_000 + 200 * millisecond < due)
quarantine_outlasts_example =
    quarantine_outlasts true raw booted serving serving_served.1 1_000 due 900 5_000 3
      (wants alice 5) granted_answer new_server_run serving_run serving_granted (omega arith)

remove_expired_keys-Cleaned_example :
    (t : Server) × (remove_expired_keys taken 9_000 ≡ some t) × Cleaned taken 9_000 t
remove_expired_keys-Cleaned_example = remove_expired_keys-Cleaned taken 9_000 taken-Inv
