-- ===== src/Tests/Clusters.antt =====
-- Two rounds of one client against three servers that granted it the key 5.
use red_lease.Prelude.{
  ℕ, ◌+◌, ◌*◌, ◌≤◌, ◌<◌, ◌≡◌, refl, sym, ap, ◌∙◌, Bool, true, false, Option, none, some, List, [],
  ◌∷◌, arith, zero, suc, get_elem?,
}
use red_lease.Protocol.{Response, millisecond}
use red_lease.Protocol.LeaseStatus
use red_lease.Server.Heap.{push, fix, up}
use red_lease.Server.Shard.{id_eq, add_lease, extend_lease}
use red_lease.Server.State.{Server, Config, acquire, renew, shard_index}
use red_lease.Server.State.Acquire.{Acquired, acquire-Acquired}
use red_lease.Server.State.Renew.{Renewed, renew-Renewed}
use red_lease.Server.State.Inv.{ServerInv}
use red_lease.Server.Safety.{Holds, Holds-weaken}
use red_lease.Server.Safety.Grants.{Acquired-Holds, acquire-Holds}
use red_lease.Server.Safety.History.{
  run_history, run_history_total, run_history_protects, same_index, Event,
}
use red_lease.Server.Safety.Protect.{acquire-Outcome, Outcome-Turn}
use red_lease.Client.Quorum.{
  quorum2_of3, candidate_valid_until, best_acquire_quorum, sort, parameters, size,
}
use red_lease.Cluster.{Answered}
use red_lease.Cluster.Exclusion.{Trusts, mutual_exclusion}
use red_lease.Tests.Servers.{
  fresh, fresh-Inv, alice, bob, wants, hash, granted_answer, first_answer,
}

pub granted :
    (r : Response) × (t : Server) × (acquire fresh 3 (wants alice 5) 1_000 ≡ some (r, t))
    × Acquired fresh 3 (wants alice 5) 1_000 r t
granted = acquire-Acquired fresh 3 (wants alice 5) 1_000 fresh-Inv (omega arith)

abbrev pub server : Server
server = granted.1

abbrev answer : Response
answer = granted.0

answer_known : answer ≡ granted_answer
answer_known = ground (arith, granted.2, first_answer)

-- The client sent the request at 0.
abbrev pub until : ℕ
until = 2_900_000_000

pub alice-Answered : Answered hash server 2_000 5 alice 0 until
unfolding shard_index run_history candidate_valid_until
alice-Answered = record {
  before = fresh;
  after = server;
  op = wants alice 5;
  at = 1_000;
  response = answer;
  inv = fresh-Inv;
  shards = omega arith;
  names = refl;
  owner = refl;
  sent = omega arith;
  acquired = granted.2;
  success = rw answer_known refl;
  trusted = rw answer_known refl;
  events = [];
  during = tt;
  unreleased = tt;
  reached = refl;
  present = omega arith;
}

-- Replicas 0 and 1 answered.
abbrev answered_marks : List Bool
answered_marks = true ∷ true ∷ false ∷ []

abbrev answered_until : List ℕ
answered_until = until ∷ until ∷ 0 ∷ []

alice_answers :
    (r candidate : ℕ)
    → get_elem? answered_until r ≡ some candidate
    → get_elem? answered_marks r ≡ some true
    → Answered hash server 2_000 5 alice 0 candidate
alice_answers zero candidate e m =
    let same : until ≡ candidate = ground arith in rw (← same) alice-Answered
alice_answers (suc zero) candidate e m =
    let same : until ≡ candidate = ground arith in rw (← same) alice-Answered
alice_answers (suc (suc r)) candidate e m = absurd (unmarked r m)
  where
    unmarked : (r : ℕ) → ¬ (get_elem? (false ∷ []) r ≡ some true)
    unmarked zero m = ground arith
    unmarked (suc r) m = ground arith

alice-Trusts : Trusts hash (λ r. server) quorum2_of3 2_000 5 alice
unfolding best_acquire_quorum sort parameters size
alice-Trusts = record {
  candidates = answered_until;
  successful = answered_marks;
  valid_until = until;
  start = 0;
  all = refl;
  marks = refl;
  chosen = refl;
  valid = omega arith;
  answers = alice_answers;
}

mutual_exclusion_example : id_eq alice alice ≡ true
unfolding parameters
mutual_exclusion_example =
    mutual_exclusion hash (λ r. server) quorum2_of3 2_000 5 alice alice refl alice-Trusts
      alice-Trusts

acquire-Holds_example :
    Holds server 1_000 3 5 alice (1_000 + answer.ttl_ms * millisecond)
    × (answer.ttl_ms ≤ fresh.config.max_ttl)
acquire-Holds_example =
    acquire-Holds fresh server 3 (wants alice 5) 1_000 answer fresh-Inv (omega arith) granted.2
      (rw answer_known refl) (rw answer_known (omega arith))

server_turn : ServerInv server × (server.config ≡ fresh.config)
server_turn =
    let (new, turn) =
      Outcome-Turn
        (acquire-Outcome fresh 3 (wants alice 5) 1_000 fresh-Inv answer server granted.3) in
    (turn.inv, turn.config)

-- Bob asks for the key that alice has, and for another one.
abbrev bob_asks : List Event
bob_asks = record { at = 2_000; op = wants bob 5 } ∷ record { at = 3_000; op = wants bob 9 } ∷ []

more_shards : 0 < server.config.shard_count
more_shards = omega (arith, ap (λ (c : Config). c.shard_count) server_turn.1)

served :
    (t : Server) × (run_history hash server bob_asks ≡ some t)
    × ServerInv t
    × (t.config ≡ server.config)
    × (t.life ≡ server.life)
served = run_history_total hash server bob_asks server_turn.0 more_shards

hash_of_five : shard_index hash fresh 5 ≡ 3
unfolding shard_index
hash_of_five = refl

alice-Holds : Holds server 1_000 (shard_index hash server 5) 5 alice 2_000_000_000
alice-Holds = rw (same_index hash fresh server 5 server_turn.1) (
    rw (hash_of_five) (
      Holds-weaken 2_000_000_000 (rw answer_known (omega arith)) (
        Acquired-Holds fresh server 3 (wants alice 5) 1_000 answer granted.3 (rw answer_known refl)
          (rw answer_known (omega arith)))))

run_history_protects_example :
    Holds served.0 3_000 (shard_index hash served.0 5) 5 alice 2_000_000_000
run_history_protects_example =
    run_history_protects hash server served.0 1_000 5 alice 2_000_000_000 bob_asks server_turn.0
      more_shards (omega arith, omega arith, (omega arith, omega arith, tt))
      ((λ r. ground (arith, r.0)), ((λ r. ground (arith, r.0)), tt)) served.1 alice-Holds

in_range : 3 < server.config.shard_count
in_range = omega (arith, ap (λ (c : Config). c.shard_count) server_turn.1)

-- Alice renews her lease.
renewal :
    (r : Response) × (t : Server) × (renew server 3 (wants alice 5) 2_000 ≡ some (r, t))
    × Renewed server 3 (wants alice 5) 2_000 r t
renewal = renew-Renewed server 3 (wants alice 5) 2_000 server_turn.0 in_range

status_of : Option (Response × Server) → ℕ
status_of none = 99
status_of (some (r, t)) = r.status

renew_after : Option (Response × Server) → Option (Response × Server)
renew_after none = none
renew_after (some (r, t)) = renew t 3 (wants alice 5) 2_000

renew_run : status_of (renew_after (acquire fresh 3 (wants alice 5) 1_000)) ≡ LeaseStatus.ok
unfolding status_of renew_after acquire renew extend_lease fix up add_lease push
renew_run = refl

renewal_ok : renewal.0.status ≡ LeaseStatus.ok
unfolding status_of renew_after
renewal_ok =
    sym (ap status_of renewal.2) ∙ (ap (λ o. status_of (renew_after o)) (sym granted.2) ∙ renew_run)
