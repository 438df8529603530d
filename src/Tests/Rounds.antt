-- ===== src/Tests/Rounds.antt =====
-- Acquire of a client against the three servers of Tests.Clusters, from its call to its lease.
use red_lease.Prelude.{ℕ, ◌≡◌, refl, sym, ap, ◌∙◌, true, none, some, List, [], ◌∷◌, arith, update}
use red_lease.Protocol.{Response}
use red_lease.Server.Shard.{id_eq}
use red_lease.Client.Quorum.{
  quorum2_of3, parameters, size, candidate_valid_until, best_acquire_quorum, sort,
  acquire_quorum_still_possible,
}
use red_lease.Client.Lease.{
  Lease, lease_active, start_background_healing, new_lease, mark_confirmed,
}
use red_lease.Client.Collect.{
  Clock, Wait, response_received, answered, failed, request_failed, start_collecting,
  unless_hopeless, quorum_decision, submit_failures, Command, send_acquire, start_healing, send_all,
}
use red_lease.Client.Collect.Known.{Heard, here, there}
use red_lease.Client.Acquire.{AcquireCall, acquired, acquire, acquire_loop, acquire_pass}
use red_lease.Cluster.Leases.{Delivered, Owns, leases_exclude}
use red_lease.Tests.Servers.{alice, hash, granted_answer}
use red_lease.Tests.Clusters.{server, until, alice-Answered}

abbrev clock : Clock
clock = record { now = 1_500; marked = 1_500; later = 1_500; cancelled = none }

abbrev heard : List Wait
heard =
    response_received 0 (answered granted_answer) clock
    ∷ response_received 2 (failed (request_failed 1)) clock
    ∷ response_received 1 (answered granted_answer) clock
    ∷ []

abbrev call : AcquireCall
call = record {
  sequence = 1;
  key = 5;
  ttl_ms = 3_000;
  operation_start = 0;
  cancelled_before = none;
  submits = none ∷ none ∷ none ∷ [];
  cancelled_after = none;
  waits = heard;
  healing_now = 2_000;
}

heard_answer : (r : ℕ) (response : Response) → Heard r response heard → granted_answer ≡ response
heard_answer r response here = refl
heard_answer r response (there (there here)) = refl
heard_answer r response (there (there (there h))) = elim h [ ]

alice-Delivered : Delivered hash (λ r. server) 2_000 alice call
unfolding candidate_valid_until
alice-Delivered = record {
  answers = λ r candidate b.
      let known : until ≡ candidate =
        ap (λ (x : Response). candidate_valid_until 0 x.ttl_ms) (heard_answer r b.response b.heard)
        ∙ sym b.trusted in
      rw (← known) alice-Answered;
}

-- The lease that the call returns.
abbrev lease : Lease
lease = record {
  server_count = 3;
  sequence = 1;
  key = 5;
  requested_ttl_ms = 3_000;
  now = 0;
  lifecycle = lease_active;
  valid_until = until;
  confirmed_until = update (update (λ r. 0) 0 until) 1 until;
  healing = true;
}

abbrev commands : List Command
commands = send_acquire 0 ∷ send_acquire 1 ∷ send_acquire 2 ∷ start_healing ∷ []

returned : acquire quorum2_of3 call ≡ some (acquired lease, commands)
unfolding acquire parameters size candidate_valid_until best_acquire_quorum sort new_lease
    mark_confirmed start_collecting unless_hopeless quorum_decision submit_failures acquire_loop
    acquire_pass acquire_quorum_still_possible send_all start_background_healing
returned = refl

alice-Owns : Owns quorum2_of3 2_000 call lease
unfolding parameters
alice-Owns = record {
  submitted = refl;
  enough = omega arith;
  commands = commands;
  returned = returned;
  valid = omega arith;
}

leases_exclude_example : id_eq alice alice ≡ true
unfolding parameters
leases_exclude_example =
    leases_exclude hash (λ r. server) quorum2_of3 2_000 alice alice call call lease lease refl refl
      alice-Owns alice-Owns alice-Delivered alice-Delivered
