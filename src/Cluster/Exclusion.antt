-- ===== src/Cluster/Exclusion.antt =====
-- Mutual exclusion: two clients never trust leases on one key at the same time.
use red_lease.Prelude.{
  ℕ, ◌+◌, ◌*◌, ◌≤◌, ◌<◌, ◌≡◌, ap, sym, ◌∙◌, Bool, true, some, List, length, get_elem?, arith, inl,
  inr,
}
use red_lease.Protocol.{millisecond}
use red_lease.Server.Shard.{LeaseId, id_eq}
use red_lease.Server.State.{Server, Config, shard_index}
use red_lease.Server.Safety.{Holds, Holds-later, Holds-weaken, Holds-exclusive}
use red_lease.Server.Safety.Grants.{acquire_known, acquire-Holds}
use red_lease.Server.Safety.Protect.{acquire-Outcome, Outcome-Turn}
use red_lease.Server.Safety.History.{last_at-le, run_history_protects, same_index, shard_index-lt}
use red_lease.Client.Quorum.{parameters, size, best_acquire_quorum}
use red_lease.Client.Quorum.Select.{support, best_acquire_quorum-Best}
use red_lease.Client.Quorum.Possible.{quorums_meet, candidate_bounds}
use red_lease.Cluster.{Answered}
use red_lease.Cluster.Count.{Supports-meet}

-- A replica whose answer a client trusts still holds the lease.
pub Answered-Holds :
    (hash : ℕ → ℕ) (server : Server) (now k : ℕ) (id : LeaseId) (start candidate : ℕ)
    → Answered hash server now k id start candidate
    → now < candidate
    → Holds server now (shard_index hash server k) k id candidate
Answered-Holds hash server now k id start candidate a lt =
    let ttl_ms = a.response.ttl_ms in
    let i = shard_index hash a.before k in
    let started = last_at-le a.at candidate a.events a.during in
    let within : candidate ≤ start + ttl_ms * millisecond =
      rw a.trusted ((candidate_bounds start ttl_ms).1) in
    let pos : 0 < ttl_ms = omega (arith, a.sent, a.present) in
    let in_range = shard_index-lt hash a.before k a.shards in
    let done = acquire_known a.before a.after i a.op a.at a.response a.inv in_range a.acquired in
    let told =
      (acquire-Holds a.before a.after i a.op a.at a.response a.inv in_range a.acquired a.success
        pos).0 in
    let (new, turn) =
      Outcome-Turn (acquire-Outcome a.before i a.op a.at a.inv a.response a.after done) in
    let named : Holds a.after a.at i k id (a.at + ttl_ms * millisecond) =
      rw (a.names, a.owner) at told in
    let after_index = same_index hash a.before a.after k turn.config in
    let there : Holds a.after a.at (shard_index hash a.after k) k id candidate =
      rw after_index (Holds-weaken candidate (omega (arith, a.sent)) named) in
    let more : 0 < a.after.config.shard_count =
      omega (arith, a.shards, ap (λ (c : Config). c.shard_count) turn.config) in
    Holds-later now a.present lt (
      run_history_protects hash a.after server a.at k id candidate a.events turn.inv more a.during
        a.unreleased a.reached there)

-- A client trusts a lease at `now`: it chose a quorum among the answers of its replicas.
pub record Trusts (hash : ℕ → ℕ) (servers : ℕ → Server) (quorum now k : ℕ) (id : LeaseId)
    : Type 0 where
  pub candidates : List ℕ
  pub successful : List Bool
  pub valid_until : ℕ
  pub start : ℕ
  pub all : length candidates ≡ (parameters quorum).0
  pub marks : length successful ≡ (parameters quorum).0
  pub chosen : best_acquire_quorum candidates successful (size quorum) ≡ some valid_until
  pub valid : now < valid_until
  pub answers :
      (r candidate : ℕ)
      → get_elem? candidates r ≡ some candidate
      → get_elem? successful r ≡ some true
      → Answered hash (servers r) now k id start candidate

Trusts-support :
    {hash : ℕ → ℕ} {servers : ℕ → Server} {quorum now k : ℕ} {id : LeaseId}
    → 0 < size quorum
    → (t : Trusts hash servers quorum now k id)
    → size quorum ≤ support t.valid_until t.candidates t.successful
Trusts-support {quorum = q} pos t =
    elim (best_acquire_quorum-Best t.candidates t.successful (size q) pos) [
      | inl (missing, few) ↦ absurd (ground (arith, t.chosen))
      | inr (u, found, best) ↦
          let same : t.valid_until ≡ u = ground (arith, t.chosen) in rw same best.backed
    ]

-- For servers whose states come from the histories described by Trusts, and a supported quorum
-- configuration: two lease identities whose owners both trust a lease on one key at one time, each
-- by a quorum chosen among the answers of its replicas, are the same identity.
pub mutual_exclusion :
    (hash : ℕ → ℕ) (servers : ℕ → Server) (quorum now k : ℕ) (a b : LeaseId)
    → (parameters quorum).2 ≡ true
    → Trusts hash servers quorum now k a
    → Trusts hash servers quorum now k b
    → id_eq a b ≡ true
mutual_exclusion hash servers quorum now k a b known t u =
    let (meet, pos, _) = quorums_meet quorum known in
    let (r, x, y) =
      Supports-meet t.valid_until u.valid_until t.candidates u.candidates t.successful u.successful
        (t.marks ∙ sym t.all) (u.marks ∙ sym u.all) (t.all ∙ sym u.all)
        (omega (arith, Trusts-support pos t, Trusts-support pos u, t.all)) in
    Holds-exclusive
      (Answered-Holds hash (servers r) now k a t.start x.candidate
        (t.answers r x.candidate x.valid x.answered) (omega (arith, t.valid, x.lasts)))
      (Answered-Holds hash (servers r) now k b u.start y.candidate
        (u.answers r y.candidate y.valid y.answered) (omega (arith, u.valid, y.lasts)))
