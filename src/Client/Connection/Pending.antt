-- ===== src/Client/Connection/Pending.antt =====
-- How often a request stands in a map of pending requests, and among the results sent.
use red_lease.Prelude.{
  ℕ, ◌+◌, ◌≤◌, ◌≡◌, ◌≢◌, refl, arith, List, [], ◌∷◌, ◌++◌, Option, none, some, ◌==◌, if◌then◌else◌,
  ℕ_discrete,
}
use red_lease.Client.Connection.{ReplicaConn, ConnResult, Delivery, lookup, delete, deliveries}

abbrev pub same : ℕ → ℕ → ℕ
same j k = if j == k then 1 else 0

abbrev pub entries : List (ℕ × ℕ) → ℕ → ℕ
entries [] k = 0
entries ((j, d) ∷ rest) k = same j k + entries rest k

abbrev pub held : Option (List (ℕ × ℕ)) → ℕ → ℕ
held none k = 0
held (some pending) k = entries pending k

abbrev pub sent : List Delivery → ℕ → ℕ
sent [] k = 0
sent (d ∷ rest) k = same d.response.request_id k + sent rest k

pub sent-append : (xs ys : List Delivery) (k : ℕ) → sent (xs ++ ys) k ≡ sent xs k + sent ys k
sent-append [] ys k = omega arith
sent-append (x ∷ xs) ys k = omega (arith, sent-append xs ys k)

pub entries-delete-same : (xs : List (ℕ × ℕ)) (k : ℕ) → entries (delete xs k) k ≡ 0
unfolding delete
entries-delete-same [] k = refl
entries-delete-same ((j, d) ∷ rest) k = ground (arith, entries-delete-same rest k)

pub entries-delete-other :
    (xs : List (ℕ × ℕ)) (j k : ℕ) → j ≢ k → entries (delete xs j) k ≡ entries xs k
unfolding delete
entries-delete-other [] j k ne = refl
entries-delete-other ((i, d) ∷ rest) j k ne = ground (arith, entries-delete-other rest j k ne)

pub lookup-none : (xs : List (ℕ × ℕ)) (k : ℕ) → lookup xs k ≡ none → entries xs k ≡ 0
unfolding lookup
lookup-none [] k e = refl
lookup-none ((j, d) ∷ rest) k e = elim (ℕ_discrete j k) [
  | yes same ↦ absurd (ground (arith, e))
  | no other ↦ ground (arith, lookup-none rest k)
]

pub lookup-some : (xs : List (ℕ × ℕ)) (k d : ℕ) → lookup xs k ≡ some d → 1 ≤ entries xs k
unfolding lookup
lookup-some [] k d e = absurd (ground (arith, e))
lookup-some ((j, f) ∷ rest) k d e = elim (ℕ_discrete j k) [
  | yes same ↦ ground arith
  | no other ↦ ground (arith, lookup-some rest k d)
]

pub sent-deliveries :
    (c : ReplicaConn) (result : ConnResult) (xs : List (ℕ × ℕ)) (k : ℕ)
    → sent (deliveries c result xs) k ≡ entries xs k
unfolding deliveries
sent-deliveries c result [] k = refl
sent-deliveries c result ((j, d) ∷ rest) k = ground (arith, sent-deliveries c result rest k)
