-- ===== src/Client/Collect/Known.antt =====
-- What is known of the answers that were collected: where each candidate comes from.
use red_lease.Prelude.{
  ℕ, ◌≤◌, ◌≡◌, ◌≢◌, ◌⊎◌, ◌∙◌, Bool, true, false, List, [], ◌∷◌, Option, none, some, length, set_at,
  length-set_at, length-replicate, get_elem?, get_elem?-replicate, get_elem?-set_at, arith, inl,
  inr,
}
use red_lease.Protocol.{Response}
use red_lease.Client.Quorum.{candidate_valid_until}
use red_lease.Client.Lease.{Lease}
use red_lease.Client.Collect.{
  Failure, answered, Clock, Wait, response_received, Collected, start_collecting, submit_failures,
}

-- The replica answered so, in one of the events.
pub data Heard (r : ℕ) (response : Response) : List Wait → Type 0 where
  here :
      {clock : Clock} {ws : List Wait}
      → Heard r response (response_received r (answered response) clock ∷ ws)
  there : {w : Wait} {ws : List Wait} → Heard r response ws → Heard r response (w ∷ ws)

-- An answer of the replica with the operation that was asked for, a success, on which the candidate
-- rests.
pub record Backed (operation : ℕ) (success : ℕ → Bool) (start : ℕ) (ws : List Wait)
    (r candidate : ℕ) : Type 0 where
  pub response : Response
  pub heard : Heard r response ws
  pub asked : response.operation ≡ operation
  pub granted : success response.status ≡ true
  pub trusted : candidate ≡ candidate_valid_until start response.ttl_ms

-- The lists are as long as there are replicas, and each candidate has the property `P`.
pub record Known (P : ℕ → ℕ → Type 0) (n : ℕ) (s : Collected) : Type 0 where
  pub size : s.lease.server_count ≡ n
  pub all : length s.candidates ≡ n
  pub marks : length s.successful ≡ n
  pub known :
      (r candidate : ℕ)
      → get_elem? s.candidates r ≡ some candidate
      → get_elem? s.successful r ≡ some true
      → P r candidate

module _ (P : ℕ → ℕ → Type 0) (n : ℕ) where
  pub start-Known :
      (lease : Lease) (received : ℕ) (failure : Option Failure)
      → lease.server_count ≡ n
      → Known P n (start_collecting lease received failure)
  unfolding start_collecting
  start-Known lease received failure e = record {
    size = e;
    all = length-replicate lease.server_count 0 ∙ e;
    marks = length-replicate lease.server_count false ∙ e;
    known =
        λ r c v m. absurd (ground (arith, get_elem?-replicate lease.server_count false true r m));
  }

  -- A success is entered in both lists.
  pub entered-Known :
      (s t : Collected) (r candidate : ℕ)
      → Known P n s
      → P r candidate
      → t.candidates ≡ set_at s.candidates r candidate
      → t.successful ≡ set_at s.successful r true
      → t.lease.server_count ≡ n
      → Known P n t
  entered-Known s t r candidate k p cs bs e = record {
    size = e;
    all = rw cs (length-set_at s.candidates r candidate ∙ k.all);
    marks = rw bs (length-set_at s.successful r true ∙ k.marks);
    known = λ q d v m.
        entry q d (get_elem?-set_at s.candidates r q candidate d (rw cs at v))
          (get_elem?-set_at s.successful r q true true (rw bs at m));
  }
    where
      entry :
          (q d : ℕ)
          → ((r ≡ q) × (candidate ≡ d)) ⊎ ((r ≢ q) × (get_elem? s.candidates q ≡ some d))
          → ((r ≡ q) × (true ≡ true)) ⊎ ((r ≢ q) × (get_elem? s.successful q ≡ some true))
          → P q d
      entry q d (inl (same, c)) m = rw (← same, ← c) p
      entry q d (inr (ne, c)) (inl (same, m)) = absurd (ne same)
      entry q d (inr (ne, c)) (inr (ne', m)) = k.known q d c m

  -- Only the lists and the number of replicas count.
  pub same-Known :
      (s t : Collected)
      → Known P n s
      → t.candidates ≡ s.candidates
      → t.successful ≡ s.successful
      → t.lease.server_count ≡ n
      → Known P n t
  same-Known s t k cs bs e = record {
    size = e;
    all = rw cs k.all;
    marks = rw bs k.marks;
    known = λ q d v m. k.known q d (rw cs at v) (rw bs at m);
  }

-- At most as many requests fail as were submitted.
pub submit_failures-le : (rs : List (Option Failure)) → (submit_failures rs).0 ≤ length rs
unfolding submit_failures
submit_failures-le [] = omega arith
submit_failures-le (none ∷ rs) = omega (arith, submit_failures-le rs)
submit_failures-le (some e ∷ rs) = omega (arith, submit_failures-le rs)
