-- ===== src/Client/Responses/Held.antt =====
-- Where the result of each request of client/replica_responses.go is: still to come, or in the channel.
use red_lease.Prelude.{
  ℕ, zero, suc, ◌+◌, ◌≤◌, ◌<◌, ◌≡◌, ◌≢◌, refl, ap, arith, Bool, true, false, List, [], ◌∷◌, ◌++◌,
  ◌==◌, if◌then◌else◌, update, ℕ_discrete,
}
use red_lease.Client.Connection.{ReplicaResponse}
use red_lease.Client.Responses.{ReplicaWait, Responses, Replicas, no_wait}

abbrev pub one : Bool → ℕ
one true = 1
one false = 0

abbrev pub is_for : ReplicaResponse → ℕ → ℕ → ℕ
is_for x j k = if x.replica == j then if x.request_id == k then 1 else 0 else 0

-- How many results of one request stand in the channel.
abbrev pub arrived : List ReplicaResponse → ℕ → ℕ → ℕ
arrived [] j k = 0
arrived (x ∷ rest) j k = is_for x j k + arrived rest j k

pub arrived-append :
    (xs ys : List ReplicaResponse) (j k : ℕ)
    → arrived (xs ++ ys) j k ≡ arrived xs j k + arrived ys j k
arrived-append [] ys j k = omega arith
arrived-append (x ∷ xs) ys j k = omega (arith, arrived-append xs ys j k)

abbrev pub busy : ℕ → ℕ
busy k = if k == 0 then 0 else 1

-- How many of the first `n` replicas have a request.
abbrev pub active : (ℕ → ReplicaWait) → ℕ → ℕ
active waits zero = 0
active waits (suc n) = busy (waits n).request_id + active waits n

pub active-some :
    (waits : ℕ → ReplicaWait) (n j : ℕ) → j < n → (waits j).request_id ≢ 0 → 1 ≤ active waits n
active-some waits zero j lt ne = absurd (omega arith)
active-some waits (suc n) j lt ne = elim (ℕ_discrete j n) [
  | yes at ↦ ground (arith, ne, ap (λ i. (waits i).request_id) at)
  | no away ↦ omega (arith, active-some waits n j (omega (arith, lt, away)) ne)
]

pub active-find :
    (waits : ℕ → ReplicaWait) (n : ℕ)
    → 1 ≤ active waits n
    → (j : ℕ) × (j < n) × ((waits j).request_id ≢ 0)
active-find waits zero le = absurd (omega arith)
active-find waits (suc n) le = elim (ℕ_discrete (waits n).request_id 0) [
  | no ne ↦ (n, omega arith, ne)
  | yes free ↦
      let (j, lt, ne) = active-find waits n (ground (arith, free, le)) in (j, omega (arith, lt), ne)
]

pub active-beyond :
    (waits : ℕ → ReplicaWait) (n j : ℕ) (w : ReplicaWait)
    → n ≤ j
    → active (update waits j w) n ≡ active waits n
active-beyond waits zero j w le = refl
active-beyond waits (suc n) j w le = ground (arith, active-beyond waits n j w (omega (arith, le)))

pub active-clear :
    (waits : ℕ → ReplicaWait) (n j : ℕ)
    → j < n
    → (waits j).request_id ≢ 0
    → suc (active (update waits j no_wait) n) ≡ active waits n
active-clear waits zero j lt ne = absurd (omega arith)
active-clear waits (suc n) j lt ne = elim (ℕ_discrete j n) [
  | yes at ↦
      let same = ap (λ i. (waits i).request_id) at in
      ground (arith, active-beyond waits n j no_wait (omega (arith, at)), same)
  | no away ↦ ground (arith, active-clear waits n j (omega (arith, lt, away)) ne)
]

pub active-set :
    (waits : ℕ → ReplicaWait) (n j : ℕ) (w : ReplicaWait)
    → j < n
    → (waits j).request_id ≡ 0
    → w.request_id ≢ 0
    → active (update waits j w) n ≡ suc (active waits n)
active-set waits zero j w lt free ne = absurd (omega arith)
active-set waits (suc n) j w lt free ne = elim (ℕ_discrete j n) [
  | yes at ↦
      let same = ap (λ i. (waits i).request_id) at in
      ground (arith, active-beyond waits n j w (omega (arith, at)), same)
  | no away ↦ ground (arith, active-set waits n j w (omega (arith, lt, away)) free ne)
]

module _ {S : Type 0} (net : Replicas S) (n : ℕ) where
  -- Every request of the call is pending or has its result in the channel, and nothing else is there.
  pub record Held (s : S) (r : Responses) : Type 0 where
    pub inside : (j : ℕ) → (r.waits j).request_id ≢ 0 → j < n
    pub each :
        (j : ℕ)
        → (r.waits j).request_id ≢ 0
        → one (net.is_pending s j (r.waits j).request_id)
            + arrived r.results j (r.waits j).request_id
          ≡ 1
    pub known : (j k : ℕ) → 1 ≤ arrived r.results j k → (k ≢ 0) × ((r.waits j).request_id ≡ k)
    pub counted : r.remaining ≡ active r.waits n
    pub timed : r.timer ≡ true → 1 ≤ r.remaining
