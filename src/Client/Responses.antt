-- ===== src/Client/Responses.antt =====
-- The requests of one call and their results: client/replica_responses.go. The connections are an interface:
-- what completes a request there, and whether it is pending for the channel of this call.
pub mod Held
pub mod Moves
pub mod Abort
pub mod Next
pub mod Conns
use red_lease.Prelude.{
  ℕ, zero, suc, ◌+◌, ◌-◌, ◌<◌, ◌≡◌, ◌≢◌, ◌⊎◌, Bool, true, false, not, ◌&&◌, ◌||◌, List, [], ◌∷◌,
  ◌++◌, Option, none, some, ltb, leb, ◌==◌, length, if◌then◌else◌, update,
}
use red_lease.Client.Connection.{ConnError, ConnResult, ReplicaResponse, broken, deadline_exceeded}

-- replicaWait; the identifier 0 is that of no request.
pub record ReplicaWait : Type 0 where
  pub request_id : ℕ
  pub response_expiry : ℕ

abbrev pub no_wait : ReplicaWait
no_wait = record { request_id = 0; response_expiry = 0 }

-- `results` is the content of the channel, and `timer` says that there is a timer. Instants are counted from
-- timeBase.
pub record Responses : Type 0 where
  pub results : List ReplicaResponse
  pub waits : ℕ → ReplicaWait
  pub remaining : ℕ
  pub timer : Bool

abbrev pub no_responses : Responses
no_responses = record { results = []; waits = λ j. no_wait; remaining = 0; timer = false }

-- The connections, whose state is an `S`.
pub record Replicas (S : Type 0) : Type 0 where
  pub complete : S → ℕ → ℕ → ConnResult → S × List ReplicaResponse
  pub is_pending : S → ℕ → ℕ → Bool
  pub sends_once :
      (s : S) (j k : ℕ) (result : ConnResult)
      → (complete s j k result).1 ≡ (
          if is_pending s j k
          then record { replica = j; request_id = k; result = result } ∷ []
          else [])
  pub no_more :
      (s : S) (j k : ℕ) (result : ConnResult) → is_pending (complete s j k result).0 j k ≡ false
  pub others :
      (s : S) (j k : ℕ) (result : ConnResult) (i h : ℕ)
      → ((i ≢ j) ⊎ (h ≢ k))
      → is_pending (complete s j k result).0 i h ≡ is_pending s i h

-- What submit does once the connection has taken the request.
unfoldable pub register : Responses → ℕ → ℕ → ℕ → Responses
register r replica request_id expiry = record r {
  waits = update r.waits replica (record { request_id = request_id; response_expiry = expiry });
  remaining = suc r.remaining;
}

unfoldable pub stop_timer : Responses → Responses
stop_timer r = record r { timer = false }

-- `none` is a panic.
unfoldable pub consume : Responses → ReplicaResponse → Option Responses
unfolding stop_timer
consume r result =
    let left = record r {
      waits = update r.waits result.replica no_wait;
      remaining = r.remaining - 1;
    } in
    if (r.waits result.replica).request_id == result.request_id
    then some (if left.remaining == 0 then stop_timer left else left)
    else none

-- `<-r.results`, then consume; `none` is a panic, or an empty channel.
unfoldable pub receive : Responses → List ReplicaResponse → Option (Responses × ReplicaResponse)
unfolding consume
receive r [] = none
receive r (result ∷ rest) = elim (consume (record r { results = rest }) result) [
  | none ↦ none
  | some q ↦ some (q, result)
]

-- release: `none` is a panic.
unfoldable pub release : Responses → Option Responses
release r =
    if (r.remaining == 0) && (length r.results == 0) && not r.timer
    then some (record r { waits = λ j. no_wait })
    else none

-- The nearest expiry of `n` replicas from `j` on; 0 is none.
unfoldable pub next_expiry : Responses → ℕ → ℕ → ℕ → ℕ
next_expiry r j zero nearest = nearest
next_expiry r j (suc n) nearest =
    let wait = r.waits j in
    next_expiry r (suc j) n (
      if not (wait.request_id == 0) && ((nearest == 0) || ltb wait.response_expiry nearest)
      then wait.response_expiry
      else nearest)

-- nextTimeout: the delay of the timer, where there is one.
unfoldable pub next_timeout : ℕ → Responses → ℕ → Option ℕ × Responses
unfolding next_expiry
next_timeout n r now =
    let nearest = next_expiry r 0 n 0 in
    if nearest == 0 then (none, r) else (some (nearest - now), record r { timer = true })

module _ {S : Type 0} (net : Replicas S) where
  -- complete on the connection of a replica, and what then stands in the channel.
  unfoldable pub complete_at : ℕ → ℕ → ConnResult → S × Responses → S × Responses
  complete_at j k result (s, r) =
      let done = net.complete s j k result in (done.0, record r { results = r.results ++ done.1 })

  -- The loop of abort over the waits, of `n` replicas from `j` on.
  unfoldable pub complete_all : ConnError → ℕ → ℕ → S × Responses → S × Responses
  unfolding complete_at
  complete_all e j zero (s, r) = (s, r)
  complete_all e j (suc n) (s, r) =
      let k = (r.waits j).request_id in
      complete_all e (suc j) n (if k == 0 then (s, r) else complete_at j k (broken e) (s, r))

  -- expireResponses, for `n` replicas from `j` on.
  unfoldable pub expire_from : ℕ → ℕ → ℕ → S × Responses → Bool → Bool × (S × Responses)
  unfolding complete_at
  expire_from now j zero (s, r) expired = (expired, (s, r))
  expire_from now j (suc n) (s, r) expired =
      let wait = r.waits j in
      let late = not (wait.request_id == 0) && leb wait.response_expiry now in
      expire_from now (suc j) n
        (if late then complete_at j wait.request_id (broken deadline_exceeded) (s, r) else (s, r))
        (if late then true else expired)

-- What the select of next finds, and what one pass gives.
pub data NextEvent : Type 0 where
  result_ready caller_done lifecycle_done : NextEvent
  timeout : ℕ → NextEvent

pub data NextPass : Type 0 where
  response_received : ReplicaResponse → NextPass
  caller_canceled lifecycle_canceled again : NextPass

unfoldable pub take_result {ℓ} : {S : Type ℓ} → S × Responses → Option (NextPass × (S × Responses))
unfolding receive
take_result (s, r) = elim (receive r r.results) [
  | none ↦ none
  | some (q, result) ↦ some (response_received result, (s, q))
]

-- The loop of abort over the results: one unit of fuel for each one that remains.
unfoldable pub drain : ℕ → Responses → Option Responses
unfolding receive
drain zero r = some r
drain (suc n) r = elim (receive r r.results) [ none ↦ none | some (q, result) ↦ drain n q ]

module _ {S : Type 0} (net : Replicas S) (n : ℕ) where
  -- abort, with `n` replicas.
  unfoldable pub abort : ConnError → S × Responses → Option (S × Responses)
  unfolding complete_all drain
  abort e (s, r) =
      let done = complete_all net e 0 n (s, r) in
      elim (drain done.1.remaining done.1) [ none ↦ none | some q ↦ some (done.0, q) ]

  -- One pass of next: `none` is a panic, or a receive that blocks with nothing to come.
  unfoldable pub next_pass : S × Responses → NextEvent → Option (NextPass × (S × Responses))
  unfolding take_result expire_from
  next_pass (s, r) result_ready = take_result (s, r)
  next_pass (s, r) (timeout now) =
      let (expired, after) = expire_from net now 0 n (s, r) false in
      if expired then take_result after else some (again, after)
  next_pass (s, r) caller_done = some (caller_canceled, (s, r))
  next_pass (s, r) lifecycle_done = some (lifecycle_canceled, (s, r))
