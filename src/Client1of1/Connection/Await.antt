-- ===== src/Client1of1/Connection/Await.antt =====
-- await of client1of1/connection.go always has a result.
use red_lease.Prelude.{
  ℕ, ◌≡◌, ◌≢◌, refl, arith, List, [], ◌∷◌, ==_refl, Option, none, some, Option-cases, inl, inr,
}
use red_lease.Client.Connection.{
  ConnError, ConnResult, context_error, deadline_exceeded, broken, lookup, pending_shard_index,
}
use red_lease.Client.Responses.Conns.{lookup-delete-same}
use red_lease.Client1of1.Connection.{
  SingleConn, single_complete_in_shard, AwaitEvent, result_here, timed_out, caller_ended,
  give_up_waiting, await,
}

-- The error of an event that ends the wait.
abbrev why : AwaitEvent → ConnError
why result_here = deadline_exceeded
why timed_out = deadline_exceeded
why (caller_ended e) = context_error e

-- The request waits for its channel, which is empty, or is no longer pending and has its result there.
pub data Future (c : SingleConn) (k d : ℕ) : List ConnResult → Type 0 where
  is_pending :
      (m : List (ℕ × ℕ))
      → (c.shards (pending_shard_index k)).pending ≡ some m
      → lookup m k ≡ some d
      → Future c k d []
  has_result :
      (result : ConnResult)
      → ((m : List (ℕ × ℕ))
          → (c.shards (pending_shard_index k)).pending ≡ some m
          → lookup m k ≡ none)
      → Future c k d (result ∷ [])

module _ (c : SingleConn) (k d : ℕ) where
  -- Giving up completes the request, and gives the error, or the result that came before.
  abbrev Given : List ConnResult → ConnError → Option (SingleConn × ConnResult) → Type 0
  Given channel e none = ⊥
  Given [] e (some (b, result)) =
      (result ≡ broken e)
      × ((m : List (ℕ × ℕ))
          → (b.shards (pending_shard_index k)).pending ≡ some m
          → lookup m k ≡ none)
  Given (x ∷ rest) e (some (b, result)) = (result ≡ x) × (b ≡ c)

  give_up-Given :
      (channel : List ConnResult) (e : ConnError)
      → Future c k d channel
      → Given channel e (give_up_waiting c k d channel e)
  unfolding give_up_waiting single_complete_in_shard
  give_up-Given channel e (is_pending m at found) =
      rw (at, found, single_complete_in_shard)
        (rw (==_refl d) (refl, λ n e. ground (arith, e, lookup-delete-same m k)))
  give_up-Given channel e (has_result result gone) =
      elim (Option-cases (c.shards (pending_shard_index k)).pending) [
        | inl nil ↦ rw (nil, single_complete_in_shard) (refl, refl)
        | inr (m, at) ↦ rw (at, gone m at, single_complete_in_shard) (refl, refl)
      ]

  -- What await gives: the result that came, or the error of what ended the wait, with no request left.
  pub data Awaited : List ConnResult → AwaitEvent → SingleConn × ConnResult → Type 0 where
    came :
        (x : ConnResult) (rest : List ConnResult) (e : AwaitEvent) (b : SingleConn)
        (result : ConnResult)
        → b ≡ c
        → result ≡ x
        → Awaited (x ∷ rest) e (b, result)
    ended :
        (b : SingleConn) (result : ConnResult) (e : AwaitEvent)
        → ((m : List (ℕ × ℕ))
            → (b.shards (pending_shard_index k)).pending ≡ some m
            → lookup m k ≡ none)
        → result ≡ broken (why e)
        → Awaited [] e (b, result)

  settle :
      (channel : List ConnResult) (e : AwaitEvent) (o : Option (SingleConn × ConnResult))
      → Given channel (why e) o
      → (r : SingleConn × ConnResult) × (o ≡ some r) × Awaited channel e r
  settle channel e none given = elim given [ ]
  settle [] e (some (b, result)) (is, gone) = ((b, result), refl, ended b result e gone is)
  settle (x ∷ rest) e (some (b, result)) (is, same) =
      ((b, result), refl, came x rest e b result same is)

  -- For a request that is pending for its empty channel, or is not pending any more and has its
  -- result there, and any event, where a result is only received from a channel that holds one:
  -- await gives a result, either the one that was there, or the error of what ended the wait, and
  -- then the request is no longer pending.
  pub await-total :
      (channel : List ConnResult) (e : AwaitEvent)
      → Future c k d channel
      → (e ≡ result_here → channel ≢ [])
      → (r : SingleConn × ConnResult) × (await c k d channel e ≡ some r) × Awaited channel e r
  unfolding await
  await-total [] result_here future there = absurd (there refl refl)
  await-total (x ∷ rest) result_here future there =
      ((c, x), refl, came x rest result_here c x refl refl)
  await-total channel timed_out future there =
      settle channel timed_out _ (give_up-Given channel deadline_exceeded future)
  await-total channel (caller_ended e) future there =
      settle channel (caller_ended e) _ (give_up-Given channel (context_error e) future)
