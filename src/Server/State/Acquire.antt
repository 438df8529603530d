-- ===== src/Server/State/Acquire.antt =====
-- acquire of server/state.go: an attempt, and after a cleanup one more.
use red_lease.Prelude.{ℕ, ◌<◌, ◌≡◌, refl, ap, ◌∙◌, Option, none, some, arith, ◌>>=◌}
use red_lease.Protocol.{Response}
use red_lease.Protocol.LeaseStatus
use red_lease.Server.Shard.{lookup}
use red_lease.Server.State.{
  Server, Config, Operation, acquire_response, effective_ttl_ms, remove_expired_keys,
  acquire_locked, acquire_again, acquire,
}
use red_lease.Server.State.Inv.{ServerInv, Turn, Turn-after, view}
use red_lease.Server.State.Cleanup.{Cleaned, remove_expired_keys-Cleaned, Cleaned-Turn}
use red_lease.Server.State.Steps.{
  Found, owned, busy, Granted, nothing, granted, Attempt, found, served, full, locked-Attempt,
}

-- The shards hold leases that are valid at `now`, and none that has expired.
abbrev pub AllLive : Server → ℕ → Type 0
AllLive s now =
    (i : ℕ) → i < s.config.shard_count → (j : ℕ) → lookup (s.shards i) j ≡ view s now i j

pub data Acquired (s : Server) (i : ℕ) (op : Operation) (now : ℕ) (r : Response) (t : Server)
    : Type 0 where
  refused : Found s i op now r t → Acquired s i op now r t
  accepted : Granted s i op now (effective_ttl_ms s op) r t → Acquired s i op now r t
  limited :
      view s now i op.key ≡ none
      → 0 < effective_ttl_ms s op
      → r ≡ acquire_response op.request_id LeaseStatus.key_limit_reached 0
      → Turn s now i op.key none t
      → t.keys ≡ t.config.max_keys
      → AllLive t now
      → Acquired s i op now r t

abbrev Answers : Server → ℕ → Operation → ℕ → Option (Response × Server) → Type 0
Answers s i op now result =
    (r : Response) × (t : Server) × (result ≡ some (r, t)) × Acquired s i op now r t

Cleaned-AllLive : (s t : Server) (now : ℕ) → Cleaned s now t → AllLive t now
Cleaned-AllLive s t now c i hi j =
    let hi' : i < s.config.shard_count =
      omega (arith, ap (λ (c : Config). c.shard_count) c.config) in
    ground (arith, c.table i hi' j)

module _ (s : Server) (i : ℕ) (op : Operation) (now : ℕ) (c : Server)
    (none_seen : view s now i op.key ≡ none) (turn : Turn s now i op.key none c)
    (all : AllLive c now) (hi : i < c.config.shard_count) where
  cleared : view c now i op.key ≡ none
  cleared = ground (arith, turn.here op.key)

  before : Turn s now i op.key (view s now i op.key) c
  before = rw none_seen turn

  again-Answers :
      Attempt c i op now (effective_ttl_ms s op) (acquire_locked c i op now (effective_ttl_ms s op))
      → Answers s i op now (acquire_again c i op now (effective_ttl_ms s op))
  unfolding acquire_again
  again-Answers (found a t e (owned w see _ _ _)) = absurd (ground (arith, cleared))
  again-Answers (found a t e (busy w see _ _ _)) = absurd (ground (arith, cleared))
  again-Answers (served a t e (nothing see z q u)) =
      (a, t, rw (e, ◌>>=◌), accepted (nothing none_seen z q (Turn-after before u)))
  again-Answers (served a t e (granted see pos q u)) =
      (a, t, rw (e, ◌>>=◌), accepted (granted none_seen pos q (Turn-after before u)))
  again-Answers (full a t e see pos lim u same) =
      let kept : t ≡ c = same (all i hi op.key ∙ cleared) in
      (
        acquire_response op.request_id LeaseStatus.key_limit_reached 0,
        t,
        rw (e, ◌>>=◌),
        limited none_seen (omega arith) refl (Turn-after before u) (omega (arith, u.inv.limited))
            (rw kept all),
      )

module _ (s : Server) (i : ℕ) (op : Operation) (now : ℕ) (v : ServerInv s)
    (hi : i < s.config.shard_count) where
  retry-Answers :
      (b : Server)
      → view s now i op.key ≡ none
      → Turn s now i op.key none b
      → Answers s i op now
          (remove_expired_keys b now >>= λ c. acquire_again c i op now (effective_ttl_ms s op))
  retry-Answers b none_seen turn =
      let (c, cleaned, clean) = remove_expired_keys-Cleaned b now turn.inv in
      let hb : i < b.config.shard_count =
        omega (arith, ap (λ (c : Config). c.shard_count) turn.config) in
      let hc : i < c.config.shard_count =
        omega (arith, ap (λ (c : Config). c.shard_count) clean.config) in
      let seen_b : view b now i op.key ≡ none = ground (arith, turn.here op.key) in
      let both : Turn s now i op.key none c =
        Turn-after (rw none_seen turn) (rw seen_b at (Cleaned-Turn b c now i op.key hb clean)) in
      rw (cleaned, ◌>>=◌)
        (again-Answers s i op now c none_seen both (Cleaned-AllLive b c now clean) hc
          (locked-Attempt c i op now (effective_ttl_ms s op) clean.inv hc))

  first-Answers :
      Attempt s i op now (effective_ttl_ms s op) (acquire_locked s i op now (effective_ttl_ms s op))
      → Answers s i op now (acquire s i op now)
  unfolding acquire
  first-Answers (found a t e f) = (a, t, rw (e, ◌>>=◌), refused f)
  first-Answers (served a t e g) = (a, t, rw (e, ◌>>=◌), accepted g)
  first-Answers (full a t e see pos lim turn same) = rw (e, ◌>>=◌) (retry-Answers t see turn)

  -- On a server that satisfies the invariant and a shard in range, acquire returns a response and
  -- a state without a panic, and is one of: ALREADY_OWNED with the remaining time and no change;
  -- BUSY with a TTL of 0 and no change; OK with the effective TTL for a grant of it; OK with a TTL
  -- of 0 and no grant when the effective TTL is 0; or KEY_LIMIT_REACHED, given only when every
  -- remaining record is live and the limit is reached; nothing else that is live changes.
  pub acquire-Acquired :
      (r : Response) × (t : Server) × (acquire s i op now ≡ some (r, t)) × Acquired s i op now r t
  acquire-Acquired = first-Answers (locked-Attempt s i op now (effective_ttl_ms s op) v hi)
