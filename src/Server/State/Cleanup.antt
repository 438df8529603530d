-- ===== src/Server/State/Cleanup.antt =====
-- removeExpiredKeys of server/state.go.
use red_lease.Prelude.{
  ℕ, zero, suc, ◌+◌, ◌-◌, ◌≤◌, ◌<◌, ◌≡◌, refl, ap, ◌∙◌, ◌≢◌, Option, none, some, arith, update,
  ℕ_discrete, ◌>>=◌,
}
use red_lease.Server.Shard.{Shard, Entry, lookup}
use red_lease.Server.Shard.Inv.{ShardInv}
use red_lease.Server.Shard.Expire.{live, Expired, remove_expired_leases-Expired}
use red_lease.Server.State.{Server, expire_shards, release_keys, remove_expired_keys}
use red_lease.Server.State.Inv.{ServerInv, Turn, total, view, total_above}

pub live_twice : (now : ℕ) (e : Option Entry) → live now (live now e) ≡ live now e
live_twice now none = refl
live_twice now (some e) = ground arith

record CleanedShards (n : ℕ) (shards : ℕ → Shard) (now deleted : ℕ) (cleaned : ℕ → Shard)
    : Type 0 where
  sound : (i : ℕ) → i < n → ShardInv (cleaned i)
  table : (i : ℕ) → i < n → (j : ℕ) → lookup (cleaned i) j ≡ live now (lookup (shards i) j)
  rest : (i : ℕ) → n ≤ i → cleaned i ≡ shards i
  size : total n cleaned + deleted ≡ total n shards

expire_one :
    (n : ℕ) (shards cleaned : ℕ → Shard) (now deleted count : ℕ) (t : Shard)
    → CleanedShards n shards now deleted cleaned
    → Expired (shards n) now count t
    → CleanedShards (suc n) shards now (deleted + count) (update cleaned n t)
unfolding total
expire_one n shards cleaned now deleted count t c x = record {
  sound = λ i hi. elim (ℕ_discrete i n) [
    | yes e ↦ rw (at i e) x.inv
    | no ne ↦ rw (off i ne) (c.sound i (omega arith))
  ];
  table = λ i hi j. elim (ℕ_discrete i n) [
    | yes e ↦ rw (at i e, e) (x.table j)
    | no ne ↦ rw (off i ne) (c.table i (omega arith) j)
  ];
  rest = λ i hi. off i (omega arith) ∙ c.rest i (omega arith);
  size = omega (
    arith,
    total_above n n cleaned t,
    x.size,
    c.size,
    ap (λ (s : Shard). s.deadlines.len) (at n refl),
  );
}
  where
    at : (i : ℕ) → i ≡ n → update cleaned n t i ≡ t
    at i e = ground arith

    off : (i : ℕ) → i ≢ n → update cleaned n t i ≡ cleaned i
    off i ne = ground arith

expire_shards-Cleaned :
    (n : ℕ) (shards : ℕ → Shard) (now : ℕ)
    → ((i : ℕ) → i < n → ShardInv (shards i))
    → (deleted : ℕ) × (cleaned : ℕ → Shard) × (expire_shards n shards now ≡ some (deleted, cleaned))
      × CleanedShards n shards now deleted cleaned
unfolding expire_shards total
expire_shards-Cleaned zero shards now v = (
  0,
  shards,
  refl,
  record {
    sound = λ i hi. absurd (omega arith);
    table = λ i hi. absurd (omega arith);
    rest = λ i hi. refl;
    size = omega arith;
  },
)
expire_shards-Cleaned (suc n) shards now v =
    let (deleted, cleaned, ran, c) =
      expire_shards-Cleaned n shards now (λ i hi. v i (omega arith)) in
    let (count, t, once, x) = remove_expired_leases-Expired (shards n) now (v n (omega arith)) in
    (
      deleted + count,
      update cleaned n t,
      rw (ran, ◌>>=◌) (rw (c.rest n (omega arith)) (rw (once, ◌>>=◌))),
      expire_one n shards cleaned now deleted count t c x,
    )

-- The cleanup of a server leaves the live leases, and a reservation for each.
pub record Cleaned (s : Server) (now : ℕ) (t : Server) : Type 0 where
  pub inv : ServerInv t
  pub config : t.config ≡ s.config
  pub alive : t.life ≡ s.life
  pub table : (i : ℕ) → i < s.config.shard_count → (j : ℕ) → lookup (t.shards i) j ≡ view s now i j

counted_release :
    (s : Server) (shards : ℕ → Shard) (deleted : ℕ)
    → deleted ≤ s.keys
    → release_keys (record s { shards = shards }) deleted
      ≡ record s { shards = shards; keys = s.keys - deleted }
unfolding release_keys
counted_release s shards deleted le = ground arith

-- The cleanup of a server with the invariant does not panic or underflow the key counter, keeps
-- exactly the live leases of every shard, and keeps the invariant, so that the counter equals the
-- number of resident leases.
pub remove_expired_keys-Cleaned :
    (s : Server) (now : ℕ)
    → ServerInv s
    → (t : Server) × (remove_expired_keys s now ≡ some t) × Cleaned s now t
unfolding remove_expired_keys
remove_expired_keys-Cleaned s now v =
    let (deleted, cleaned, ran, c) =
      expire_shards-Cleaned s.config.shard_count s.shards now v.sound in
    let le : deleted ≤ s.keys = omega (arith, c.size, v.counted) in
    (
      record s { shards = cleaned; keys = s.keys - deleted },
      rw (ran, ◌>>=◌) (ap some (counted_release s cleaned deleted le)),
      record {
        inv = record {
          sound = c.sound;
          counted = omega (arith, c.size, v.counted);
          limited = omega (arith, v.limited);
        };
        config = refl;
        alive = refl;
        table = c.table;
      },
    )

-- No key changes in what the server grants.
pub Cleaned-Turn :
    (s t : Server) (now i k : ℕ)
    → i < s.config.shard_count
    → Cleaned s now t
    → Turn s now i k (view s now i k) t
Cleaned-Turn s t now i k hi c = record {
  inv = c.inv;
  config = c.config;
  alive = c.alive;
  here = λ j. ground (arith, c.table i hi j, live_twice now (lookup (s.shards i) j));
  others = λ i' hi' ne j. ground (arith, c.table i' hi' j, live_twice now (lookup (s.shards i') j));
}
