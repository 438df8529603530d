-- ===== src/Server/State/Inv.antt =====
-- The invariant of a server, and how a step on one shard keeps it.
use red_lease.Prelude.{
  ℕ, zero, suc, ◌+◌, ◌-◌, ◌≤◌, ◌<◌, ◌≡◌, refl, ap, ◌∙◌, ◌≢◌, Option, none, arith, ◌==◌,
  if◌then◌else◌, update, ℕ_discrete,
}
use red_lease.Server.Shard.{Shard, Entry, lookup}
use red_lease.Server.Shard.Inv.{ShardInv}
use red_lease.Server.Shard.Expire.{live}
use red_lease.Server.Shard.Remove.{Dropped}
use red_lease.Server.State.{Server, Config, put_shard, release_keys}

-- The number of leases that the first `n` shards hold, expired ones included.
unfoldable pub total : ℕ → (ℕ → Shard) → ℕ
total zero shards = 0
total (suc n) shards = total n shards + (shards n).deadlines.len

-- Every reservation of a key is a resident lease.
pub record ServerInv (s : Server) : Type 0 where
  pub sound : (i : ℕ) → i < s.config.shard_count → ShardInv (s.shards i)
  pub counted : s.keys ≡ total s.config.shard_count s.shards
  pub limited : s.keys ≤ s.config.max_keys

-- What the server grants at `now`: expired leases are not seen.
abbrev pub view : Server → ℕ → ℕ → ℕ → Option Entry
view s now i j = live now (lookup (s.shards i) j)

-- At `now` the key `k` of shard `i` has become `new`, and no other key changed.
pub record Turn (s : Server) (now i k : ℕ) (new : Option Entry) (t : Server) : Type 0 where
  pub inv : ServerInv t
  pub config : t.config ≡ s.config
  pub alive : t.life ≡ s.life
  pub here : (j : ℕ) → view t now i j ≡ (if j == k then new else view s now i j)
  pub others :
      (i' : ℕ) → i' < s.config.shard_count → i' ≢ i → (j : ℕ) → view t now i' j ≡ view s now i' j

pub total_above :
    (n i : ℕ) (shards : ℕ → Shard) (t : Shard)
    → n ≤ i
    → total n (update shards i t) ≡ total n shards
unfolding total
total_above zero i shards t le = refl
total_above (suc n) i shards t le = ground (arith, total_above n i shards t)

pub total-update :
    (n i : ℕ) (shards : ℕ → Shard) (t : Shard)
    → i < n
    → total n (update shards i t) + (shards i).deadlines.len ≡ total n shards + t.deadlines.len
unfolding total
total-update zero i shards t lt = absurd (omega arith)
total-update (suc n) i shards t lt =
    ground (arith, total-update n i shards t, total_above n i shards t)

pub len-le-total :
    (n i : ℕ) (shards : ℕ → Shard) → i < n → (shards i).deadlines.len ≤ total n shards
unfolding total
len-le-total zero i shards lt = absurd (omega arith)
len-le-total (suc n) i shards lt = ground (arith, len-le-total n i shards)

-- Nothing happened.
pub Turn-idle :
    (s : Server) (now i k : ℕ) (new : Option Entry)
    → ServerInv s
    → new ≡ view s now i k
    → Turn s now i k new s
Turn-idle s now i k new v e = record {
  inv = v;
  config = refl;
  alive = refl;
  here = λ j. ground arith;
  others = λ i' hi ne j. refl;
}

-- First a step that only clears away what has expired, then another.
pub Turn-after :
    {s t u : Server} {now i k : ℕ} {new : Option Entry}
    → Turn s now i k (view s now i k) t
    → Turn t now i k new u
    → Turn s now i k new u
Turn-after {s} {t} {u} {now} {i} {k} {new} a b = record {
  inv = b.inv;
  config = b.config ∙ a.config;
  alive = b.alive ∙ a.alive;
  here = λ j. ground (arith, a.here j, b.here j);
  others = λ i' hi ne j.
      b.others i' (omega (arith, ap (λ (c : Config). c.shard_count) a.config)) ne j
      ∙ a.others i' hi ne j;
}

pub sound_put :
    (s : Server) (i : ℕ) (t : Shard)
    → ServerInv s
    → ShardInv t
    → (i' : ℕ) → i' < s.config.shard_count
    → ShardInv (update s.shards i t i')
sound_put s i t v w i' hi = elim (ℕ_discrete i' i) [
  | yes e ↦ rw (update_at e) w
  | no ne ↦ rw (update_other ne) (v.sound i' hi)
]
  where
    update_at : i' ≡ i → update s.shards i t i' ≡ t
    update_at e = ground arith

    update_other : i' ≢ i → update s.shards i t i' ≡ s.shards i'
    update_other ne = ground arith

-- A shard is replaced, and the counter follows the number of its leases.
pub put-Turn :
    (s : Server) (now i k : ℕ) (t : Shard) (keys : ℕ) (new : Option Entry)
    → ServerInv s
    → i < s.config.shard_count
    → ShardInv t
    → keys + (s.shards i).deadlines.len ≡ s.keys + t.deadlines.len
    → keys ≤ s.config.max_keys
    → ((j : ℕ) → live now (lookup t j) ≡ (if j == k then new else view s now i j))
    → Turn s now i k new (record s { shards = update s.shards i t; keys = keys })
put-Turn s now i k t keys new v hi w count limit table = record {
  inv = record {
    sound = sound_put s i t v w;
    counted = omega (arith, v.counted, total-update s.config.shard_count i s.shards t hi);
    limited = limit;
  };
  config = refl;
  alive = refl;
  here = λ j. ground (arith, table j);
  others = λ i' hi' ne j. ground arith;
}

-- A lease was removed from a shard, and its reservation given back: the counter does not underflow.
pub release-put :
    (s : Server) (now i k : ℕ) (t : Shard)
    → ServerInv s
    → i < s.config.shard_count
    → Dropped (s.shards i) k t
    → (u : Server) × (release_keys (put_shard s i t) 1 ≡ u)
      × Turn s now i k none u
      × (lookup (u.shards i) k ≡ none)
unfolding release_keys
release-put s now i k t v hi d =
    let part = len-le-total s.config.shard_count i s.shards hi in
    let pos : 1 ≤ s.keys = omega (arith, v.counted, d.size) in
    (
      record s { shards = update s.shards i t; keys = s.keys - 1 },
      ground arith,
      put-Turn s now i k t (s.keys - 1) none v hi d.inv (omega (arith, d.size))
          (omega (arith, v.limited)) (λ j. ground (arith, d.table j)),
      ground (arith, d.table k),
    )
