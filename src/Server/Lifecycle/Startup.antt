-- ===== src/Server/Lifecycle/Startup.antt =====
-- Configuration and the state that New makes.
use Prim.Native.Nat.{bit_and}
use red_lease.Prelude.{
  ℕ, zero, suc, ◌-◌, ◌≤◌, ◌<◌, ◌≡◌, refl, sym, Bool, true, false, not, ◌&&◌, none, some, arith, ◌⊎◌,
  inl, inr, ◌==◌, if◌then◌else◌, ℕ_discrete, Option-cases,
}
use red_lease.Server.Lifecycle.Masks.{IsPower, bit_and-IsPower, IsPower-bit_and}
use red_lease.Server.Shard.Inv.{ShardInv}
use red_lease.Server.State.{Server, Config, quarantine}
use red_lease.Server.State.Inv.{ServerInv, total}
use red_lease.Server.Lifecycle.{
  RawConfig, ok, err, ConfigError, nil_listener, validate, default_max_keys, default_shard_count,
  resolve_config, empty_shard, empty_server, new_server,
}

pub empty_shard-Inv : ShardInv empty_shard
empty_shard-Inv = record {
  good = record { heap = λ c q r. absurd (omega arith); linked = λ i hi. absurd (omega arith) };
  resident = λ i hi. absurd (omega arith);
  indexed = λ k p e. absurd (ground arith);
  bounded = λ i hi. absurd (omega arith);
  pooled = tt;
}

total-empty : (n : ℕ) → total n (λ i. empty_shard) ≡ 0
unfolding total
total-empty zero = refl
total-empty (suc n) = omega (arith, total-empty n)

-- What New asks of its arguments.
pub record Accepted (has_listener : Bool) (raw : RawConfig) : Type 0 where
  pub listener : has_listener ≡ true
  pub logger : raw.has_logger ≡ true
  pub ttl_positive : 0 < raw.max_ttl
  pub ttl_bounded : raw.max_ttl ≤ 5_000
  pub shards : (raw.shard_count ≡ 0) ⊎ IsPower raw.shard_count

-- The configuration that it makes of them: the defaults stand for zero values.
pub record Resolved (raw : RawConfig) (c : Config) : Type 0 where
  pub ttl : c.max_ttl ≡ raw.max_ttl
  pub keys : c.max_keys ≡ (if raw.max_keys == 0 then 10_000 else raw.max_keys)
  pub shards : c.shard_count ≡ (if raw.shard_count == 0 then 256 else raw.shard_count)
  pub power : IsPower c.shard_count

-- The test of the number of shards.
IsPower-test :
    (n : ℕ) → (not (n == 0) && not (bit_and n (n - 1) == 0)) ≡ false → (n ≡ 0) ⊎ IsPower n
IsPower-test n e = elim (ℕ_discrete n 0) [
  | yes none_given ↦ inl none_given
  | no given ↦ inr (bit_and-IsPower n (omega (arith, given)) (ground (arith, e, given)))
]

test-IsPower :
    (n : ℕ) → (n ≡ 0) ⊎ IsPower n → (not (n == 0) && not (bit_and n (n - 1) == 0)) ≡ false
test-IsPower n (inl none_given) = ground (arith, none_given)
test-IsPower n (inr power) = ground (arith, IsPower-bit_and n power)

IsPower-shards : (n : ℕ) → (n ≡ 0) ⊎ IsPower n → IsPower (if n == 0 then 256 else n)
IsPower-shards n (inl none_given) = (8, ground (arith, none_given))
IsPower-shards n (inr (k, is)) = elim (ℕ_discrete n 0) [
  | yes none_given ↦ (8, ground (arith, none_given))
  | no given ↦ (k, ground (arith, given, is))
]

-- The configuration that New makes of a valid one.
abbrev resolution : RawConfig → Config
resolution raw = record {
  max_ttl = raw.max_ttl;
  max_keys = if raw.max_keys == 0 then default_max_keys else raw.max_keys;
  shard_count = if raw.shard_count == 0 then default_shard_count else raw.shard_count;
}

pub empty_server-Inv : (c : Config) → ServerInv (empty_server c)
empty_server-Inv c = record {
  sound = λ i hi. empty_shard-Inv;
  counted = sym (total-empty c.shard_count);
  limited = omega arith;
}

-- What New returns.
pub record Started (raw : RawConfig) (s : Server) : Type 0 where
  pub quiet : s.phase ≡ quarantine
  pub empty : s.keys ≡ 0
  pub healthy : (s.fail_once ≡ false) × (s.fatal ≡ 0)
  pub inv : ServerInv s
  pub config : Resolved raw s.config

module _ (raw : RawConfig) where
  validate-Accepted : validate raw ≡ none → Accepted true raw
  unfolding validate
  validate-Accepted e = record {
    listener = refl;
    logger = ground (arith, e);
    ttl_positive = ground (arith, e);
    ttl_bounded = ground (arith, e);
    shards = IsPower-test raw.shard_count (ground (arith, e));
  }

  refused-Accepted : (e : ConfigError) → validate raw ≡ some e → ¬ Accepted true raw
  unfolding validate
  refused-Accepted e is h =
      let power = test-IsPower raw.shard_count h.shards in
      ground (arith, is, power, h.logger, h.ttl_positive, h.ttl_bounded)

  resolution-Started : Accepted true raw → Started raw (empty_server (resolution raw))
  resolution-Started h = record {
    quiet = refl;
    empty = refl;
    healthy = (refl, refl);
    inv = empty_server-Inv (resolution raw);
    config = record {
      ttl = refl;
      keys = refl;
      shards = refl;
      power = IsPower-shards raw.shard_count h.shards;
    };
  }

-- New succeeds exactly when the listener and the logger are there, the maximum TTL is positive and
-- at most 5000 ms, and the number of shards is 0 or a power of two. The server that it then
-- returns is in quarantine, has no keys and no failure, satisfies the invariant, and has the given
-- TTL, 10000 keys and 256 shards where 0 was given and the given numbers otherwise, and a power of
-- two of shards. In every other case New returns an error.
pub new_server_decides :
    (has_listener : Bool) (raw : RawConfig)
    → ((s : Server) × (new_server has_listener raw ≡ ok s)
        × Accepted has_listener raw
        × Started raw s)
      ⊎ ((e : ConfigError) × (new_server has_listener raw ≡ err e) × (¬ Accepted has_listener raw))
unfolding new_server resolve_config
new_server_decides false raw = inr (nil_listener, refl, λ h. ground (arith, h.listener))
new_server_decides true raw = elim (Option-cases (validate raw)) [
  | inl fine ↦
      let accepted = validate-Accepted raw fine in
      inl (
        empty_server (resolution raw),
        rw (fine, new_server, resolve_config) refl,
        accepted,
        resolution-Started raw accepted,
      )
  | inr (e, wrong) ↦
      inr (e, rw (wrong, new_server, resolve_config) refl, refused-Accepted raw e wrong)
]

-- A server that New has returned.
pub new_server-Started :
    (has_listener : Bool) (raw : RawConfig) (s : Server)
    → new_server has_listener raw ≡ ok s
    → Started raw s
new_server-Started has_listener raw s made = elim (new_server_decides has_listener raw) [
  | inl (t, e, accepted, started) ↦ let same : s ≡ t = ground (arith, made, e) in rw same started
  | inr (x, e, no_way) ↦ absurd (ground (arith, made, e))
]
