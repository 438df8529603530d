-- ===== src/Server/Lifecycle.antt =====
-- server/server.go: the configuration, New, the phases, fail and Close. Goroutines are events: the timer
-- of runQuarantine, the ticker of runExpiredLeaseCleanup, an operation that a worker takes from its queue.
pub mod Phases
pub mod Masks
pub mod Startup
pub mod Restart
use Prim.Native.Nat.{bit_and}
use red_lease.Prelude.{
  ℕ, zero, suc, ◌+◌, ◌-◌, ◌*◌, ◌≤◌, ◌<◌, ◌≡◌, Bool, true, false, not, ◌&&◌, Option, none, some,
  List, [], ◌∷◌, ltb, leb, ◌==◌, if◌then◌else◌, ◌>>=◌,
}
use red_lease.Protocol.{Response, millisecond, max_ttl_ms}
use red_lease.Server.Heap.{Heap}
use red_lease.Server.Shard.{Shard, zero_id}
use red_lease.Server.State.{
  Server, Config, Life, Operation, Phase, quarantine, active, failed, closed, fail,
  remove_expired_keys, apply_operation,
}

-- Config as the caller fills it in.
pub record RawConfig : Type 0 where
  pub max_ttl : ℕ
  pub max_keys : ℕ
  pub has_logger : Bool
  pub shard_count : ℕ

pub data ConfigError : Type 0 where
  nil_logger zero_max_ttl max_ttl_too_large shard_count_not_power_of_two nil_listener : ConfigError

pub data Result {ℓ} (A : Type ℓ) : Type ℓ where
  ok : A → Result A
  err : ConfigError → Result A

abbrev pub default_max_keys : ℕ
default_max_keys = 10_000

abbrev pub default_shard_count : ℕ
default_shard_count = 256

-- safetyMargin and RestartQuarantineDuration, in nanoseconds.
abbrev pub safety_margin : ℕ
safety_margin = 100 * millisecond

abbrev pub restart_quarantine : ℕ
restart_quarantine = max_ttl_ms * millisecond + safety_margin + millisecond

-- `none` when the configuration is valid.
pub validate : RawConfig → Option ConfigError
validate c =
    if not c.has_logger
    then some nil_logger
    else if c.max_ttl == 0
    then some zero_max_ttl
    else if ltb max_ttl_ms c.max_ttl
    then some max_ttl_too_large
    else if not (c.shard_count == 0) && not (bit_and c.shard_count (c.shard_count - 1) == 0)
    then some shard_count_not_power_of_two
    else none

pub resolve_config : RawConfig → Result Config
unfolding validate
resolve_config c = elim (validate c) [
  | some e ↦ err e
  | none ↦ ok (record {
    max_ttl = c.max_ttl;
    max_keys = if c.max_keys == 0 then default_max_keys else c.max_keys;
    shard_count = if c.shard_count == 0 then default_shard_count else c.shard_count;
  })
]

-- A shard as New makes it: the fields of objects not yet allocated are 0.
abbrev pub empty_shard : Shard
empty_shard = record {
  key = λ p. 0;
  id = λ p. zero_id;
  deadline = λ p. 0;
  deadlines = record { len = 0; slots = λ i. 0; heap_index = λ p. some 0 };
  leases = λ k. none;
  pool = [];
  allocated = 0;
}

abbrev pub empty_server : Config → Server
empty_server config = record {
  config = config;
  keys = 0;
  operation_totals = record { acquires = 0; renews = 0; releases = 0 };
  shards = λ i. empty_shard;
  life = record {
    phase = quarantine;
    fail_once = false;
    cancelled = false;
    connections_closed = false;
    fatal = 0;
  };
}

-- New, for a listener that is or is not nil.
unfoldable pub new_server : Bool → RawConfig → Result Server
unfolding resolve_config
new_server has_listener c =
    if not has_listener
    then err nil_listener
    else elim (resolve_config c) [ err e ↦ err e | ok config ↦ ok (empty_server config) ]

abbrev pub is_active : Server → Bool
is_active s = elim s.phase [ active ↦ true | _ ↦ false ]

quarantine_over : Life → Life
quarantine_over l = elim l.phase [ quarantine ↦ record l { phase = active } | _ ↦ l ]

-- The timer of runQuarantine: `CompareAndSwap(phaseQuarantine, phaseActive)`.
unfoldable pub end_quarantine : Server → Server
unfolding quarantine_over
end_quarantine s = record s { life = quarantine_over s.life }

-- One tick of runExpiredLeaseCleanup.
unfoldable pub cleanup_tick : Server → ℕ → Option Server
cleanup_tick s now = if is_active s then remove_expired_keys s now else some s

close_life : Life → Life
close_life l = elim l.phase [
  | closed ↦ l
  | _ ↦ record l { phase = closed; cancelled = true; connections_closed = true }
]

-- The first call of Close, up to the point where it waits for the workers; later calls do nothing, and
-- so does this function on a server that is closed.
pub close : Server → Server
unfolding close_life
close s = record s { life = close_life s.life }

-- unavailableError: what new work is refused with.
pub data Unavailable : Type 0 where
  server_failed server_closed : Unavailable

unfoldable pub unavailable_error : Phase → Option Unavailable
unavailable_error failed = some server_failed
unavailable_error closed = some server_closed
unavailable_error quarantine = none
unavailable_error active = none

unfoldable pub unavailable_error_unless_closed : Phase → Option Unavailable
unfolding unavailable_error
unavailable_error_unless_closed closed = none
unavailable_error_unless_closed quarantine = unavailable_error quarantine
unavailable_error_unless_closed active = unavailable_error active
unavailable_error_unless_closed failed = unavailable_error failed

-- What may happen to a server.
pub data Step (s : Server) (t : Server) : Type 0 where
  quarantine_ends : t ≡ end_quarantine s → Step s t
  cleanup : (now : ℕ) → cleanup_tick s now ≡ some t → Step s t
  operation :
      (i : ℕ) (op : Operation) (now : ℕ) (r : Option Response)
      → i < s.config.shard_count
      → apply_operation s i op now ≡ some (r, t)
      → Step s t
  failure : t ≡ fail s → Step s t
  closing : t ≡ close s → Step s t

pub data Reach (s : Server) : Server → Type 0 where
  here : Reach s s
  next : {t u : Server} → Reach s t → Step t u → Reach s u
