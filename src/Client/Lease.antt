-- ===== src/Client/Lease.antt =====
-- client/lease.go, the local release of client/release.go, and the conditions of client/healing.go.
-- An instant is a number of nanoseconds, and the zero time is 0. The locks of the lease make each of
-- these operations one step.

use red_lease.Prelude.{
  ℕ, zero, suc, ◌-◌, ◌/◌, Bool, true, false, ◌&&◌, ◌||◌, not, List, [], ◌∷◌, Option, none, some,
  ltb, leb, if◌then◌else◌, update,
}
use red_lease.Protocol.{millisecond}

pub data Lifecycle : Type 0 where
  lease_active lease_released : Lifecycle

-- `server_count` is the length of the client's list of replicas.
pub record Lease : Type 0 where
  pub server_count : ℕ
  pub sequence : ℕ
  pub key : ℕ
  pub requested_ttl_ms : ℕ
  pub now : ℕ
  pub lifecycle : Lifecycle
  pub valid_until : ℕ
  pub confirmed_until : ℕ → ℕ
  pub healing : Bool

unfoldable pub new_lease : ℕ → ℕ → ℕ → ℕ → ℕ → Lease
new_lease server_count sequence key requested_ttl_ms now = record {
  server_count = server_count;
  sequence = sequence;
  key = key;
  requested_ttl_ms = requested_ttl_ms;
  now = now;
  lifecycle = lease_active;
  valid_until = 0;
  confirmed_until = λ r. 0;
  healing = false;
}

abbrev pub is_lease_active : Lease → Bool
is_lease_active l = elim l.lifecycle [ lease_active ↦ true | lease_released ↦ false ]

-- `RemainingTTLms`: 0 stands for every remaining time that is not positive.
unfoldable pub lease_remaining_ttl_ms : Lease → ℕ → ℕ
lease_remaining_ttl_ms l now = if is_lease_active l then (l.valid_until - now) / millisecond else 0

unfoldable pub mark_confirmed : Lease → ℕ → ℕ → ℕ → Lease
mark_confirmed l replica confirmed_until now =
    if is_lease_active l
      && ltb now confirmed_until
      && ltb (l.confirmed_until replica) confirmed_until
    then record l { confirmed_until = update l.confirmed_until replica confirmed_until }
    else l

unfoldable pub clear_confirmed : Lease → ℕ → Lease
clear_confirmed l replica =
    if is_lease_active l
    then record l { confirmed_until = update l.confirmed_until replica 0 }
    else l

-- The local part of `Release`, and whether the requests are sent.
unfoldable pub release_lease : Lease → Lease × Bool
release_lease l =
    if is_lease_active l
    then (record l { lifecycle = lease_released; valid_until = 0; confirmed_until = λ r. 0 }, true)
    else (l, false)

-- Whether one of the first `n` replicas is not confirmed to the end of the lease.
pub some_unconfirmed : ℕ → Lease → Bool
some_unconfirmed zero l = false
some_unconfirmed (suc n) l = some_unconfirmed n l || ltb (l.confirmed_until n) l.valid_until

unfoldable pub healing_needed : Lease → ℕ → Bool
unfolding some_unconfirmed
healing_needed l now =
    if not (is_lease_active l) || leb l.valid_until now
    then false
    else some_unconfirmed l.server_count l

-- Of the `n` replicas from `r` on, those that are not confirmed now.
pub stale_replicas : ℕ → ℕ → Lease → ℕ → List ℕ
stale_replicas zero r l now = []
stale_replicas (suc n) r l now =
    let rest = stale_replicas n (suc r) l now in
    if leb (l.confirmed_until r) now then r ∷ rest else rest

-- `none` stands for a lease that needs no healing.
unfoldable pub healing_targets : Lease → ℕ → Option (List ℕ)
unfolding healing_needed stale_replicas
healing_targets l now =
    if healing_needed l now then some (stale_replicas l.server_count 0 l now) else none

-- With whether a healing task is started.
unfoldable pub start_background_healing : Lease → ℕ → Lease × Bool
unfolding healing_needed
start_background_healing l now =
    if l.healing || not (healing_needed l now)
    then (l, false)
    else (record l { healing = true }, true)

unfoldable pub finish_background_healing : Lease → ℕ → Lease × Bool
unfolding healing_needed
finish_background_healing l now =
    let restart = healing_needed l now in (record l { healing = restart }, restart)
