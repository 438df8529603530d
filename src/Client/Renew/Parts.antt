-- ===== src/Client/Renew/Parts.antt =====
-- How a call of Renew ends, and the parts of client/renew.go that only change what is confirmed.
use red_lease.Prelude.{
  ℕ, suc, ◌<◌, ◌≡◌, refl, ◌∙◌, max, Bool, true, false, not, ◌||◌, List, [], ◌∷◌, ◌++◌, Option, none,
  some, length, get_elem?, ltb, if◌then◌else◌, arith, Bool-cases, inl, inr,
}
use red_lease.Client.Quorum.{size, best_acquire_quorum}
use red_lease.Protocol.ClientOperation
use red_lease.Client.Lease.{
  Lease, is_lease_active, clear_confirmed, start_background_healing, healing_needed,
}
use red_lease.Client.Collect.{
  Failure, Clock, already_released, Command, send_renew, collect_rest, start_healing, send_all,
}
use red_lease.Client.Collect.Known.{Backed}
use red_lease.Client.Collect.Sound.{Read, Fresh, Fresh-refl, Fresh-trans}
use red_lease.Client.Renew.{RenewResult, renewed, not_renewed, clear_failed, leave, RenewCall}
use red_lease.Client.Renew.Pass.{renew_success, clear-Fresh}

-- The same lease, whatever became of its validity.
pub record Continued (l m : Lease) : Type 0 where
  pub sequence : m.sequence ≡ l.sequence
  pub key : m.key ≡ l.key
  pub count : m.server_count ≡ l.server_count
  pub active : m.lifecycle ≡ l.lifecycle

-- A quorum of the answers to this call is valid to `until`, which was later than a clock that the call
-- read while it was not cancelled. The lease is valid to the later of this and what it was before.
pub record Extended (quorum : ℕ) (call : RenewCall) (lease after : Lease) : Type 0 where
  pub same : Continued lease after
  pub candidates : List ℕ
  pub successful : List Bool
  pub all : length candidates ≡ lease.server_count
  pub marks : length successful ≡ lease.server_count
  pub until : ℕ
  pub chosen : best_acquire_quorum candidates successful (size quorum) ≡ some until
  pub answers :
      (r candidate : ℕ)
      → get_elem? candidates r ≡ some candidate
      → get_elem? successful r ≡ some true
      → Backed ClientOperation.renew renew_success call.operation_start call.waits r candidate
  pub clock : Clock
  pub read : Read clock call.waits
  pub valid : clock.now < until
  pub going : clock.cancelled ≡ none
  pub longest : after.valid_until ≡ max lease.valid_until until

-- Nothing is sent after the requests.
pub data Left : List Command → Type 0 where
  outstanding : Left (collect_rest ∷ [])
  healing : Left (start_healing ∷ [])
  well : Left []

-- How a call ends: refused for a released lease, without a new quorum and with the validity as it was,
-- or with a new quorum.
pub data Renewal (quorum : ℕ) (call : RenewCall) (lease : Lease)
    : RenewResult → Lease → List Command → Type 0 where
  refused :
      is_lease_active lease ≡ false
      → Renewal quorum call lease (not_renewed (some already_released)) lease []
  kept :
      (cause : Option Failure) (after : Lease) (rest : List Command)
      → Continued lease after
      → after.valid_until ≡ lease.valid_until
      → Left rest
      → Renewal quorum call lease
          (not_renewed cause)
          after
          (send_all send_renew 0 lease.server_count ++ rest)
  extended :
      (after : Lease) (rest : List Command)
      → Extended quorum call lease after
      → Left rest
      → Renewal quorum call lease renewed after (send_all send_renew 0 lease.server_count ++ rest)

pub clear_failed-Fresh :
    (r : ℕ) (rs : List (Option Failure)) (l : Lease) → Fresh l (clear_failed r rs l)
unfolding clear_failed
clear_failed-Fresh r [] l = Fresh-refl l
clear_failed-Fresh r (none ∷ rs) l = clear_failed-Fresh (suc r) rs l
clear_failed-Fresh r (some e ∷ rs) l =
    Fresh-trans (clear-Fresh l r) (clear_failed-Fresh (suc r) rs (clear_confirmed l r))

pub leave-Left :
    (received : ℕ) (l : Lease) (now : ℕ)
    → Fresh l (leave received l now).0 × Left (leave received l now).1
unfolding leave start_background_healing
leave-Left received l now = elim (Bool-cases (ltb received l.server_count)) [
  | inl rest ↦ rw (rest, leave) (Fresh-refl l, outstanding)
  | inr all ↦ elim (Bool-cases (l.healing || not (healing_needed l now))) [
    | inl fine ↦ rw (all, fine, leave) (Fresh-refl l, well)
    | inr sick ↦
        rw (all, sick, leave)
          (
            record { sequence = refl; key = refl; count = refl; active = refl; valid = refl },
            healing,
          )
  ]
]

abbrev pub raised : Lease → ℕ → Lease
raised l until = if ltb l.valid_until until then record l { valid_until = until } else l

pub raised-Continued :
    (l : Lease) (until : ℕ)
    → Continued l (raised l until) × ((raised l until).valid_until ≡ max l.valid_until until)
raised-Continued l until = (
  record {
    sequence = ground arith;
    key = ground arith;
    count = ground arith;
    active = ground arith;
  },
  ground arith,
)

pub Continued-Fresh : {l m k : Lease} → Continued l m → Fresh m k → Continued l k
Continued-Fresh c f = record {
  sequence = f.sequence ∙ c.sequence;
  key = f.key ∙ c.key;
  count = f.count ∙ c.count;
  active = f.active ∙ c.active;
}
