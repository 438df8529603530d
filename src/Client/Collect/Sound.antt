-- ===== src/Client/Collect/Sound.antt =====
-- What holds while the answers are collected, and how a quorum is found.
use red_lease.Prelude.{
  ℕ, ◌-◌, ◌<◌, ◌≡◌, refl, ◌∙◌, true, List, ◌∷◌, Option, none, some, ltb, ltb→lt, arith, Bool-cases,
  Option-cases, inl, inr,
}
use red_lease.Protocol.{Response}
use red_lease.Protocol.LeaseStatus
use red_lease.Client.Quorum.{best_acquire_quorum, acquire_quorum_still_possible}
use red_lease.Client.Lease.{Lease, mark_confirmed}
use red_lease.Client.Collect.{
  CallResult, Clock, Wait, response_received, Collected, Progress, collecting, decided, confirmed,
  unless_hopeless, quorum_decision,
}
use red_lease.Client.Collect.Known.{Heard, there, Known, same-Known}

-- The event was read with these clocks.
pub data Read (clock : Clock) : List Wait → Type 0 where
  first :
      {r : ℕ} {result : CallResult} {ws : List Wait}
      → Read clock (response_received r result clock ∷ ws)
  rest : {w : Wait} {ws : List Wait} → Read clock ws → Read clock (w ∷ ws)

-- A replica reported that its key limit was reached.
pub record Limited (ws : List Wait) : Type 0 where
  pub replica : ℕ
  pub response : Response
  pub heard : Heard replica response ws
  pub limited : response.status ≡ LeaseStatus.key_limit_reached

-- The lease is the one that the call made, but for what is confirmed.
pub record Fresh (l m : Lease) : Type 0 where
  pub sequence : m.sequence ≡ l.sequence
  pub key : m.key ≡ l.key
  pub count : m.server_count ≡ l.server_count
  pub active : m.lifecycle ≡ l.lifecycle
  pub valid : m.valid_until ≡ l.valid_until

pub Fresh-refl : (l : Lease) → Fresh l l
Fresh-refl l = record { sequence = refl; key = refl; count = refl; active = refl; valid = refl }

pub Fresh-trans : {l m k : Lease} → Fresh l m → Fresh m k → Fresh l k
Fresh-trans a b = record {
  sequence = b.sequence ∙ a.sequence;
  key = b.key ∙ a.key;
  count = b.count ∙ a.count;
  active = b.active ∙ a.active;
  valid = b.valid ∙ a.valid;
}

pub mark-Fresh : (l : Lease) (r until now : ℕ) → Fresh l (mark_confirmed l r until now)
unfolding mark_confirmed
mark-Fresh l r until now = record {
  sequence = ground arith;
  key = ground arith;
  count = ground arith;
  active = ground arith;
  valid = ground arith;
}

-- `Support` is what a candidate rests on, and `all` are the events of the call.
module _ (quorum_size n : ℕ) (Support : ℕ → ℕ → Type 0) (l : Lease) (all : List Wait) where
  -- What holds of the answers after any number of passes.
  pub record Sound (s : Collected) : Type 0 where
    pub known : Known Support n s
    pub lease : Fresh l s.lease
    pub limit : s.key_limit_seen ≡ true → Limited all

  -- How a quorum was found.
  pub record Chosen (s : Collected) (valid_until : ℕ) : Type 0 where
    pub sound : Sound s
    pub best : best_acquire_quorum s.candidates s.successful quorum_size ≡ some valid_until
    pub clock : Clock
    pub read : Read clock all
    pub valid : clock.now < valid_until
    pub going : clock.cancelled ≡ none

  abbrev pub Passed : ℕ → Progress → Type 0
  Passed received (collecting t) = Sound t × (t.received ≡ received)
  Passed received (decided t) = Sound t
  Passed received (confirmed t valid_until) = Chosen t valid_until

  pub hopeless-Passed :
      (s : Collected) (clock : Clock)
      → Sound s
      → Passed s.received (unless_hopeless quorum_size s clock)
  unfolding unless_hopeless
  hopeless-Passed s clock v =
      elim (Bool-cases (
        acquire_quorum_still_possible s.candidates s.successful (s.lease.server_count - s.received)
          clock.later quorum_size)) [
            | inl e ↦ rw (e, unless_hopeless) (v, refl)
            | inr e ↦ rw (e, unless_hopeless) v
          ]

  pub noted-Sound :
      (s t : Collected)
      → Sound s
      → t.candidates ≡ s.candidates
      → t.successful ≡ s.successful
      → t.lease ≡ s.lease
      → (t.key_limit_seen ≡ true → Limited all)
      → Sound t
  noted-Sound s t v cs bs e lim = record {
    known = same-Known Support n s t v.known cs bs (rw e v.known.size);
    lease = rw e v.lease;
    limit = lim;
  }

  pub decision-Passed :
      (s : Collected) (clock : Clock) (o : Option ℕ)
      → Sound s
      → Read clock all
      → best_acquire_quorum s.candidates s.successful quorum_size ≡ o
      → Passed s.received (quorum_decision quorum_size s clock o)
  unfolding quorum_decision
  decision-Passed s clock none v read e = hopeless-Passed s clock v
  decision-Passed s clock (some until) v read e = elim (Bool-cases (ltb clock.now until)) [
    | inr late ↦ rw (late, quorum_decision) (hopeless-Passed s clock v)
    | inl valid ↦ elim (Option-cases clock.cancelled) [
      | inr (cause, c) ↦ rw (valid, c, quorum_decision) (noted-Sound s _ v refl refl refl v.limit)
      | inl c ↦
          rw (valid, c, quorum_decision)
            (record {
              sound = v;
              best = e;
              clock = clock;
              read = read;
              valid = ltb→lt _ _ valid;
              going = c;
            })
    ]
  ]

  -- The events that a pass may read are events of the call.
  pub record Part (ws : List Wait) : Type 0 where
    pub heard : (r : ℕ) (response : Response) → Heard r response ws → Heard r response all
    pub read : (clock : Clock) → Read clock ws → Read clock all

  pub rest-Part : (w : Wait) (ws : List Wait) → Part (w ∷ ws) → Part ws
  rest-Part w ws p = record {
    heard = λ r response h. p.heard r response (there h);
    read = λ clock h. p.read clock (rest h);
  }

  abbrev pub Ended : Collected × Option ℕ → Type 0
  Ended (t, none) = Sound t
  Ended (t, some valid_until) = Chosen t valid_until
