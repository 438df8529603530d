-- ===== src/Server/Safety/History.antt =====
-- Histories: operations dispatched one after the other to the shards of their keys.
use red_lease.Prelude.{
  ℕ, ◌%◌, ◌≤◌, ◌<◌, ◌≡◌, refl, ap, ◌∙◌, Option, some, arith, List, [], ◌∷◌, ◌>>=◌,
}
use red_lease.Protocol.{Response}
use red_lease.Server.Shard.{LeaseId}
use red_lease.Server.State.{Server, Config, Operation, apply_operation, shard_index}
use red_lease.Server.State.Inv.{ServerInv}
use red_lease.Server.Safety.{Holds, Holds-later, Releases}
use red_lease.Server.Safety.Served.{
  Served, dropped, applied, counted, apply_operation-Served, Served-Inv,
}
use red_lease.Server.Safety.Protect.{Outcome-protects}

pub record Event : Type 0 where
  pub at : ℕ
  pub op : Operation

-- An operation reaches the worker of its shard, which applies it.
pub serve : (ℕ → ℕ) → Server → Event → Option (Option Response × Server)
serve hash s e = apply_operation s (shard_index hash s e.op.key) e.op e.at

unfoldable pub run_history : (ℕ → ℕ) → Server → List Event → Option Server
unfolding serve
run_history hash s [] = some s
run_history hash s (e ∷ es) = serve hash s e >>= λ (_, t). run_history hash t es

pub shard_index-lt :
    (hash : ℕ → ℕ) (s : Server) (k : ℕ)
    → 0 < s.config.shard_count
    → shard_index hash s k < s.config.shard_count
unfolding shard_index
shard_index-lt hash s k pos = grind arith

serve-Served :
    (hash : ℕ → ℕ) (s : Server) (e : Event)
    → ServerInv s
    → 0 < s.config.shard_count
    → (r : Option Response) × (t : Server) × (serve hash s e ≡ some (r, t))
      × Served s (shard_index hash s e.op.key) e.op e.at t
unfolding serve
serve-Served hash s e v pos =
    apply_operation-Served s (shard_index hash s e.op.key) e.op e.at s.phase refl v
      (shard_index-lt hash s e.op.key pos)

-- From a server with the invariant and at least one shard every history of operations runs to its
-- end without a panic, and keeps the invariant (the key limit among it), the configuration and the
-- phase.
pub run_history_total :
    (hash : ℕ → ℕ) (s : Server) (es : List Event)
    → ServerInv s
    → 0 < s.config.shard_count
    → (t : Server) × (run_history hash s es ≡ some t)
      × ServerInv t
      × (t.config ≡ s.config)
      × (t.life ≡ s.life)
unfolding run_history
run_history_total hash s [] v pos = (s, refl, v, refl, refl)
run_history_total hash s (e ∷ es) v pos =
    let (r, u, ran, x) = serve-Served hash s e v pos in
    let (inv, conf, phase) = Served-Inv s u (shard_index hash s e.op.key) e.op e.at v x in
    let more : 0 < u.config.shard_count = omega (arith, ap (λ (c : Config). c.shard_count) conf) in
    let (t, rest, inv', conf', phase') = run_history_total hash u es inv more in
    (t, rw (ran, ◌>>=◌) rest, inv', conf' ∙ conf, phase' ∙ phase)

-- The events come in order, after `now` and before `until`.
abbrev pub During : ℕ → ℕ → List Event → Type 0
During now until [] = Unit
During now until (e ∷ es) = (now ≤ e.at) × (e.at < until) × During e.at until es

abbrev pub last_at : ℕ → List Event → ℕ
last_at now [] = now
last_at now (e ∷ es) = last_at e.at es

pub last_at-le : (now until : ℕ) (es : List Event) → During now until es → now ≤ last_at now es
last_at-le now until [] d = omega arith
last_at-le now until (e ∷ es) d = omega (arith, d.0, last_at-le e.at until es d.2)

-- None of the events releases the lease.
abbrev pub Unreleased : ℕ → LeaseId → List Event → Type 0
Unreleased k id [] = Unit
Unreleased k id (e ∷ es) = ¬ Releases e.op k id × Unreleased k id es

Served-protects :
    (hash : ℕ → ℕ) (s t : Server) (e : Event) (k : ℕ) (id : LeaseId) (until : ℕ)
    → 0 < s.config.shard_count
    → ¬ Releases e.op k id
    → Served s (shard_index hash s e.op.key) e.op e.at t
    → Holds s e.at (shard_index hash s k) k id until
    → Holds t e.at (shard_index hash s k) k id until
Served-protects hash s t e k id until pos keep (dropped idle q) h = rw q h
Served-protects hash s t e k id until pos keep (applied on o) h =
    Outcome-protects (counted s e.op) t (shard_index hash s e.op.key) e.op e.at
      (shard_index hash s k) k id until (shard_index-lt hash s k pos) (λ r. keep r.1) o
      (record { entry = h.entry; seen = h.seen; owner = h.owner; lasts = h.lasts })

pub same_index :
    (hash : ℕ → ℕ) (s t : Server) (k : ℕ)
    → t.config ≡ s.config
    → shard_index hash t k ≡ shard_index hash s k
unfolding shard_index
same_index hash s t k e = ap (λ (c : Config). hash k % c.shard_count) e

-- A lease that a server with the invariant holds until a given instant is still held after every
-- history of operations, ordered in time and ending before that instant, none of which releases
-- that lease.
pub run_history_protects :
    (hash : ℕ → ℕ) (s t : Server) (now : ℕ) (k : ℕ) (id : LeaseId) (until : ℕ) (es : List Event)
    → ServerInv s
    → 0 < s.config.shard_count
    → During now until es
    → Unreleased k id es
    → run_history hash s es ≡ some t
    → Holds s now (shard_index hash s k) k id until
    → Holds t (last_at now es) (shard_index hash t k) k id until
unfolding run_history
run_history_protects hash s t now k id until [] v pos d u ran h =
    let same : s ≡ t = ground arith in rw (← same) h
run_history_protects hash s t now k id until (e ∷ es) v pos d u ran h =
    let (r, m, once, x) = serve-Served hash s e v pos in
    let (inv, conf, phase) = Served-Inv s m (shard_index hash s e.op.key) e.op e.at v x in
    let more : 0 < m.config.shard_count = omega (arith, ap (λ (c : Config). c.shard_count) conf) in
    let rest : run_history hash m es ≡ some t = rw (once, ◌>>=◌) at ran in
    let kept = Served-protects hash s m e k id until pos u.0 x (Holds-later e.at d.0 d.1 h) in
    run_history_protects hash m t e.at k id until es inv more d.2 u.1 rest
      (rw (same_index hash s m k conf) kept)
