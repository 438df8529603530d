-- ===== src/Server/Lifecycle/Phases.antt =====
-- The life of a server: the order of its phases, the error that it reports, and its invariant.
use red_lease.Prelude.{
  ℕ, ◌≤◌, ◌<◌, ◌≡◌, refl, ap, sym, ◌∙◌, true, false, Option, some, arith, Bool-cases, inl, inr,
}
use red_lease.Protocol.{Response}
use red_lease.Server.State.{
  Server, Config, Life, fail_life, Operation, Phase, quarantine, active, failed, closed, fail,
  apply_operation,
}
use red_lease.Server.State.Inv.{ServerInv}
use red_lease.Server.State.Cleanup.{remove_expired_keys-Cleaned}
use red_lease.Server.Safety.Served.{Served, dropped, applied, apply_operation-Served, Served-Inv}
use red_lease.Server.Lifecycle.{
  end_quarantine, quarantine_over, close_life, cleanup_tick, close, Step, quarantine_ends, cleanup,
  operation, failure, closing, is_active, Reach, here, next,
}

abbrev pub rank : Phase → ℕ
rank quarantine = 0
rank active = 1
rank failed = 2
rank closed = 3

-- A server reports at most one failure, and none while it serves; one that failed or was closed has
-- cancelled its work.
pub record LifeInv (l : Life) : Type 0 where
  pub once : l.fatal ≤ 1
  pub serving : rank l.phase < 2 → (l.fail_once ≡ false) × (l.fatal ≡ 0)
  pub stopped : 2 ≤ rank l.phase → (l.cancelled ≡ true) × (l.connections_closed ≡ true)
  pub reported : l.phase ≡ failed → l.fatal ≡ 1
  pub silent : l.fail_once ≡ false → l.fatal ≡ 0

quarantine_over-LifeInv :
    (l : Life)
    → LifeInv l
    → LifeInv (quarantine_over l) × (rank l.phase ≤ rank (quarantine_over l).phase)
unfolding quarantine_over
quarantine_over-LifeInv l v = ground arith

fail_life-LifeInv :
    (l : Life) → LifeInv l → LifeInv (fail_life l) × (rank l.phase ≤ rank (fail_life l).phase)
unfolding fail_life
fail_life-LifeInv l v = ground arith

close_life-LifeInv :
    (l : Life) → LifeInv l → LifeInv (close_life l) × (rank l.phase ≤ rank (close_life l).phase)
unfolding close_life
close_life-LifeInv l v = ground arith

-- A server as it may be found at any moment.
pub record IsSound (s : Server) : Type 0 where
  pub inv : ServerInv s
  pub shards : 0 < s.config.shard_count
  pub life : LifeInv s.life
  pub cold : s.phase ≡ quarantine → s.keys ≡ 0

abbrev Advances : Server → Server → Type 0
Advances s t = IsSound t × (t.config ≡ s.config) × (rank s.phase ≤ rank t.phase)

same_life :
    (s t : Server)
    → IsSound s
    → ServerInv t
    → t.config ≡ s.config
    → t.life ≡ s.life
    → (s.phase ≡ quarantine → t.keys ≡ 0)
    → Advances s t
same_life s t v inv conf e cold =
    let phase = ap (λ (l : Life). l.phase) e in
    (
      record {
        inv = inv;
        shards = omega (arith, v.shards, ap (λ (c : Config). c.shard_count) conf);
        life = rw e v.life;
        cold = λ q. cold (sym phase ∙ q);
      },
      conf,
      rw phase (omega arith),
    )

new_life :
    (s : Server) (l : Life)
    → IsSound s
    → LifeInv l
    → rank s.phase ≤ rank l.phase
    → (l.phase ≡ quarantine → s.phase ≡ quarantine)
    → Advances s (record s { life = l })
new_life s l v w le back = (
  record {
    inv = record { sound = v.inv.sound; counted = v.inv.counted; limited = v.inv.limited };
    shards = v.shards;
    life = w;
    cold = λ q. v.cold (back q);
  },
  refl,
  le,
)

rank_zero : (p q : Phase) → rank p ≤ rank q → q ≡ quarantine → p ≡ quarantine
rank_zero p q le e = ground arith

operation_step :
    (s t : Server) (i : ℕ) (op : Operation) (now : ℕ) (r : Option Response)
    → IsSound s
    → i < s.config.shard_count
    → apply_operation s i op now ≡ some (r, t)
    → Advances s t
operation_step s t i op now r v hi ran =
    let (r', u, ran', x) = apply_operation-Served s i op now s.phase refl v.inv hi in
    let same : t ≡ u = ground (arith, ran, ran') in
    let (inv, conf, e) = Served-Inv s u i op now v.inv x in
    rw same (same_life s u v inv conf e (idle u x))
  where
    idle : (u : Server) → Served s i op now u → s.phase ≡ quarantine → u.keys ≡ 0
    idle u (dropped out q) p = ap (λ (w : Server). w.keys) q ∙ v.cold p
    idle u (applied on o) p = absurd (ground arith)

cleanup_step : (s t : Server) (now : ℕ) → IsSound s → cleanup_tick s now ≡ some t → Advances s t
unfolding cleanup_tick
cleanup_step s t now v ran = elim (Bool-cases (is_active s)) [
  | inl on ↦
      let (u, ran', c) = remove_expired_keys-Cleaned s now v.inv in
      let same : t ≡ u = ground (arith, ran, ran') in
      rw same (same_life s u v c.inv c.config c.alive (λ p. absurd (ground arith)))
  | inr off ↦
      let same : t ≡ s = ground (arith, ran) in rw same (same_life s s v v.inv refl refl v.cold)
]

pub Step-Advances : (s t : Server) → IsSound s → Step s t → Advances s t
unfolding end_quarantine close
Step-Advances s t v (quarantine_ends e) =
    let (w, le) = quarantine_over-LifeInv s.life v.life in
    rw e (new_life s (quarantine_over s.life) v w le (rank_zero _ _ le))
Step-Advances s t v (cleanup now e) = cleanup_step s t now v e
Step-Advances s t v (operation i op now r hi e) = operation_step s t i op now r v hi e
Step-Advances s t v (failure e) =
    let (w, le) = fail_life-LifeInv s.life v.life in
    rw e (unfold fail in (new_life s (fail_life s.life) v w le (rank_zero _ _ le)))
Step-Advances s t v (closing e) =
    let (w, le) = close_life-LifeInv s.life v.life in
    rw e (new_life s (close_life s.life) v w le (rank_zero _ _ le))

-- Every sequence of steps (end of the quarantine, cleanup, operations, failure, close) from a
-- sound server leads to a sound server with the same configuration, and its phase never goes back.
pub Reach-Advances :
    (s t : Server)
    → IsSound s
    → Reach s t
    → IsSound t × (t.config ≡ s.config) × (rank s.phase ≤ rank t.phase)
Reach-Advances s t v here = (v, refl, omega arith)
Reach-Advances s t v (next {t = u} r st) =
    let (w, conf, le) = Reach-Advances s u v r in
    let (w', conf', le') = Step-Advances u t w st in (w', conf' ∙ conf, omega arith)
