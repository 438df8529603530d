-- ===== src/Server/Safety/Served.antt =====
-- apply and applyOperation of server/state.go.
use red_lease.Prelude.{ℕ, ◌<◌, ◌≡◌, refl, ◌≢◌, Option, none, some, arith}
use red_lease.Protocol.{Response}
use red_lease.Server.State.{
  Server, Operation, Phase, quarantine, active, failed, closed, count_operation, apply,
  apply_operation,
}
use red_lease.Server.State.Inv.{ServerInv}
use red_lease.Server.Safety.Protect.{Outcome, Outcome-Turn, run_operation-Outcome}

-- Counting an operation touches nothing that the invariant or a view speaks of.
abbrev pub counted : Server → Operation → Server
counted s op = record s { operation_totals = count_operation op.kind s.operation_totals }

-- What applying one operation does: nothing unless the server is active, or the operation's outcome.
pub data Served (s : Server) (i : ℕ) (op : Operation) (now : ℕ) (t : Server) : Type 0 where
  dropped : s.phase ≢ active → t ≡ s → Served s i op now t
  applied : s.phase ≡ active → Outcome (counted s op) i op now t → Served s i op now t

pub apply_operation-Served :
    (s : Server) (i : ℕ) (op : Operation) (now : ℕ) (phase : Phase)
    → s.phase ≡ phase
    → ServerInv s
    → i < s.config.shard_count
    → (r : Option Response) × (t : Server) × (apply_operation s i op now ≡ some (r, t))
      × Served s i op now t
unfolding apply_operation apply
apply_operation-Served s i op now active p v hi =
    let inv : ServerInv (counted s op) = record {
      sound = v.sound;
      counted = v.counted;
      limited = v.limited;
    } in
    let (r, t, ran, o) = run_operation-Outcome (counted s op) i op now inv op.kind refl hi in
    (some r, t, ground (arith, ran), applied p o)
apply_operation-Served s i op now quarantine p v hi =
    (none, s, ground arith, dropped (λ e. ground arith) refl)
apply_operation-Served s i op now failed p v hi =
    (none, s, ground arith, dropped (λ e. ground arith) refl)
apply_operation-Served s i op now closed p v hi =
    (none, s, ground arith, dropped (λ e. ground arith) refl)

pub Served-Inv :
    (s t : Server) (i : ℕ) (op : Operation) (now : ℕ)
    → ServerInv s
    → Served s i op now t
    → ServerInv t × (t.config ≡ s.config) × (t.life ≡ s.life)
Served-Inv s t i op now v (dropped idle q) = rw q (v, refl, refl)
Served-Inv s t i op now v (applied on o) =
    let (new, turn) = Outcome-Turn o in (turn.inv, turn.config, turn.alive)
