-- ===== src/Server/Lifecycle/Restart.antt =====
-- runQuarantine of server/server.go on the clock: a server that New has just made, after a restart that
-- lost every lease, against what a client still trusts by the rule of client/quorum.go.
use red_lease.Prelude.{
  ℕ, zero, suc, ◌^◌, ◌+◌, ◌*◌, ◌≤◌, ◌<◌, ◌≡◌, refl, ap, sym, ◌∙◌, Bool, Option, some, arith,
  Bool-cases, inl, inr,
}
use red_lease.Protocol.{Response, millisecond}
use red_lease.Client.Quorum.{candidate_valid_until}
use red_lease.Client.Quorum.Possible.{candidate_bounds}
use red_lease.Server.State.{
  Server, Life, fail_life, Operation, Phase, quarantine, active, failed, closed, fail,
  apply_operation,
}
use red_lease.Server.State.Cleanup.{remove_expired_keys-Cleaned}
use red_lease.Server.State.Inv.{ServerInv}
use red_lease.Server.Safety.Served.{apply_operation-Served, Served-Inv}
use red_lease.Server.Lifecycle.{
  RawConfig, ok, new_server, restart_quarantine, end_quarantine, close_life, cleanup_tick, close,
  is_active, quarantine_ends, cleanup, operation, failure, closing,
}
use red_lease.Server.Lifecycle.Masks.{IsPower}
use red_lease.Server.Lifecycle.Startup.{Started, new_server-Started}
use red_lease.Server.Lifecycle.Phases.{IsSound, Step-Advances}

-- What happens to a server that is `s` at the instant `boot`. The timer of runQuarantine fires no earlier
-- than its duration; everything else may happen at any instant of a clock that never goes back.
pub data Clocked (s : Server) (boot : ℕ) : ℕ → Server → Type 0 where
  booted : Clocked s boot boot s
  waits :
      {now : ℕ} {t : Server} (later : ℕ)
      → Clocked s boot now t
      → now ≤ later
      → Clocked s boot later t
  timer :
      {now : ℕ} {t : Server}
      → Clocked s boot now t
      → boot + restart_quarantine ≤ now
      → Clocked s boot now (end_quarantine t)
  operates :
      {now : ℕ} {t u : Server} (i : ℕ) (op : Operation) (r : Option Response)
      → Clocked s boot now t
      → i < t.config.shard_count
      → apply_operation t i op now ≡ some (r, u)
      → Clocked s boot now u
  cleans :
      {now : ℕ} {t u : Server}
      → Clocked s boot now t
      → cleanup_tick t now ≡ some u
      → Clocked s boot now u
  fails : {now : ℕ} {t : Server} → Clocked s boot now t → Clocked s boot now (fail t)
  closes : {now : ℕ} {t : Server} → Clocked s boot now t → Clocked s boot now (close t)

operation_life :
    (s t : Server) (i : ℕ) (op : Operation) (now : ℕ) (r : Option Response)
    → ServerInv s
    → i < s.config.shard_count
    → apply_operation s i op now ≡ some (r, t)
    → t.life ≡ s.life
operation_life s t i op now r v hi ran =
    let (r', u, ran', x) = apply_operation-Served s i op now s.phase refl v hi in
    let same : t ≡ u = ground (arith, ran, ran') in
    let (inv, conf, e) = Served-Inv s u i op now v x in rw same e

cleanup_life :
    (s t : Server) (now : ℕ) → ServerInv s → cleanup_tick s now ≡ some t → t.life ≡ s.life
unfolding cleanup_tick
cleanup_life s t now v ran = elim (Bool-cases (is_active s)) [
  | inl on ↦
      let (u, ran', c) = remove_expired_keys-Cleaned s now v in
      let same : t ≡ u = ground (arith, ran, ran') in rw same c.alive
  | inr off ↦ let same : t ≡ s = ground (arith, ran) in rw same refl
]

fail-active : (l : Life) → (fail_life l).phase ≡ active → l.phase ≡ active
unfolding fail_life
fail-active l e = ground arith

close-active : (l : Life) → (close_life l).phase ≡ active → l.phase ≡ active
unfolding close_life
close-active l e = ground arith

-- A server that the clock has brought so far.
abbrev Waited : ℕ → ℕ → Server → Type 0
Waited boot now t = IsSound t × (t.phase ≡ active → boot + restart_quarantine ≤ now)

kept :
    (boot now : ℕ) (t u : Server)
    → IsSound u
    → u.life ≡ t.life
    → Waited boot now t
    → Waited boot now u
kept boot now t u v e w = (v, λ on. w.1 (sym (ap (λ (l : Life). l.phase) e) ∙ on))

power_pos : (n : ℕ) → IsPower n → 0 < n
power_pos n (k, is) = omega (arith, is, two_pow_pos k)
  where
    two_pow_pos : (k : ℕ) → 0 < 2 ^ k
    two_pow_pos zero = omega arith
    two_pow_pos (suc k) = omega (arith, two_pow_pos k)

Started-IsSound : (raw : RawConfig) (s : Server) → Started raw s → IsSound s
Started-IsSound raw s h = record {
  inv = h.inv;
  shards = power_pos s.config.shard_count h.config.power;
  life = record {
    once = omega (arith, h.healthy.1);
    serving = λ lt. h.healthy;
    stopped = λ le. absurd (ground (arith, h.quiet));
    reported = λ e. absurd (ground (arith, h.quiet));
    silent = λ e. h.healthy.1;
  };
  cold = λ e. h.empty;
}

module _ (s : Server) (boot : ℕ) (v : IsSound s) (quiet : s.phase ≡ quarantine) where
  Clocked-Waited : (now : ℕ) (t : Server) → Clocked s boot now t → Waited boot now t
  unfolding fail close
  Clocked-Waited now t booted = (v, λ on. absurd (ground (arith, quiet, on)))
  Clocked-Waited now t (waits {now = before} later run le) =
      let w = Clocked-Waited before t run in (w.0, λ on. omega (arith, w.1 on, le))
  Clocked-Waited now t (timer {t = u} run due) = (
    (Step-Advances u (end_quarantine u) (Clocked-Waited now u run).0 (quarantine_ends refl)).0,
    λ on. due,
  )
  Clocked-Waited now t (operates {t = u} i op r run hi ran) =
      let w = Clocked-Waited now u run in
      kept boot now u t (Step-Advances u t w.0 (operation i op now r hi ran)).0
        (operation_life u t i op now r w.0.inv hi ran) w
  Clocked-Waited now t (cleans {t = u} run ran) =
      let w = Clocked-Waited now u run in
      kept boot now u t (Step-Advances u t w.0 (cleanup now ran)).0
        (cleanup_life u t now w.0.inv ran) w
  Clocked-Waited now t (fails {t = u} run) =
      let w = Clocked-Waited now u run in
      ((Step-Advances u (fail u) w.0 (failure refl)).0, λ on. w.1 (fail-active u.life on))
  Clocked-Waited now t (closes {t = u} run) =
      let w = Clocked-Waited now u run in
      ((Step-Advances u (close u) w.0 (closing refl)).0, λ on. w.1 (close-active u.life on))

-- Only an active server answers.
answers-active :
    (s t : Server) (i : ℕ) (op : Operation) (now : ℕ) (r : Response) (phase : Phase)
    → s.phase ≡ phase
    → apply_operation s i op now ≡ some (some r, t)
    → s.phase ≡ active
unfolding apply_operation
answers-active s t i op now r active p ran = p
answers-active s t i op now r quarantine p ran = absurd (ground arith)
answers-active s t i op now r failed p ran = absurd (ground arith)
answers-active s t i op now r closed p ran = absurd (ground arith)

-- For a server that New has made and any timed run of it from the instant of its start (waits, the
-- timer of the quarantine no earlier than its duration, operations, cleanups, failure and close):
-- when it answers an operation, more than 5100 ms have passed since the start, and a client that
-- began an operation before the start trusts the answer to it, whatever its TTL, only to an
-- instant that is more than 200 ms ago.
pub quarantine_outlasts :
    (has_listener : Bool) (raw : RawConfig) (s t u : Server) (boot now start ttl_ms i : ℕ)
    (op : Operation) (r : Response)
    → new_server has_listener raw ≡ ok s
    → Clocked s boot now t
    → apply_operation t i op now ≡ some (some r, u)
    → start ≤ boot
    → (boot + 5_100 * millisecond < now)
      × (candidate_valid_until start ttl_ms + 200 * millisecond < now)
quarantine_outlasts has_listener raw s t u boot now start ttl_ms i op r made run ran before =
    let h = new_server-Started has_listener raw s made in
    let w = Clocked-Waited s boot (Started-IsSound raw s h) h.quiet now t run in
    omega (
      arith,
      w.1 (answers-active t u i op now r t.phase refl ran),
      candidate_bounds start ttl_ms,
      before,
    )
