-- ===== src/Server/Safety/Protect.antt =====
-- No operation but its own release ends a lease that has not expired.
use red_lease.Prelude.{
  ℕ, ◌≤◌, ◌<◌, ◌≡◌, refl, sym, ap, ◌∙◌, true, Option, none, some, arith, ℕ_discrete,
}
use red_lease.Protocol.{Response}
use red_lease.Protocol.LeaseStatus
use red_lease.Server.Shard.{Entry, LeaseId, id_eq}
use red_lease.Server.State.{
  Server, Operation, OperationKind, acquire_kind, renew_kind, release_kind, run_operation,
  release_response, effective_ttl_ms,
}
use red_lease.Server.State.Inv.{ServerInv, Turn, Turn-idle, view}
use red_lease.Server.State.Steps.{owned, busy, nothing, granted, entry_of}
use red_lease.Server.State.Acquire.{Acquired, refused, accepted, limited, acquire-Acquired}
use red_lease.Server.State.Renew.{Renewed, stale, renewed, renewed_deadline, renew-Renewed}
use red_lease.Server.State.Release.{Released, ignored, released, release-Released}
use red_lease.Server.Safety.{Holds, Releases}

-- How an operation leaves the key that it names, whatever its kind.
pub data Outcome (s : Server) (i : ℕ) (op : Operation) (now : ℕ) (t : Server) : Type 0 where
  same : Turn s now i op.key (view s now i op.key) t → Outcome s i op now t
  entered :
      (e : Entry)
      → view s now i op.key ≡ none
      → Turn s now i op.key (some e) t
      → Outcome s i op now t
  raised :
      (e f : Entry)
      → view s now i op.key ≡ some e
      → f.id ≡ e.id
      → e.deadline ≤ f.deadline
      → Turn s now i op.key (some f) t
      → Outcome s i op now t
  ended :
      (e : Entry)
      → view s now i op.key ≡ some e
      → op.kind ≡ release_kind
      → id_eq e.id op.lease_id ≡ true
      → Turn s now i op.key none t
      → Outcome s i op now t

pub Outcome-Turn :
    {s t : Server} {i : ℕ} {op : Operation} {now : ℕ}
    → Outcome s i op now t
    → (new : Option Entry) × Turn s now i op.key new t
Outcome-Turn {s} {t} {i} {op} {now} (same turn) = (view s now i op.key, turn)
Outcome-Turn (entered e see turn) = (some e, turn)
Outcome-Turn (raised e f see q le turn) = (some f, turn)
Outcome-Turn (ended e see r q turn) = (none, turn)

module _ (s : Server) (i : ℕ) (op : Operation) (now : ℕ) (v : ServerInv s) where
  idle : (t : Server) → t ≡ s → Outcome s i op now t
  idle t e = rw e (same (Turn-idle s now i op.key (view s now i op.key) v refl))

  pub acquire-Outcome : (r : Response) (t : Server) → Acquired s i op now r t → Outcome s i op now t
  acquire-Outcome r t (refused (owned e see q a eq)) = idle t eq
  acquire-Outcome r t (refused (busy e see q a eq)) = idle t eq
  acquire-Outcome r t (accepted (nothing see z a turn)) = same (rw see turn)
  acquire-Outcome r t (accepted (granted see z a turn)) =
      entered (entry_of op now (effective_ttl_ms s op)) see turn
  acquire-Outcome r t (limited see z a turn l all) = same (rw see turn)

  renew-Outcome : (r : Response) (t : Server) → Renewed s i op now r t → Outcome s i op now t
  renew-Outcome r t (stale other a turn) = same turn
  renew-Outcome r t (renewed e see own a turn) =
      raised e (record { id = e.id; deadline = renewed_deadline s op now e }) see refl (omega arith)
        turn

  release-Outcome :
      (t : Server) → op.kind ≡ release_kind → Released s i op now t → Outcome s i op now t
  release-Outcome t k (ignored other turn) = same turn
  release-Outcome t k (released e see own turn) = ended e see k own turn

  pub run_operation-Outcome :
      (kind : OperationKind)
      → op.kind ≡ kind
      → i < s.config.shard_count
      → (r : Response) × (t : Server) × (run_operation kind s i op now ≡ some (r, t))
        × Outcome s i op now t
  unfolding run_operation
  run_operation-Outcome acquire_kind k hi =
      let (r, t, e, x) = acquire-Acquired s i op now v hi in (r, t, e, acquire-Outcome r t x)
  run_operation-Outcome renew_kind k hi =
      let (r, t, e, x) = renew-Renewed s i op now v hi in (r, t, e, renew-Outcome r t x)
  run_operation-Outcome release_kind k hi =
      let (t, e, x) = release-Released s i op now v hi in
      (release_response op.request_id LeaseStatus.ok, t, e, release-Outcome t k x)

id_eq_shared : (a b c : LeaseId) → id_eq a b ≡ true → id_eq a c ≡ true → id_eq c b ≡ true
id_eq_shared a b c p q = ground arith

protects_key :
    (s t : Server) (i : ℕ) (op : Operation) (now : ℕ) (id : LeaseId) (until : ℕ)
    → ¬ Releases op op.key id
    → Outcome s i op now t
    → Holds s now i op.key id until
    → Holds t now i op.key id until
protects_key s t i op now id until keep (same turn) h = record {
  entry = h.entry;
  seen = ground (arith, turn.here op.key, h.seen);
  owner = h.owner;
  lasts = h.lasts;
}
protects_key s t i op now id until keep (entered e see turn) h = absurd (ground (arith, h.seen))
protects_key s t i op now id until keep (raised e f see q le turn) h =
    let same_entry : e ≡ h.entry = ground (arith, h.seen) in
    record {
      entry = f;
      seen = ground (arith, turn.here op.key);
      owner = rw (q, same_entry) h.owner;
      lasts = omega (arith, h.lasts, ap (λ (w : Entry). w.deadline) same_entry);
    }
protects_key s t i op now id until keep (ended e see r own turn) h =
    let same_entry : e ≡ h.entry = ground (arith, h.seen) in
    absurd (keep (r, refl, id_eq_shared h.entry.id id op.lease_id h.owner (rw (← same_entry) own)))

-- A lease keeps its key through an operation that does not release it, on any shard.
pub Outcome-protects :
    (s t : Server) (i : ℕ) (op : Operation) (now j k : ℕ) (id : LeaseId) (until : ℕ)
    → j < s.config.shard_count
    → ¬ ((i ≡ j) × Releases op k id)
    → Outcome s i op now t
    → Holds s now j k id until
    → Holds t now j k id until
Outcome-protects s t i op now j k id until hj keep o h =
    let (new, turn) = Outcome-Turn o in
    elim (ℕ_discrete j i) [
      | no away ↦ record {
        entry = h.entry;
        seen = turn.others j hj away k ∙ h.seen;
        owner = h.owner;
        lasts = h.lasts;
      }
      | yes here ↦ elim (ℕ_discrete k op.key) [
        | no other ↦ record {
          entry = h.entry;
          seen = ground (arith, turn.here k, h.seen);
          owner = h.owner;
          lasts = h.lasts;
        }
        | yes it ↦
            rw (here, it)
              (protects_key s t i op now id until (λ r. keep (sym here, (r.0, sym it, r.2))) o
                (rw (← here, ← it) h))
      ]
    ]
