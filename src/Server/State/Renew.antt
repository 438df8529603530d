-- ===== src/Server/State/Renew.antt =====
-- renew of server/state.go.
use red_lease.Prelude.{
  ℕ, ◌+◌, ◌*◌, ◌<◌, ◌≡◌, refl, ap, ◌∙◌, max, true, false, Option, none, some, arith, ltb, inl, inr,
  Option-cases, Bool-cases,
}
use red_lease.Protocol.{Response, millisecond}
use red_lease.Protocol.LeaseStatus
use red_lease.Server.Shard.{Entry, lookup, id_eq}
use red_lease.Server.Shard.Expire.{live}
use red_lease.Server.Shard.Remove.{remove_lease-Dropped}
use red_lease.Server.Shard.Extend.{extend_lease-Extended}
use red_lease.Server.State.{
  Server, Operation, renew_response, effective_ttl_ms, remaining_ttl_ms, renew_found, renew,
  put_shard,
}
use red_lease.Server.State.Inv.{ServerInv, Turn, Turn-idle, view, put-Turn, release-put}

-- The operation does not name the lease that the server grants.
pub data NotOwner (seen : Option Entry) (op : Operation) : Type 0 where
  unheld : seen ≡ none → NotOwner seen op
  foreign : (e : Entry) → seen ≡ some e → id_eq e.id op.lease_id ≡ false → NotOwner seen op

-- A renewal never shortens a lease.
abbrev pub renewed_deadline : Server → Operation → ℕ → Entry → ℕ
renewed_deadline s op now e = max e.deadline (now + effective_ttl_ms s op * millisecond)

pub data Renewed (s : Server) (i : ℕ) (op : Operation) (now : ℕ) (r : Response) (t : Server)
    : Type 0 where
  stale :
      NotOwner (view s now i op.key) op
      → r ≡ renew_response op.request_id LeaseStatus.stale 0
      → Turn s now i op.key (view s now i op.key) t
      → Renewed s i op now r t
  renewed :
      (e : Entry)
      → view s now i op.key ≡ some e
      → id_eq e.id op.lease_id ≡ true
      → r
        ≡ renew_response op.request_id LeaseStatus.ok
            (remaining_ttl_ms (renewed_deadline s op now e) now s.config.max_ttl)
      → Turn s now i op.key (some (record { id = e.id; deadline = renewed_deadline s op now e })) t
      → Renewed s i op now r t

abbrev Answers : Server → ℕ → Operation → ℕ → Option (Response × Server) → Type 0
Answers s i op now result =
    (r : Response) × (t : Server) × (result ≡ some (r, t)) × Renewed s i op now r t

module _ (s : Server) (i : ℕ) (op : Operation) (now : ℕ) (v : ServerInv s)
    (hi : i < s.config.shard_count) where
  abbrev candidate : ℕ
  candidate = now + effective_ttl_ms s op * millisecond

  module _ (p : ℕ) (here : (s.shards i).leases op.key ≡ some p) where
    abbrev at : Entry
    at = record { id = (s.shards i).id p; deadline = (s.shards i).deadline p }

    abbrev answer : ℕ → Response
    answer deadline =
        renew_response op.request_id LeaseStatus.ok (remaining_ttl_ms deadline now s.config.max_ttl)

    seen : ltb now ((s.shards i).deadline p) ≡ true → view s now i op.key ≡ some at
    seen valid = rw (here, lookup) (rw (valid, live))

    unseen : ltb now ((s.shards i).deadline p) ≡ false → view s now i op.key ≡ none
    unseen expired = rw (here, lookup) (rw (expired, live))

    owner-Answers :
        ltb now ((s.shards i).deadline p) ≡ true
        → id_eq ((s.shards i).id p) op.lease_id ≡ true
        → Answers s i op now (renew_found s i p op now)
    unfolding renew_found
    owner-Answers valid same = elim (Bool-cases (ltb ((s.shards i).deadline p) candidate)) [
      | inl later ↦
          let (t, moved, x) =
            extend_lease-Extended (s.shards i) op.key p candidate (v.sound i hi) here in
          let high : candidate ≡ renewed_deadline s op now at = ground arith in
          (
            answer (t.deadline p),
            put_shard s i t,
            rw (valid, same, later, moved) refl,
            renewed at (seen valid) same (ap answer (x.moved ∙ high)) (
                put-Turn s now i op.key t s.keys
                  (some (record { id = at.id; deadline = renewed_deadline s op now at })) v hi x.inv
                  (omega (arith, x.size)) v.limited (λ j. ground (arith, x.table j))),
          )
      | inr sooner ↦
          let high : (s.shards i).deadline p ≡ renewed_deadline s op now at = ground arith in
          (
            answer ((s.shards i).deadline p),
            s,
            rw (valid, same, sooner) refl,
            renewed at (seen valid) same (ap answer high) (
                Turn-idle s now i op.key
                  (some (record { id = at.id; deadline = renewed_deadline s op now at })) v
                  (ground (arith, seen valid))),
          )
    ]

    found-Answers : Answers s i op now (renew_found s i p op now)
    unfolding renew_found
    found-Answers = elim (Bool-cases (ltb now ((s.shards i).deadline p))) [
      | inl valid ↦ elim (Bool-cases (id_eq ((s.shards i).id p) op.lease_id)) [
        | inl same ↦ owner-Answers valid same
        | inr other ↦ (
          renew_response op.request_id LeaseStatus.stale 0,
          s,
          rw (valid, other) refl,
          stale (foreign at (seen valid) other) refl (Turn-idle s now i op.key _ v refl),
        )
      ]
      | inr expired ↦
          let (t, removed, d) = remove_lease-Dropped (s.shards i) op.key p (v.sound i hi) here in
          let (u, released, turn, gone) = release-put s now i op.key t v hi d in
          (
            renew_response op.request_id LeaseStatus.stale 0,
            u,
            rw (expired, removed, released) refl,
            stale (unheld (unseen expired)) refl (rw (unseen expired) turn),
          )
    ]

  -- On a server with the invariant and a shard in range, renew does not panic; it answers STALE
  -- exactly for an operation that does not name the live owner, and otherwise moves the deadline
  -- to the later of the old and the requested one and answers with the remaining time; nothing
  -- else that is live changes.
  pub renew-Renewed :
      (r : Response) × (t : Server) × (renew s i op now ≡ some (r, t)) × Renewed s i op now r t
  unfolding renew
  renew-Renewed = elim (Option-cases ((s.shards i).leases op.key)) [
    | inl missing ↦ (
      renew_response op.request_id LeaseStatus.stale 0,
      s,
      rw (missing, renew) refl,
      stale (unheld (rw (missing, lookup))) refl (Turn-idle s now i op.key _ v refl),
    )
    | inr (p, here) ↦ let (r, t, e, x) = found-Answers p here in (r, t, rw (here, renew) e, x)
  ]
