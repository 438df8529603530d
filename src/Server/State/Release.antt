-- ===== src/Server/State/Release.antt =====
-- release of server/state.go.
use red_lease.Prelude.{
  ℕ, ◌<◌, ◌≡◌, refl, true, Option, none, some, ltb, inl, inr, Option-cases, Bool-cases,
}
use red_lease.Protocol.{Response}
use red_lease.Protocol.LeaseStatus
use red_lease.Server.Shard.{Entry, lookup, id_eq}
use red_lease.Server.Shard.Expire.{live}
use red_lease.Server.Shard.Remove.{remove_lease-Dropped}
use red_lease.Server.State.{Server, Operation, release_response, release_found, release}
use red_lease.Server.State.Inv.{ServerInv, Turn, Turn-idle, view, release-put}
use red_lease.Server.State.Renew.{NotOwner, unheld, foreign}

-- What Release leaves of a key.
pub data Released (s : Server) (i : ℕ) (op : Operation) (now : ℕ) (t : Server) : Type 0 where
  ignored :
      NotOwner (view s now i op.key) op
      → Turn s now i op.key (view s now i op.key) t
      → Released s i op now t
  released :
      (e : Entry)
      → view s now i op.key ≡ some e
      → id_eq e.id op.lease_id ≡ true
      → Turn s now i op.key none t
      → Released s i op now t

abbrev Answers : Server → ℕ → Operation → ℕ → Option (Response × Server) → Type 0
Answers s i op now result =
    (t : Server) × (result ≡ some (release_response op.request_id LeaseStatus.ok, t))
    × Released s i op now t

module _ (s : Server) (i : ℕ) (op : Operation) (now : ℕ) (v : ServerInv s)
    (hi : i < s.config.shard_count) where
  found-Answers :
      (p : ℕ)
      → (s.shards i).leases op.key ≡ some p
      → Answers s i op now (release_found s i p op now)
  unfolding release_found
  found-Answers p here =
      let at : Entry = record { id = (s.shards i).id p; deadline = (s.shards i).deadline p } in
      let (t, removed, d) = remove_lease-Dropped (s.shards i) op.key p (v.sound i hi) here in
      let (u, given_back, turn, gone) = release-put s now i op.key t v hi d in
      elim (Bool-cases (ltb now ((s.shards i).deadline p))) [
        | inl valid ↦
            let seen : view s now i op.key ≡ some at = rw (here, lookup) (rw (valid, live)) in
            elim (Bool-cases (id_eq ((s.shards i).id p) op.lease_id)) [
              | inl same ↦
                  (u, rw (valid, same, removed, given_back) refl, released at seen same turn)
              | inr other ↦ (
                s,
                rw (valid, other) refl,
                ignored (foreign at seen other) (Turn-idle s now i op.key _ v refl),
              )
            ]
        | inr expired ↦
            let unseen : view s now i op.key ≡ none = rw (here, lookup) (rw (expired, live)) in
            (u, rw (expired, removed, given_back) refl, ignored (unheld unseen) (rw unseen turn))
      ]

  -- On a server with the invariant and a shard in range, release does not panic, always answers
  -- OK, removes the live lease when the operation names its owner, and changes no other live
  -- lease.
  pub release-Released :
      (t : Server) × (release s i op now ≡ some (release_response op.request_id LeaseStatus.ok, t))
      × Released s i op now t
  unfolding release
  release-Released = elim (Option-cases ((s.shards i).leases op.key)) [
    | inl missing ↦ (
      s,
      rw (missing, release) refl,
      ignored (unheld (rw (missing, lookup))) (Turn-idle s now i op.key _ v refl),
    )
    | inr (p, here) ↦ let (t, e, x) = found-Answers p here in (t, rw (here, release) e, x)
  ]
