-- ===== src/Client/Config/Valid.antt =====
-- What client/config.go accepts.
use red_lease.Prelude.{
  ℕ, suc, ◌*◌, ◌<◌, ◌≤◌, ◌≡◌, ◌↔◌, inl, inr, refl, sym, ◌∙◌, ==-true, true, List, [], ◌∷◌, none,
  ◌==◌, length, All, arith, Bool-cases,
}
use red_lease.Client.Quorum.{parameters, size}
use red_lease.Client.Quorum.Possible.{quorums_meet}
use red_lease.Client.Config.{Config, check_targets, validate}

abbrev pub HasBytes : List ℕ → Type 0
HasBytes [] = ⊥
HasBytes (b ∷ bs) = Unit

-- A logger, a target for every server of a supported quorum configuration, and quorums that share a
-- server.
pub record Usable (c : Config) : Type 0 where
  pub logger : c.has_logger ≡ true
  pub supported : (parameters c.quorum).2 ≡ true
  pub count : length c.servers ≡ (parameters c.quorum).0
  pub targets : All HasBytes c.servers
  pub majority : length c.servers < 2 * size c.quorum
  pub reachable : size c.quorum ≤ length c.servers

checked_targets : (index : ℕ) (ts : List (List ℕ)) → check_targets index ts ≡ none → All HasBytes ts
unfolding check_targets
checked_targets index [] e = tt
checked_targets index ([] ∷ ts) e = absurd (ground arith)
checked_targets index ((b ∷ bs) ∷ ts) e = (tt, checked_targets (suc index) ts e)

accepts : (index : ℕ) (ts : List (List ℕ)) → All HasBytes ts → check_targets index ts ≡ none
unfolding check_targets
accepts index [] h = refl
accepts index ([] ∷ ts) h = absurd h.0
accepts index ((b ∷ bs) ∷ ts) h = accepts (suc index) ts h.1

-- With the three tests passed the targets decide.
passes :
    (c : Config)
    → c.has_logger ≡ true
    → (parameters c.quorum).2 ≡ true
    → (length c.servers == (parameters c.quorum).0) ≡ true
    → validate c ≡ check_targets 0 c.servers
unfolding validate
passes c on known same = rw (on, validate) (rw (known, validate) (rw (same, validate) refl))

accepted-Usable : (c : Config) → validate c ≡ none → Usable c
unfolding validate
accepted-Usable c e = elim (Bool-cases c.has_logger) [
  | inr off ↦ absurd (ground (arith, e, off))
  | inl on ↦ elim (Bool-cases ((parameters c.quorum).2)) [
    | inr wrong ↦ absurd (ground (arith, e, on, wrong))
    | inl known ↦ elim (Bool-cases (length c.servers == (parameters c.quorum).0)) [
      | inr few ↦ absurd (ground (arith, e, on, known, few))
      | inl same ↦
          let count : length c.servers ≡ (parameters c.quorum).0 = ground arith in
          let (meet, pos, fits) = quorums_meet c.quorum known in
          record {
            logger = on;
            supported = known;
            count = count;
            targets = checked_targets 0 c.servers (sym (passes c on known same) ∙ e);
            majority = omega (arith, count);
            reachable = omega (arith, count);
          }
    ]
  ]
]

-- Validate accepts a configuration of a client exactly when it has a logger and a target with a
-- name for every server of a supported quorum configuration; then a quorum is more than half of
-- the servers and no more than all.
pub validate-Usable : (c : Config) → (validate c ≡ none) ↔ Usable c
validate-Usable c = (
  accepted-Usable c,
  λ u. passes c u.logger u.supported (==-true _ _ u.count) ∙ accepts 0 c.servers u.targets,
)
