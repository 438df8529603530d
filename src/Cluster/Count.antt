-- ===== src/Cluster/Count.antt =====
-- Two majorities of the replicas share a replica.
use red_lease.Prelude.{
  ℕ, suc, ◌+◌, ◌≤◌, ◌<◌, ◌≡◌, refl, Bool, true, false, ◌&&◌, some, List, [], ◌∷◌, leb, length,
  get_elem?, arith, Bool-cases, inl, inr,
}
use red_lease.Client.Quorum.{successes}
use red_lease.Client.Quorum.Select.{count_from, support}

-- Replica `r` answered with success and is valid to `t`.
pub record Supports (t : ℕ) (cs : List ℕ) (bs : List Bool) (r : ℕ) : Type 0 where
  pub candidate : ℕ
  pub valid : get_elem? cs r ≡ some candidate
  pub answered : get_elem? bs r ≡ some true
  pub lasts : t ≤ candidate

-- As many replicas as the lists are long, at most.
pub support-le : (t : ℕ) (cs : List ℕ) (bs : List Bool) → support t cs bs ≤ length cs
unfolding count_from successes
support-le t [] bs = omega arith
support-le t (c ∷ cs) [] = omega arith
support-le t (c ∷ cs) (true ∷ bs) = ground (arith, support-le t cs bs)
support-le t (c ∷ cs) (false ∷ bs) = ground (arith, support-le t cs bs)

abbrev Shared : ℕ → ℕ → List ℕ → List Bool → List ℕ → List Bool → Type 0
Shared t u cs os ds bs = (r : ℕ) × Supports t cs os r × Supports u ds bs r

next :
    {t u c d : ℕ} {x y : Bool} {cs ds : List ℕ} {os bs : List Bool}
    → Shared t u cs os ds bs
    → Shared t u (c ∷ cs) (x ∷ os) (d ∷ ds) (y ∷ bs)
next (r, a, b) = (
  suc r,
  record { candidate = a.candidate; valid = a.valid; answered = a.answered; lasts = a.lasts },
  record { candidate = b.candidate; valid = b.valid; answered = b.answered; lasts = b.lasts },
)

pub Supports-meet :
    (t u : ℕ) (cs ds : List ℕ) (os bs : List Bool)
    → length os ≡ length cs
    → length bs ≡ length ds
    → length cs ≡ length ds
    → length cs < support t cs os + support u ds bs
    → (r : ℕ) × Supports t cs os r × Supports u ds bs r
unfolding count_from successes
Supports-meet t u [] ds os bs e f g lt = absurd (omega (arith, support-le u ds bs))
Supports-meet t u (c ∷ cs) [] os bs e f g lt = absurd (omega arith)
Supports-meet t u (c ∷ cs) (d ∷ ds) [] bs e f g lt = absurd (omega arith)
Supports-meet t u (c ∷ cs) (d ∷ ds) (x ∷ os) [] e f g lt = absurd (omega arith)
Supports-meet t u (c ∷ cs) (d ∷ ds) (false ∷ os) (y ∷ bs) e f g lt =
    next (Supports-meet t u cs ds os bs (omega arith) (omega arith) (omega arith) (ground arith))
Supports-meet t u (c ∷ cs) (d ∷ ds) (true ∷ os) (false ∷ bs) e f g lt =
    next (Supports-meet t u cs ds os bs (omega arith) (omega arith) (omega arith) (ground arith))
Supports-meet t u (c ∷ cs) (d ∷ ds) (true ∷ os) (true ∷ bs) e f g lt =
    elim (Bool-cases (leb t c && leb u d)) [
      | inl both ↦ (
        0,
        record { candidate = c; valid = refl; answered = refl; lasts = ground arith },
        record { candidate = d; valid = refl; answered = refl; lasts = ground arith },
      )
      | inr one ↦
          next
            (Supports-meet t u cs ds os bs (omega arith) (omega arith) (omega arith) (ground arith))
    ]
