-- ===== src/Client/Quorum/Select.antt =====
-- bestAcquireQuorum of client/acquire.go: the latest instant to which a quorum is valid.
use red_lease.Prelude.{
  ℕ, zero, suc, ◌+◌, ◌-◌, ◌≤◌, ◌<◌, ◌≡◌, refl, ap, ◌∙◌, ◌⊎◌, inl, inr, Bool, none, some, List, [],
  ◌∷◌, ltb, leb, if◌then◌else◌, length, get_elem?, All, arith, Bool-cases, ltb→lt, ltb-false→le,
}
use red_lease.Client.Quorum.{successes, insert_sorted, sort, best_acquire_quorum}

-- How many of the instants are `t` or later.
unfoldable pub count_from : ℕ → List ℕ → ℕ
count_from t [] = 0
count_from t (u ∷ us) = (if leb t u then 1 else 0) + count_from t us

-- How many replicas answered with success and are valid to `t`.
abbrev pub support : ℕ → List ℕ → List Bool → ℕ
support t candidates successful = count_from t (successes candidates successful)

abbrev IsSorted : List ℕ → Type 0
IsSorted [] = Unit
IsSorted (t ∷ ts) = All (λ u. t ≤ u) ts × IsSorted ts

All-le : (a b : ℕ) (ts : List ℕ) → a ≤ b → All (λ u. b ≤ u) ts → All (λ u. a ≤ u) ts
All-le a b [] le h = tt
All-le a b (t ∷ ts) le h = (omega arith, All-le a b ts le h.1)

All-insert :
    (a t : ℕ) (ts : List ℕ) → a ≤ t → All (λ u. a ≤ u) ts → All (λ u. a ≤ u) (insert_sorted t ts)
unfolding insert_sorted
All-insert a t [] le h = (le, tt)
All-insert a t (u ∷ us) le h = elim (Bool-cases (leb t u)) [
  | inl e ↦ rw (e, insert_sorted) (le, h)
  | inr e ↦ rw (e, insert_sorted) (h.0, All-insert a t us le h.1)
]

insert-IsSorted : (t : ℕ) (ts : List ℕ) → IsSorted ts → IsSorted (insert_sorted t ts)
unfolding insert_sorted
insert-IsSorted t [] s = (tt, tt)
insert-IsSorted t (u ∷ us) s = elim (Bool-cases (leb t u)) [
  | inl e ↦ rw (e, insert_sorted) ((ground arith, All-le t u us (ground arith) s.0), s)
  | inr e ↦ rw (e, insert_sorted) (All-insert u t us (ground arith) s.0, insert-IsSorted t us s.1)
]

sort-IsSorted : (ts : List ℕ) → IsSorted (sort ts)
unfolding sort
sort-IsSorted [] = tt
sort-IsSorted (t ∷ ts) = insert-IsSorted t (sort ts) (sort-IsSorted ts)

length-insert : (t : ℕ) (ts : List ℕ) → length (insert_sorted t ts) ≡ suc (length ts)
unfolding insert_sorted
length-insert t [] = refl
length-insert t (u ∷ us) = ground (arith, length-insert t us)

length-sort : (ts : List ℕ) → length (sort ts) ≡ length ts
unfolding sort
length-sort [] = refl
length-sort (t ∷ ts) = length-insert t (sort ts) ∙ ap suc (length-sort ts)

count-insert :
    (w t : ℕ) (ts : List ℕ)
    → count_from w (insert_sorted t ts) ≡ (if leb w t then 1 else 0) + count_from w ts
unfolding insert_sorted count_from
count-insert w t [] = refl
count-insert w t (u ∷ us) = ground (arith, count-insert w t us)

count-sort : (w : ℕ) (ts : List ℕ) → count_from w (sort ts) ≡ count_from w ts
unfolding sort count_from
count-sort w [] = refl
count-sort w (t ∷ ts) = omega (arith, count-insert w t (sort ts), count-sort w ts)

count-All : (w : ℕ) (ts : List ℕ) → All (λ u. w ≤ u) ts → count_from w ts ≡ length ts
unfolding count_from
count-All w [] h = refl
count-All w (t ∷ ts) h = ground (arith, count-All w ts h.1)

count-le-length : (w : ℕ) (ts : List ℕ) → count_from w ts ≤ length ts
unfolding count_from
count-le-length w [] = omega arith
count-le-length w (t ∷ ts) = ground (arith, count-le-length w ts)

-- In a sorted list the entry at `i` is reached by those from `i` on.
record Rank (ts : List ℕ) (i v : ℕ) : Type 0 where
  reached : length ts - i ≤ count_from v ts
  highest : (w : ℕ) → v < w → count_from w ts < length ts - i

get_elem-Rank :
    (ts : List ℕ) (i : ℕ)
    → IsSorted ts
    → i < length ts
    → (v : ℕ) × (get_elem? ts i ≡ some v) × Rank ts i v
unfolding count_from
get_elem-Rank [] i s lt = absurd (omega arith)
get_elem-Rank (t ∷ ts) zero s lt = (
  t,
  refl,
  record {
    reached = ground (arith, count-All t ts s.0);
    highest = λ w h. ground (arith, count-le-length w ts);
  },
)
get_elem-Rank (t ∷ ts) (suc i) s lt =
    let (v, e, r) = get_elem-Rank ts i s.1 (omega arith) in
    let le : t ≤ v = reaches ts i v s.0 e in
    (
      v,
      e,
      record {
        reached = ground (arith, r.reached);
        highest = λ w h. ground (arith, r.highest w h);
      },
    )
  where
    reaches : (us : List ℕ) (j v : ℕ) → All (λ u. t ≤ u) us → get_elem? us j ≡ some v → t ≤ v
    reaches [] j v h e = absurd (ground arith)
    reaches (u ∷ us) zero v h e = ground arith
    reaches (u ∷ us) (suc j) v h e = reaches us j v h.1 e

-- The instant chosen is valid on a quorum of replicas, and no later instant is.
pub record Best (candidates : List ℕ) (successful : List Bool) (quorum_size t : ℕ) : Type 0 where
  pub backed : quorum_size ≤ support t candidates successful
  pub latest : (w : ℕ) → t < w → support w candidates successful < quorum_size

module _ (candidates : List ℕ) (successful : List Bool) (quorum_size : ℕ)
    (pos : 0 < quorum_size) where
  abbrev best : List ℕ
  best = successes candidates successful

  chosen :
      quorum_size ≤ length best
      → (t : ℕ) × (get_elem? (sort best) (length best - quorum_size) ≡ some t)
        × Best candidates successful quorum_size t
  chosen enough =
      let same = length-sort best in
      let (t, e, r) =
        get_elem-Rank (sort best) (length best - quorum_size) (sort-IsSorted best) (omega arith) in
      (
        t,
        e,
        record {
          backed = omega (arith, r.reached, count-sort t best);
          latest = λ w h. omega (arith, r.highest w h, count-sort w best);
        },
      )

  -- For a positive quorum size, the choice of a quorum fails exactly when fewer replicas answered
  -- with success, and otherwise gives an instant to which a quorum of replicas is valid while no
  -- later instant is.
  pub best_acquire_quorum-Best :
      ((best_acquire_quorum candidates successful quorum_size ≡ none)
        × (length (successes candidates successful) < quorum_size))
      ⊎ ((t : ℕ) × (best_acquire_quorum candidates successful quorum_size ≡ some t)
          × Best candidates successful quorum_size t)
  unfolding best_acquire_quorum
  best_acquire_quorum-Best = elim (Bool-cases (ltb (length best) quorum_size)) [
    | inl few ↦ inl (rw few refl, ltb→lt _ _ few)
    | inr enough ↦ let (t, e, b) = chosen (ltb-false→le _ _ enough) in inr (t, rw enough e, b)
  ]
