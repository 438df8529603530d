-- ===== src/Prelude/Lists.antt =====
-- Lists measured and indexed by the native numbers, and a predicate on every entry.
use Prim.Native.Nat.{ℕ, zero, suc, ◌+◌, ◌≤◌}
use mathlib.Core.Path.{◌≡◌, refl, ap}
use mathlib.Core.Logic.{◌≢◌, ◌⊎◌, inl, inr}
use mathlib.Core.List.{List, [], ◌∷◌, ◌++◌}
use mathlib.Core.Option.{Option, none, some}
use native.Mathlib.Omega.{arith}

module _ {ℓ} {A : Type ℓ} where
  abbrev pub length : List A → ℕ
  length [] = 0
  length (x ∷ xs) = suc (length xs)

  abbrev pub get_elem? : List A → ℕ → Option A
  get_elem? [] i = none
  get_elem? (x ∷ xs) zero = some x
  get_elem? (x ∷ xs) (suc i) = get_elem? xs i

  pub length-append : (xs ys : List A) → length (xs ++ ys) ≡ length xs + length ys
  length-append [] ys = omega arith
  length-append (x ∷ xs) ys = omega (arith, length-append xs ys)

  abbrev pub All {κ} : (A → Type κ) → List A → Type κ
  All P [] = Unit
  All P (x ∷ xs) = P x × All P xs

  pub All-map {κ μ} :
      (P : A → Type κ) (Q : A → Type μ) (xs : List A) → ((a : A) → P a → Q a) → All P xs → All Q xs
  All-map P Q [] f h = tt
  All-map P Q (x ∷ xs) f h = (f x h.0, All-map P Q xs f h.1)

  -- `xs[i] = x`; an index out of range, which the source never uses, changes nothing.
  abbrev pub set_at : List A → ℕ → A → List A
  set_at [] i x = []
  set_at (y ∷ ys) zero x = x ∷ ys
  set_at (y ∷ ys) (suc i) x = y ∷ set_at ys i x

  abbrev pub replicate : ℕ → A → List A
  replicate zero x = []
  replicate (suc n) x = x ∷ replicate n x

  pub length-set_at : (xs : List A) (i : ℕ) (x : A) → length (set_at xs i x) ≡ length xs
  length-set_at [] i x = refl
  length-set_at (y ∷ ys) zero x = refl
  length-set_at (y ∷ ys) (suc i) x = omega (arith, length-set_at ys i x)

  pub length-replicate : (n : ℕ) (x : A) → length (replicate n x) ≡ n
  length-replicate zero x = refl
  length-replicate (suc n) x = omega (arith, length-replicate n x)

  pub get_elem?-replicate : (n : ℕ) (x y : A) (i : ℕ) → get_elem? (replicate n x) i ≡ some y → x ≡ y
  get_elem?-replicate zero x y i e = absurd (ground arith)
  get_elem?-replicate (suc n) x y zero e = ground arith
  get_elem?-replicate (suc n) x y (suc i) e = get_elem?-replicate n x y i e

  -- An entry of the list with one entry set is the new one, or an old one at another place.
  pub get_elem?-set_at :
      (xs : List A) (i j : ℕ) (x y : A)
      → get_elem? (set_at xs i x) j ≡ some y
      → ((i ≡ j) × (x ≡ y)) ⊎ ((i ≢ j) × (get_elem? xs j ≡ some y))
  get_elem?-set_at [] i j x y e = absurd (ground arith)
  get_elem?-set_at (z ∷ zs) zero zero x y e = inl (refl, ground arith)
  get_elem?-set_at (z ∷ zs) zero (suc j) x y e = inr (ground arith, e)
  get_elem?-set_at (z ∷ zs) (suc i) zero x y e = inr (ground arith, e)
  get_elem?-set_at (z ∷ zs) (suc i) (suc j) x y e = elim (get_elem?-set_at zs i j x y e) [
    | inl (same, v) ↦ inl (ap suc same, v)
    | inr (ne, v) ↦ inr (omega (arith, ne), v)
  ]

  abbrev pub take : ℕ → List A → List A
  take zero xs = []
  take (suc n) [] = []
  take (suc n) (x ∷ xs) = x ∷ take n xs

  abbrev pub drop : ℕ → List A → List A
  drop zero xs = xs
  drop (suc n) [] = []
  drop (suc n) (x ∷ xs) = drop n xs

  pub take-append : (n : ℕ) (xs ys : List A) → n ≤ length xs → take n (xs ++ ys) ≡ take n xs
  take-append zero xs ys le = refl
  take-append (suc n) [] ys le = absurd (omega arith)
  take-append (suc n) (x ∷ xs) ys le = ap (λ l. x ∷ l) (take-append n xs ys (omega (arith, le)))

  pub take-length : (xs ys : List A) → take (length xs) (xs ++ ys) ≡ xs
  take-length [] ys = refl
  take-length (x ∷ xs) ys = ap (λ l. x ∷ l) (take-length xs ys)

  pub take_all : (xs : List A) → take (length xs) xs ≡ xs
  take_all [] = refl
  take_all (x ∷ xs) = ap (λ l. x ∷ l) (take_all xs)

  pub drop-length : (xs ys : List A) → drop (length xs) (xs ++ ys) ≡ ys
  drop-length [] ys = refl
  drop-length (x ∷ xs) ys = drop-length xs ys

  pub drop_all : (xs : List A) → drop (length xs) xs ≡ []
  drop_all [] = refl
  drop_all (x ∷ xs) = drop_all xs

  pub append_nil : (xs : List A) → xs ++ [] ≡ xs
  append_nil [] = refl
  append_nil (x ∷ xs) = ap (λ l. x ∷ l) (append_nil xs)

  pub append_assoc : (xs ys zs : List A) → (xs ++ ys) ++ zs ≡ xs ++ (ys ++ zs)
  append_assoc [] ys zs = refl
  append_assoc (x ∷ xs) ys zs = ap (λ l. x ∷ l) (append_assoc xs ys zs)
