-- ===== src/Tests/Quorums.antt =====
-- The choice of a quorum on three replicas.
use red_lease.Prelude.{
  ℕ, ◌≤◌, ◌<◌, ◌≡◌, refl, Bool, true, false, none, some, List, [], ◌∷◌, arith, length, ◌⊎◌, ◌↔◌,
}
use red_lease.Client.Quorum.{successes, sort, best_acquire_quorum, acquire_quorum_still_possible}
use red_lease.Client.Config.{Config, validate}
use red_lease.Client.Config.Valid.{Usable, validate-Usable}
use red_lease.Client.Quorum.Select.{Best, best_acquire_quorum-Best}
use red_lease.Client.Quorum.Possible.{done, kept, silent, answered, still_possible_sound}

abbrev until : List ℕ
until = 900 ∷ 700 ∷ 800 ∷ []

abbrev all : List Bool
all = true ∷ true ∷ true ∷ []

-- Two of three are valid to 800.
chosen : best_acquire_quorum until all 2 ≡ some 800
unfolding best_acquire_quorum sort
chosen = refl

best_acquire_quorum-Best_example :
    ((best_acquire_quorum until all 2 ≡ none) × (length (successes until all) < 2))
    ⊎ ((t : ℕ) × (best_acquire_quorum until all 2 ≡ some t) × Best until all 2 t)
best_acquire_quorum-Best_example = best_acquire_quorum-Best until all 2 (omega arith)

abbrev one : List Bool
one = true ∷ false ∷ false ∷ []

-- One success, valid to 900, and one replica that has not answered: at 950 there is no way to two.
too_late : acquire_quorum_still_possible until one 1 950 2 ≡ false
unfolding acquire_quorum_still_possible
too_late = refl

abbrev two : List Bool
two = true ∷ true ∷ false ∷ []

still_possible_sound_example : 850 ≤ 950
unfolding best_acquire_quorum sort
still_possible_sound_example =
    still_possible_sound until (900 ∷ 850 ∷ 800 ∷ []) one two 1 950 2 850 (omega arith) too_late
      (kept 900 (answered 700 850 (silent 800 800 done))) refl

-- Three servers with one letter each.
abbrev config : Config
config = record {
  client_id = 1;
  quorum = 2;
  servers = (97 ∷ []) ∷ (98 ∷ []) ∷ (99 ∷ []) ∷ [];
  has_logger = true;
  response_timeout = 0;
}

validate-Usable_example : (validate config ≡ none) ↔ Usable config
validate-Usable_example = validate-Usable config
