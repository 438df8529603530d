-- ===== src/Client/Config.antt =====
-- client/config.go. A target is the list of its bytes.
pub mod Valid
use red_lease.Prelude.{
  ℕ, zero, suc, ◌+◌, ◌≡◌, Bool, true, false, List, [], ◌∷◌, Option, none, some, ◌==◌, length,
}
use red_lease.Client.Quorum.{parameters}

pub record Config : Type 0 where
  pub client_id : ℕ
  pub quorum : ℕ
  pub servers : List (List ℕ)
  pub has_logger : Bool
  pub response_timeout : ℕ

pub data ConfigError : Type 0 where
  nil_logger unsupported_quorum wrong_server_count : ConfigError
  empty_target : ℕ → ConfigError

-- The first empty target from `index` on.
pub check_targets : ℕ → List (List ℕ) → Option ConfigError
check_targets index [] = none
check_targets index ([] ∷ rest) = some (empty_target index)
check_targets index ((b ∷ bs) ∷ rest) = check_targets (suc index) rest

-- `none` is a nil error.
unfoldable pub validate : Config → Option ConfigError
unfolding check_targets
validate c = elim c.has_logger [
  | false ↦ some nil_logger
  | true ↦ elim ((parameters c.quorum).2) [
    | false ↦ some unsupported_quorum
    | true ↦ elim (length c.servers == (parameters c.quorum).0) [
      | false ↦ some wrong_server_count
      | true ↦ check_targets 0 c.servers
    ]
  ]
]
