-- ===== src/BlockParser/Versions.antt =====
-- block_parser/block_parser.go, checkContractVersion: whether the contracts on the chain are of the version
-- that the service was built for. Nothing calls it.
use das_multi_device.Prelude.{
  String, Bool, not, ◌&&◌, ◌||◌, Option, none, some, List, [], ◌∷◌, ◌≡◌, refl, arith, if◌then◌else◌,
}
use das_multi_device.Outcome.{Error, wrap, Result, ok, err, change_err, Exec, lift, ◌>>=◌, ◌>>◌}

-- The names of das-lib's contracts that are checked, and what das-lib answers.
pub record Contracts : Type 0 where
  pub apply_register_cell : String
  pub pre_account_cell : String
  pub proposal_cell : String
  pub config_cell : String
  pub account_cell : String
  -- ConfigCellDataBuilderByTypeArgs, CheckContractVersionV2
  pub system_status : Result Error Unit
  pub check_version : String → Result Error Unit
  -- err == core.ErrContractMajorVersionDiff
  pub is_major_diff : Error → Bool
  -- b.Cancel != nil, config.Cfg.Server.NotExit
  pub has_cancel : Bool
  pub not_exit : Bool

abbrev pub contract_names : Contracts → List String
contract_names c =
    c.apply_register_cell ∷ c.pre_account_cell ∷ c.proposal_cell ∷ c.config_cell ∷ c.account_cell
    ∷ []

-- The error of one contract. The state is whether the context of the service is cancelled.
version_error : Contracts → Error → Exec Bool Error Unit
version_error c e cancelled =
    if c.is_major_diff e
    then (err e, cancelled || (c.has_cancel && not c.not_exit))
    else (err (wrap "CheckContractVersion" e), cancelled)

unfoldable pub check_names : Contracts → List String → Exec Bool Error Unit
unfolding version_error
check_names c [] cancelled = (ok tt, cancelled)
check_names c (n ∷ ns) cancelled = elim (c.check_version n) [
  | ok u ↦ check_names c ns cancelled
  | err e ↦ version_error c e cancelled
]

unfoldable pub check_contract_version : Contracts → Exec Bool Error Unit
unfolding ◌>>=◌ lift check_names
check_contract_version c =
    lift (change_err (wrap "ConfigCellDataBuilderByTypeArgs") c.system_status)
    >> check_names c (contract_names c)

-- The first error among the contracts.
abbrev pub first_error : List (Result Error Unit) → Option Error
first_error [] = none
first_error (ok u ∷ rs) = first_error rs
first_error (err e ∷ rs) = some e

abbrev pub versions : Contracts → List String → List (Result Error Unit)
versions c [] = []
versions c (n ∷ ns) = c.check_version n ∷ versions c ns

-- How the check ends on the first error: a difference of the major version stops the service, unless
-- it may not exit.
abbrev pub ends_with : Contracts → Option Error → Bool → Result Error Unit × Bool
ends_with c none cancelled = (ok tt, cancelled)
ends_with c (some e) cancelled =
    if c.is_major_diff e
    then (err e, cancelled || (c.has_cancel && not c.not_exit))
    else (err (wrap "CheckContractVersion" e), cancelled)

pub check_names-first_error :
    (c : Contracts) (ns : List String) (cancelled : Bool)
    → check_names c ns cancelled ≡ ends_with c (first_error (versions c ns)) cancelled
unfolding check_names version_error
check_names-first_error c [] cancelled = refl
check_names-first_error c (n ∷ ns) cancelled =
    ground (arith, check_names-first_error c ns cancelled)
