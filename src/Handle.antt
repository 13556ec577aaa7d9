-- ===== src/Handle.antt =====
-- http_server/handle/handle.go and common.go: whether the service is under maintenance, the pages of a
-- list, the address of a client, and the key under which a transaction to sign is cached.
use Prim.Native.String.{◌++◌ as string_append}
use das_multi_device.Prelude.{
  ℕ, ◌-◌, ◌*◌, String, Bool, true, false, not, ◌||◌, none, ltb, ◌==◌, if◌then◌else◌,
}
use das_multi_device.Outcome.{Error, plain, wrap, Result, ok, err}
use das_multi_device.Api.{error500, system_upgrade, Handled, fail, untouched}
use das_multi_device.Service.{SignInfoCache}

-- Pagination, for numbers that are not negative.
pub record Pagination : Type 0 where
  pub page : ℕ
  pub size : ℕ

unfoldable pub get_limit : Pagination → ℕ
get_limit p = if ltb p.size 1 || ltb 100 p.size then 100 else p.size

unfoldable pub get_offset : Pagination → ℕ
unfolding get_limit
get_offset p = ((if ltb p.page 1 then 1 else p.page) - 1) * get_limit p

abbrev maintenance : {D : Type 0} → String → Handled D
maintenance text =
    fail system_upgrade "The service is under maintenance, please try again later." (plain text)

-- checkSystemUpgrade: of config.Cfg.Server.IsUpdate, the status in the main config cell, and
-- CheckContractStatusOK of the account cell.
unfoldable pub check_system_upgrade :
    {D : Type 0} → Bool → Result Error ℕ → Result Error Bool → Handled D
check_system_upgrade true config contract = maintenance "backend system upgrade"
check_system_upgrade false (err e) contract =
    fail error500 "ConfigCellDataBuilderByTypeArgs err" (wrap "ConfigCellDataBuilderByTypeArgs" e)
check_system_upgrade false (ok status) contract =
    if not (status == 1) then maintenance "contract system upgrade" else elim contract [
      | err e ↦ fail error500 "CheckContractStatusOK err" (wrap "CheckContractStatusOK" e)
      | ok running ↦ (if running then untouched none else maintenance "contract system upgrade")
    ]

-- GetClientIp, of the header X-Real-IP and the address of the peer.
get_client_ip : String → String → String
get_client_ip real_ip remote_addr =
    string_append "(" (string_append real_ip (string_append ")(" (string_append remote_addr ")")))

-- SignInfoCache.SignKey: md5 in hexadecimal, of %d%s%s%d, the last one the time in nanoseconds.
sign_key : (String → String) → (ℕ → String) → ℕ → SignInfoCache → String
sign_key md5_hex decimal now_nano s = md5_hex (
    string_append (decimal s.chain_type)
      (string_append s.address (string_append s.action (decimal now_nano))))
