-- ===== src/Cache/Limits.antt =====
-- cache/api_limit.go and limit.go: limits, keys that stand for some time.
use das_multi_device.Prelude.{ℕ, ◌+◌, String, Bool, true, false, none, some, [], ◌≡◌, ltb, arith}
use das_multi_device.Outcome.{Error, ok, err, Exec, ◌>>=◌, ◌>>◌}
use das_multi_device.Cache.{
  Fmt, Redis, command, faulted, live_entry, set_key, is_connected, set_api_limit, get_api_limit_key,
  ◌⧺◌,
}
use das_multi_device.Cache.Entries.{live_entry-put_own, live_entry-put_expired}

-- EXISTS key: whether the key is there.
unfoldable pub key_exists : ℕ → String → Exec Redis Error Bool
unfolding command
key_exists now key =
    command (λ r. (ok (elim (live_entry now key r.entries) [ none ↦ false | some e ↦ true ]), r))

-- res, _ := r.red.Exists(key).Result(), where an error leaves res 0; false without redis.
unfoldable pub limit_exist : ℕ → String → Redis → Bool × Redis
unfolding key_exists
limit_exist now key r = elim r.connected [
  | true ↦ (elim (key_exists now key r).0 [ ok b ↦ b | err e ↦ false ], (key_exists now key r).1)
  | false ↦ (false, r)
]

unfoldable pub set_limit : ℕ → String → ℕ → Exec Redis Error Unit
unfolding ◌>>=◌ is_connected
set_limit now key expiration = do is_connected; set_key now key "1" expiration

-- ApiLimitExist
unfoldable pub api_limit_exist : Fmt → ℕ → ℕ → String → String → Redis → Bool × Redis
unfolding limit_exist
api_limit_exist fmt now chain_type address action =
    limit_exist now (get_api_limit_key fmt chain_type address action)

-- getAccountLimitKey, SetAccountLimit, AccountLimitExist
unfoldable pub get_account_limit_key : Fmt → String → String
get_account_limit_key fmt account = fmt.to_lower ("limit:" ⧺ account)

unfoldable pub set_account_limit : Fmt → ℕ → String → ℕ → Exec Redis Error Unit
unfolding set_limit
set_account_limit fmt now account expiration =
    set_limit now (get_account_limit_key fmt account) expiration

unfoldable pub account_limit_exist : Fmt → ℕ → String → Redis → Bool × Redis
unfolding limit_exist
account_limit_exist fmt now account = limit_exist now (get_account_limit_key fmt account)

-- getRegisterLimitKey, SetRegisterLimit, RegisterLimitExist
unfoldable pub get_register_limit_key : Fmt → ℕ → String → String → String → String
get_register_limit_key fmt chain_type address account action =
    fmt.to_lower
      ("register:limit:" ⧺ account ⧺ ":" ⧺ fmt.decimal chain_type ⧺ ":" ⧺ address ⧺ ":" ⧺ action)

unfoldable pub set_register_limit :
    Fmt → ℕ → ℕ → String → String → String → ℕ → Exec Redis Error Unit
unfolding set_limit
set_register_limit fmt now chain_type address account action expiration =
    set_limit now (get_register_limit_key fmt chain_type address account action) expiration

unfoldable pub register_limit_exist : Fmt → ℕ → ℕ → String → String → String → Redis → Bool × Redis
unfolding limit_exist
register_limit_exist fmt now chain_type address account action =
    limit_exist now (get_register_limit_key fmt chain_type address account action)

-- A limit of the service that was just set stands for three minutes and no longer, if redis is
-- connected and takes both commands.
pub api_limit_exist-set_api_limit :
    (fmt : Fmt) (now t chain_type : ℕ) (address action : String) (r : Redis)
    → r.connected ≡ true
    → r.faults ≡ []
    → (api_limit_exist fmt t chain_type address action
        (set_api_limit fmt now chain_type address action r).1).0
      ≡ ltb t (now + 180)
unfolding api_limit_exist limit_exist key_exists set_api_limit ◌>>=◌ is_connected set_key command
    faulted
api_limit_exist-set_api_limit fmt now t chain_type address action r c f =
    let key = get_api_limit_key fmt chain_type address action in
    ground (
      arith,
      live_entry-put_own now key "1" 180 t r.entries,
      live_entry-put_expired now key "1" 180 t r.entries,
    )
