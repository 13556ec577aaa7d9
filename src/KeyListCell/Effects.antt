-- ===== src/KeyListCell/Effects.antt =====
-- http_server/handle/authorize.go: what checkCanBeCreated and createKeyListCfgCell leave as it was.
use das_multi_device.Prelude.{String, Bool, true, false}
use das_multi_device.Outcome.{Error, Result, ok, err, Exec}
use das_multi_device.Outcome.Rules.{Keeps, keeps_rules}
use das_multi_device.Cache.{del_key}
use das_multi_device.Service.{Env, World, BuiltTx}
use das_multi_device.Service.Tables.{
  SameWorld, on_db-SameWorld, on_redis-SameWorld, get_account_infos-SameTables,
}
use das_multi_device.KeyListCell.Locking.{build-same}
use das_multi_device.KeyListCell.{
  check_balance, check_can_be_created, build_create_key_list_cfg_tx, send, create_locked,
  release_after, create_key_list_cfg_cell,
}

module _ (env : Env) (payload : String) (may_send : Bool) (w₀ : World) where
  check_balance-SameWorld : (b : Bool) → Keeps (SameWorld may_send w₀) (check_balance b env payload)
  unfolding check_balance
  check_balance-SameWorld true = search keeps_rules
  check_balance-SameWorld false = search keeps_rules

  pub check_can_be_created-SameWorld :
      Keeps (SameWorld may_send w₀) (check_can_be_created env payload)
  unfolding check_can_be_created
  check_can_be_created-SameWorld =
      search (keeps_rules, on_db-SameWorld, get_account_infos-SameTables, check_balance-SameWorld)

  build_create-SameWorld : Keeps (SameWorld may_send w₀) (build_create_key_list_cfg_tx env payload)
  build_create-SameWorld = record { at = λ w h. rw (build-same env payload w) h }

module _ (env : Env) (payload : String) (w₀ : World) where
  send-SameWorld :
      (tx : BuiltTx) (r : Result Error String) → Keeps (SameWorld true w₀) (send env tx r)
  unfolding send
  send-SameWorld tx (ok hash) = record { at = λ w h. h }
  send-SameWorld tx (err e) = record { at = λ w h. h }

  create_locked-SameWorld : Keeps (SameWorld true w₀) (create_locked env payload)
  unfolding create_locked
  create_locked-SameWorld = search (keeps_rules, build_create-SameWorld, send-SameWorld) depth 8

  release_after-SameWorld :
      {A : Type 0} (key : String) (body : Exec World Error A)
      → Keeps (SameWorld true w₀) body
      → Keeps (SameWorld true w₀) (release_after key body)
  unfolding release_after
  release_after-SameWorld key body k = record {
    at = λ w h. (on_redis-SameWorld true w₀ (del_key key)).at (body w).1 (k.at w h);
  }

  pub create_key_list_cfg_cell-SameWorld :
      Keeps (SameWorld true w₀) (create_key_list_cfg_cell env payload)
  unfolding create_key_list_cfg_cell
  create_key_list_cfg_cell-SameWorld =
      search (keeps_rules, on_redis-SameWorld, release_after-SameWorld, create_locked-SameWorld)
