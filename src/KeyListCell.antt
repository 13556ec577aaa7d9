-- ===== src/KeyListCell.antt =====
-- http_server/handle/authorize.go, checkCanBeCreated, createKeyListCfgCell and buildCreateKeyListCfgTx:
-- the key-list cell of a master device is created on the chain.
pub mod Locking
pub mod Effects
pub mod Balance
pub mod Fees
use das_multi_device.Prelude.{
  ℕ, ◌*◌, String, Bool, true, false, Option, none, some, List, [], ◌∷◌, map, ltb, if◌then◌else◌,
  add64, sub64, mul64,
}
use das_multi_device.Outcome.{
  Error, plain, wrap, panic, Result, ok, err, change_err, Exec, pure, raise, lift, on_err, ◌>>=◌,
  ◌>>◌, guard,
}
use das_multi_device.Api.{
  ApiCode, error500, db_error, has_no_access_to_create, create_config_cell_fail,
  has_no_access_to_remove, Handled, fail, refuse, untouched, handled,
}
use das_multi_device.Cache.{Fmt, Redis, lock_with_redis, del_key, set_sign_tx_cache}
use das_multi_device.Dao.{Db, CidPk, off, on}
use das_multi_device.Dao.ParserTables.{get_cid_pk, get_account_infos}
use das_multi_device.KeyList.{
  KeyOperate, delete, OutPoint, CellOutput, TxParams, TxEnv, GenResult, split_at,
  build_update_authorize_tx,
}
use das_multi_device.Service.{
  AddressHex, BuiltTx, Env, SignData, SignInfo, SignInfoCache, World, fail_with, on_db, on_redis,
  wrap_err,
}

-- The balance of a payload, if it has no account: num > 0 is the test.
unfoldable pub check_balance : Bool → Env → String → Exec World Error Bool
unfolding ◌>>=◌
check_balance true env payload = pure true
check_balance false env payload = do
  script ← lift (change_err (wrap "FormatAddressToDasLockScript") (env.script_of payload))
  amount ← lift (change_err (wrap "GetBalanceCells") (env.balance_of script))
  pure (ltb 0 amount)

-- checkCanBeCreated: an account of its own, or a balance.
unfoldable pub check_can_be_created : Env → String → Exec World Error Bool
unfolding ◌>>=◌ on_db check_balance
check_can_be_created env payload = do
  num ← on_err (wrap "GetAccountInfos") (on_db (get_account_infos payload))
  check_balance (ltb 0 num) env payload

-- Outputs[len-1].Capacity - sizeInBlock - 1000, in uint64 arithmetic, where first_or_panic found an
-- output.
unfoldable pub pay_last : ℕ → List CellOutput → List CellOutput
pay_last size [] = []
pay_last size (o ∷ []) = record o { capacity = sub64 (sub64 o.capacity size) 1000 } ∷ []
pay_last size (o ∷ p ∷ os) = o ∷ pay_last size (p ∷ os)

-- The capacity of a new key-list cell: at least 161 CKB, a constant; the product is uint64 arithmetic.
unfoldable pub key_list_capacity : ℕ → ℕ → ℕ
key_list_capacity one_ckb occupied =
    if ltb (mul64 occupied one_ckb) (161 * one_ckb) then 161 * one_ckb else mul64 occupied one_ckb

-- The change goes back in cells of at most the configured size, 2000 CKB, a constant, by default.
unfoldable pub change_outputs : Env → ℕ → Result Error (List CellOutput)
change_outputs env change =
    if ltb 0 change
    then change_err (wrap "SplitOutputCell2") (
        env.split_output_cell change
          (if ltb 0 env.split_ckb then mul64 env.split_ckb env.one_ckb else 2000 * env.one_ckb))
    else ok []

-- buildCreateKeyListCfgTx. The error of GenWitness is not tested.
unfoldable pub build_create_key_list_cfg_tx : Env → String → Exec World Error TxParams
unfolding ◌>>=◌ key_list_capacity change_outputs
build_create_key_list_cfg_tx env payload = do
  contract_das ← lift (change_err (wrap "GetDasContractInfo") env.dispatch_contract)
  config_main ← lift (change_err (wrap "GetDasContractInfo") env.config_contract)
  key_list_cell ← lift (change_err (wrap "GetDasContractInfo") env.key_list_contract)
  parts ← lift (split_at 10 (env.hex_to_bytes payload))
  cid ← lift (env.byte10 parts.0)
  pk ← lift (env.byte10 parts.1)
  refund ← lift env.refund_lock
  let gen = env.gen_create_witness cid pk refund
  scripts ← lift (change_err (wrap "HexToArgs") (env.key_list_scripts payload))
  let capacity = key_list_capacity env.one_ckb (env.occupied gen.cell_data)
  cells ← lift (change_err (wrap "GetBalanceCells") (env.server_cells (add64 10_000 capacity)))
  change ← lift (change_outputs env (sub64 cells.1 (add64 10_000 capacity)))
  action_witness ← lift (change_err (wrap "GenActionDataWitness") env.create_action_witness)
  pure (record {
    cell_deps = contract_das ∷ config_main ∷ key_list_cell ∷ [];
    inputs = cells.0;
    outputs = record { capacity = capacity; scripts = scripts } ∷ change;
    outputs_data = gen.cell_data ∷ map (λ _. "") change;
    witnesses = action_witness ∷ gen.witness ∷ [];
  })

-- SendTransaction: what was accepted is on its way to the chain.
send : Env → BuiltTx → Result Error String → Exec World Error String
send env tx (ok hash) w = (ok hash, record w { sent = tx ∷ w.sent })
send env tx (err e) w = (err e, w)

-- An index into Outputs: the first one, or a panic where there is none.
unfoldable pub first_or_panic : List CellOutput → Result Error CellOutput
first_or_panic [] = err (panic "index out of range")
first_or_panic (o ∷ os) = ok o

-- createKeyListCfgCell, behind the lock: the cell is created at index 0 of the sent transaction. The
-- parameters share their outputs with the builder, so that the fee is taken from the cell that is returned
-- where it is the last one.
unfoldable pub create_locked : Env → String → Exec World Error (String × CellOutput)
unfolding ◌>>=◌ send first_or_panic pay_last
create_locked env payload = do
  params ← build_create_key_list_cfg_tx env payload
  tx ← lift (change_err (wrap "txBuilder.BuildTransaction") (env.build_transaction none params))
  first ← lift (first_or_panic tx.outputs)
  let paid = record tx { outputs = pay_last (env.size_in_block tx) tx.outputs }
  hash ← send env paid (env.send_transaction paid)
  cell ← lift (first_or_panic paid.outputs)
  pure (env.out_point_string hash 0, cell)

-- The deferred deletion of the lock: it runs whatever the body returns, and its error is dropped.
unfoldable pub release_after : {A : Type 0} → String → Exec World Error A → Exec World Error A
unfolding on_redis
release_after key body w = let (r, w') = body w in (r, (on_redis (del_key key) w').1)

-- createKeyListCfgCell; the lock lasts four minutes.
unfoldable pub create_key_list_cfg_cell : Env → String → Exec World Error (String × CellOutput)
unfolding ◌>>=◌ on_redis
create_key_list_cfg_cell env payload = do
  key ← on_err (wrap_err "createKeyListCfgCell LockWithRedis") (
      on_redis (
        lock_with_redis env.fmt env.now env.chain_type_webauthn payload "createKeyListConfigCell"
          (4 * 60)))
  release_after key (create_locked env payload)
