-- ===== src/Authorize.antt =====
-- http_server/handle/authorize.go, doAuthorize and buildWebauthnTx: a master device asks for the
-- transaction that adds or deletes a backup device, and gets a key-list cell if it has none.
pub mod Effects
pub mod Panics
use das_multi_device.Prelude.{
  ℕ, String, Bool, true, false, Option, none, some, List, [], ◌∷◌, if◌then◌else◌, sub64,
}
use das_multi_device.Outcome.{
  Error, plain, wrap, Result, ok, err, change_err, Exec, pure, raise, lift, on_err, ◌>>=◌, ◌>>◌,
  guard,
}
use das_multi_device.Api.{
  error500, db_error, has_no_access_to_create, create_config_cell_fail, has_no_access_to_remove,
  Handled, fail, refuse, untouched, handled,
}
use das_multi_device.Cache.{set_sign_tx_cache}
use das_multi_device.Dao.{CidPk, off, on}
use das_multi_device.Dao.ParserTables.{get_cid_pk}
use das_multi_device.KeyList.{
  KeyOperate, delete, CellOutput, TxParams, split_at, build_update_authorize_tx,
}
use das_multi_device.Service.{
  BuiltTx, Env, SignInfo, SignInfoCache, World, fail_with, on_db, on_redis, wrap_err,
}
use das_multi_device.KeyListCell.{check_can_be_created, first_or_panic, create_key_list_cfg_cell}

-- Outputs[0].Capacity - sizeInBlock - 1000, in uint64 arithmetic, where first_or_panic found an output.
unfoldable pub pay_first : ℕ → List CellOutput → List CellOutput
pay_first size [] = []
pay_first size (o ∷ os) = record o { capacity = sub64 (sub64 o.capacity size) 1000 } ∷ os

abbrev pub sign_info_cache : Env → String → String → BuiltTx → SignInfoCache
sign_info_cache env master out_point tx = record {
  chain_type = env.chain_type_webauthn;
  address = master;
  action = env.action_update_key_list;
  capacity = 0;
  key_list_cfg_cell_opt = out_point;
  builder_tx = tx;
}

-- The second half of buildWebauthnTx: the transaction to sign is cached under its sign key.
unfoldable pub cache_for_signing : Env → String → String → BuiltTx → Exec World Error SignInfo
unfolding ◌>>=◌ on_redis
cache_for_signing env master out_point paid = do
  sign_list ← lift (change_err (wrap "txBuilder.GenerateDigestListFromTx") (env.digest_list paid))
  let sic = sign_info_cache env master out_point paid
  on_err (wrap "SetSignTxCache")
      (on_redis (set_sign_tx_cache env.now (env.sign_key sic) (env.json sic)))
  pure (record { sign_key = env.sign_key sic; sign_address = ""; sign_list = sign_list })

-- buildWebauthnTx; the first output pays the fee, and there must be one.
unfoldable pub build_webauthn_tx :
    Env → String → String → Option CellOutput → TxParams → Exec World Error SignInfo
unfolding ◌>>=◌ first_or_panic
build_webauthn_tx env master out_point new_cell params = do
  tx ← lift (
      change_err (wrap "txBuilder.BuildTransaction") (
        env.build_transaction (elim new_cell [ none ↦ none | some cell ↦ some (out_point, cell) ])
          params))
  first ← lift (first_or_panic tx.outputs)
  cache_for_signing env master out_point
      (record tx { outputs = pay_first (env.size_in_block tx) tx.outputs })

pub record ReqAuthorize : Type 0 where
  pub master_ckb_address : String
  pub slave_ckb_address : String
  pub operation : KeyOperate

-- res.Id == 0 || res.EnableAuthorize == EnableAuthorizeOff
unfoldable pub not_enabled : Option CidPk → Bool
not_enabled none = true
not_enabled (some r) = elim r.enable_authorize [ off ↦ true | on ↦ false ]

abbrev out_point_of : Option CidPk → String
out_point_of none = ""
out_point_of (some r) = r.outpoint

abbrev pub is_delete : KeyOperate → Bool
is_delete delete = true
is_delete _ = false

abbrev no_access : String
no_access = "the main device does not have permission to activate backup"

-- A new key-list cell, if the master can have one.
unfoldable pub new_key_list_cell :
    Env → String → Exec World (Handled SignInfo) (String × Option CellOutput)
unfolding ◌>>=◌
new_key_list_cell env payload = do
  can_create ←
      on_err (λ e. fail error500 "check if can be created err" (wrap "checkCanBeCreated" e))
        (check_can_be_created env payload)
  guard can_create (fail has_no_access_to_create no_access (plain no_access))
  created ←
      on_err
        (λ e.
          fail_with create_config_cell_fail "create keyListConfigCell err"
            (wrap_err "createKeyListCfgCell" e))
        (create_key_list_cfg_cell env payload)
  pure (created.0, some created.1)

-- res.Id == 0 || res.EnableAuthorize == EnableAuthorizeOff, then Operation == DeleteWebAuthnKey.
unfoldable pub choose_key_list_cell :
    Bool
    → Bool
    → Env
    → String
    → Option CidPk
    → Exec World (Handled SignInfo) (String × Option CellOutput)
choose_key_list_cell false deletes env payload res = pure (out_point_of res, none)
choose_key_list_cell true true env payload res =
    raise (refuse has_no_access_to_remove "master addr hasn`t enable authorze yet")
choose_key_list_cell true false env payload res = new_key_list_cell env payload

-- The key-list cell of a master: the stored one, or a new one where backup is not enabled yet.
unfoldable pub key_list_cell :
    Env
    → KeyOperate
    → String
    → Option CidPk
    → Exec World (Handled SignInfo) (String × Option CellOutput)
unfolding not_enabled choose_key_list_cell
key_list_cell env operation payload res =
    choose_key_list_cell (not_enabled res) (is_delete operation) env payload res

-- The parts of doAuthorize, the last first: the transaction, the key-list cell, the master's row.
unfoldable pub build_and_cache :
    Env → ReqAuthorize → String × Option CellOutput → Exec World (Handled SignInfo) SignInfo
unfolding ◌>>=◌
build_and_cache env req cell = do
  slave ←
      lift (change_err (fail error500 "NormalToHex err") (env.normal_to_hex req.slave_ckb_address))
  params ← lift (
      change_err (λ e. fail_with error500 "build tx err" (wrap_err "buildAddAuthorizeTx" e))
        (build_update_authorize_tx env.tx_env req.operation cell.0 slave.address_payload))
  on_err (λ e. fail_with error500 "buildWebauthnTx tx err" (wrap_err "buildWebauthnTx" e))
      (build_webauthn_tx env req.master_ckb_address cell.0 cell.1 params)

unfoldable pub with_cell :
    Env → ReqAuthorize → String → Option CidPk → Exec World (Handled SignInfo) SignInfo
with_cell env req payload res =
    key_list_cell env req.operation payload res >>= build_and_cache env req

unfoldable pub search_cid_pk : Env → List ℕ → Exec World (Handled SignInfo) (Option CidPk)
unfolding on_db
search_cid_pk env cid1 =
    on_err (λ e. fail db_error "search cidpk err" (wrap "SearchCidPk" e))
      (on_db (get_cid_pk (env.bytes_to_hex cid1)))

unfoldable pub master_of : Env → ReqAuthorize → Result (Handled SignInfo) (String × List ℕ)
master_of env req = elim (env.normal_to_hex req.master_ckb_address) [
  | err e ↦ err (fail error500 "NormalToHex err" e)
  | ok master ↦ elim (split_at 10 master.address_payload) [
    | err e ↦ err (untouched (some e))
    | ok (cid1, _) ↦ ok (master.address_hex, cid1)
  ]
]

unfoldable pub with_master :
    Env → ReqAuthorize → String × List ℕ → Exec World (Handled SignInfo) SignInfo
with_master env req master = search_cid_pk env master.1 >>= with_cell env req master.0

unfoldable pub authorize_body : Env → ReqAuthorize → Exec World (Handled SignInfo) SignInfo
authorize_body env req = lift (master_of env req) >>= with_master env req

-- doAuthorize
unfoldable pub do_authorize : Env → ReqAuthorize → World → Handled SignInfo × World
unfolding authorize_body
do_authorize env req = handled (authorize_body env req)
