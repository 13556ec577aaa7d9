-- ===== src/Authorize/Effects.antt =====
-- http_server/handle/authorize.go, doAuthorize: what a request leaves as it was.
use das_multi_device.Prelude.{ℕ, String, Bool, true, false, not, Option, List}
use das_multi_device.Outcome.Rules.{Keeps, keeps_rules}
use das_multi_device.Api.{handled}
use das_multi_device.Dao.{CidPk}
use das_multi_device.KeyList.{CellOutput, TxParams}
use das_multi_device.Service.{BuiltTx, Env, World}
use das_multi_device.Service.Tables.{
  SameWorld, on_db-SameWorld, on_redis-SameWorld, get_cid_pk-SameTables, SameWorld-refl,
}
use das_multi_device.KeyListCell.Effects.{
  check_can_be_created-SameWorld, create_key_list_cfg_cell-SameWorld,
}
use das_multi_device.Authorize.{
  ReqAuthorize, is_delete, cache_for_signing, build_webauthn_tx, new_key_list_cell,
  choose_key_list_cell, key_list_cell, build_and_cache, with_cell, search_cid_pk, with_master,
  authorize_body, do_authorize,
}

module _ (env : Env) (may_send : Bool) (w₀ : World) where
  cache_for_signing-SameWorld :
      (master out_point : String) (paid : BuiltTx)
      → Keeps (SameWorld may_send w₀) (cache_for_signing env master out_point paid)
  unfolding cache_for_signing
  cache_for_signing-SameWorld master out_point paid = search (keeps_rules, on_redis-SameWorld)

  build_webauthn_tx-SameWorld :
      (master out_point : String) (cell : Option CellOutput) (params : TxParams)
      → Keeps (SameWorld may_send w₀) (build_webauthn_tx env master out_point cell params)
  unfolding build_webauthn_tx
  build_webauthn_tx-SameWorld master out_point cell params =
      search (keeps_rules, cache_for_signing-SameWorld)

  build_and_cache-SameWorld :
      (req : ReqAuthorize) (cell : String × Option CellOutput)
      → Keeps (SameWorld may_send w₀) (build_and_cache env req cell)
  unfolding build_and_cache
  build_and_cache-SameWorld req cell = search (keeps_rules, build_webauthn_tx-SameWorld)

  search_cid_pk-SameWorld : (cid1 : List ℕ) → Keeps (SameWorld may_send w₀) (search_cid_pk env cid1)
  unfolding search_cid_pk
  search_cid_pk-SameWorld cid1 = search (keeps_rules, on_db-SameWorld, get_cid_pk-SameTables)

module _ (env : Env) (w₀ : World) where
  new_key_list_cell-SameWorld :
      (payload : String) → Keeps (SameWorld true w₀) (new_key_list_cell env payload)
  unfolding new_key_list_cell
  new_key_list_cell-SameWorld payload =
      search (keeps_rules, check_can_be_created-SameWorld, create_key_list_cfg_cell-SameWorld)

  choose-SameWorld :
      (lacks deletes : Bool) (payload : String) (res : Option CidPk)
      → Keeps (SameWorld (not deletes) w₀) (choose_key_list_cell lacks deletes env payload res)
  unfolding choose_key_list_cell
  choose-SameWorld false deletes payload res = search keeps_rules
  choose-SameWorld true true payload res = search keeps_rules
  choose-SameWorld true false payload res = new_key_list_cell-SameWorld payload

  with_cell-SameWorld :
      (req : ReqAuthorize) (payload : String) (res : Option CidPk)
      → Keeps (SameWorld (not (is_delete req.operation)) w₀) (with_cell env req payload res)
  unfolding with_cell key_list_cell
  with_cell-SameWorld req payload res =
      search (keeps_rules, choose-SameWorld, build_and_cache-SameWorld)

  authorize_body-SameWorld :
      (req : ReqAuthorize)
      → Keeps (SameWorld (not (is_delete req.operation)) w₀) (authorize_body env req)
  unfolding authorize_body with_master
  authorize_body-SameWorld req = search (keeps_rules, search_cid_pk-SameWorld, with_cell-SameWorld)

-- Whatever the node, the database and redis answer, a request to doAuthorize changes no pending row
-- and no notes of a cid, and a request to delete a device sends nothing to the chain.
pub do_authorize-SameWorld :
    (env : Env) (req : ReqAuthorize) (w : World)
    → SameWorld (not (is_delete req.operation)) w (do_authorize env req w).1
unfolding do_authorize handled
do_authorize-SameWorld env req w =
    (authorize_body-SameWorld env w req).at w (SameWorld-refl (not (is_delete req.operation)) w)
