-- ===== src/Lifecycle/Listing.antt =====
-- http_server/handle/authorize.go: what doAuthorizeInfo lists after a transaction of buildUpdateAuthorizeTx.
use das_multi_device.Prelude.{
  ℕ, String, false, some, List, [], ◌∷◌, ◌++◌, ◌≡◌, ap, ◌∙◌, arith, select, str_eq, All,
  if◌then◌else◌,
}
use das_multi_device.Outcome.{Error, Result, ok}
use das_multi_device.Api.{respond_ok}
use das_multi_device.Dao.{Db, CidPk, on}
use das_multi_device.Dao.CidInfos.{find_cid}
use das_multi_device.Dao.ParserTables.{get_cid_pk}
use das_multi_device.KeyList.{
  WebauthnKey, KeyOperate, add, delete, other, add_key, delete_key, update_keys, slave_key, ChainTx,
  TxParams, split_at, build_update_authorize_tx,
}
use das_multi_device.KeyList.Built.{list_witness, built-updated}
use das_multi_device.KeyList.Laws.{others, delete_key-eq-others}
use das_multi_device.Service.{AddressHex, Env, World}
use das_multi_device.AuthorizeInfo.{
  Devices, DeviceInfo, is_master, notes_of, device_of, do_authorize_info,
}
use das_multi_device.AuthorizeInfo.Lists.{HasAddress, describe, backups, do_authorize_info-backups}

module _ (devices : Devices) (address_of : WebauthnKey → String) (master : AddressHex) (db : Db)
    (k : WebauthnKey) where
  -- The backups of a list after an operation: a new device comes last, a deleted one is left out.
  abbrev pub listed : KeyOperate → List WebauthnKey → List DeviceInfo
  listed add keys =
      backups devices address_of master db keys
      ++ (if is_master devices master k then [] else describe devices address_of db k ∷ [])
  listed delete keys = backups devices address_of master db (others k keys)
  listed other keys = backups devices address_of master db (others k keys)

  backups-append :
      (keys : List WebauthnKey)
      → backups devices address_of master db (keys ++ k ∷ []) ≡ listed add keys
  unfolding select
  backups-append [] = ground arith
  backups-append (v ∷ vs) = ground (arith, backups-append vs)

  backups-add_key :
      (keys keys' : List WebauthnKey)
      → add_key k keys ≡ ok keys'
      → backups devices address_of master db keys' ≡ listed add keys
  unfolding add_key
  backups-add_key keys keys' h = ground (arith, h, backups-append keys)

  backups-delete_key :
      (keys keys' : List WebauthnKey) → delete_key k keys ≡ ok keys' → keys' ≡ others k keys
  backups-delete_key keys keys' h = ground (arith, h, delete_key-eq-others k keys)

  backups-update_keys :
      (operation : KeyOperate) (keys keys' : List WebauthnKey)
      → update_keys operation k keys ≡ ok keys'
      → backups devices address_of master db keys' ≡ listed operation keys
  unfolding update_keys
  backups-update_keys add keys keys' h = backups-add_key keys keys' h
  backups-update_keys delete keys keys' h =
      ap (backups devices address_of master db) (backups-delete_key keys keys' h)
  backups-update_keys other keys keys' h =
      ap (backups devices address_of master db) (backups-delete_key keys keys' h)

module _ (env : Env) (devices : Devices) (address_of : WebauthnKey → String)
    (operation : KeyOperate) (out_point : String) (slave_payload : List ℕ) (slave : List ℕ × List ℕ)
    (old : ChainTx) (keys : List WebauthnKey) (params : TxParams) (ckb_address : String) (w : World)
    (master : AddressHex) (parts : List ℕ × List ℕ) (row : CidPk) (tx : String)
    (keys_in : String → Result Error (List WebauthnKey)) where
  abbrev slave_of : WebauthnKey
  slave_of = slave_key env.tx_env slave

  -- `keys_in` is how das-lib reads a key list from a witness, and `tx` a transaction from which it reads
  -- the witness of the key list that buildUpdateAuthorizeTx put into the parameters which it built for a
  -- device. Once the master's row points to `tx`, doAuthorizeInfo lists the master's backups as they were
  -- in the list on the chain, with the new device behind them after an addition, unless it is the master's
  -- own, and without the device after a deletion. That holds if backup is enabled, no statement fails, the
  -- node answers, `keys_in` gives back the new list from the witness that GenWitness wrote of it, and
  -- das-lib writes the address of each key in it that is not the master's.
  pub do_authorize_info-updated :
      build_update_authorize_tx env.tx_env operation out_point slave_payload ≡ ok params
      → env.tx_env.get_transaction (env.tx_env.out_point_struct out_point).tx_hash ≡ ok old
      → old.keys ≡ ok keys
      → split_at 10 slave_payload ≡ ok slave
      → ((v : String) → list_witness params ≡ some v → devices.keys_of tx ≡ keys_in v)
      → ((keys' : List WebauthnKey)
          → update_keys operation slave_of keys ≡ ok keys'
          → keys_in (env.tx_env.gen_update_witness operation keys').witness ≡ ok keys')
      → ((keys' : List WebauthnKey)
          → update_keys operation slave_of keys ≡ ok keys'
          → All (HasAddress devices address_of master) keys')
      → w.db.faults ≡ []
      → env.normal_to_hex ckb_address ≡ ok master
      → split_at 10 master.address_payload ≡ ok parts
      → (get_cid_pk (env.bytes_to_hex parts.0) w.db).0 ≡ ok (some row)
      → row.enable_authorize ≡ on
      → str_eq row.outpoint "" ≡ false
      → devices.fetch_transaction row.outpoint ≡ ok tx
      → do_authorize_info env devices ckb_address w ≡ (
        respond_ok (record {
          can_authorize = 1;
          master_notes = notes_of (find_cid (env.bytes_to_hex parts.0) w.db.cid_infos);
          master_device = device_of (find_cid (env.bytes_to_hex parts.0) w.db.cid_infos);
          ckb_address = listed devices address_of master w.db slave_of operation keys;
        }),
        w,
      )
  do_authorize_info-updated built got read cut carries reads known quiet hex split row_found enabled
        named fetched =
      let (keys', updated, written) =
        built-updated env.tx_env operation out_point slave_payload slave old keys params built got
          read cut in
      do_authorize_info-backups devices address_of env ckb_address w master parts row tx keys' quiet
        hex split row_found enabled named fetched (carries _ written ∙ reads keys' updated)
        (known keys' updated)
      ∙ ap
          (λ infos. (
            respond_ok (record {
              can_authorize = 1;
              master_notes = notes_of (find_cid (env.bytes_to_hex parts.0) w.db.cid_infos);
              master_device = device_of (find_cid (env.bytes_to_hex parts.0) w.db.cid_infos);
              ckb_address = infos;
            }),
            w,
          ))
          (backups-update_keys devices address_of master w.db slave_of operation keys keys' updated)
