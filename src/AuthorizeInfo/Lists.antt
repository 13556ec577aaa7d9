-- ===== src/AuthorizeInfo/Lists.antt =====
-- http_server/handle/authorize.go, doAuthorizeInfo: the answer for a master whose backup is enabled.
use das_multi_device.Prelude.{
  ℕ, String, false, not, some, List, [], ◌∷◌, map, ◌≡◌, refl, ap, arith, select, str_eq, All,
}
use das_multi_device.Outcome.{ok, ◌>>=◌}
use das_multi_device.Api.{handled, answer, respond_ok}
use das_multi_device.Dao.{Db, CidPk, on, query, statement}
use das_multi_device.Dao.CidInfos.{get_cid_info, find_cid}
use das_multi_device.Dao.ParserTables.{get_cid_pk}
use das_multi_device.KeyList.{WebauthnKey, split_at}
use das_multi_device.Service.{AddressHex, Env, World, on_db}
use das_multi_device.AuthorizeInfo.{
  Devices, DeviceInfo, is_master, device_info, list_devices_step, list_devices, enabled_devices,
  authorized_devices, can_authorize_of, authorize_info_body, do_authorize_info, notes_of, device_of,
}

module _ (devices : Devices) (address_of : WebauthnKey → String) where
  -- A device with the notes of its cid.
  abbrev pub describe : Db → WebauthnKey → DeviceInfo
  describe db k = record {
    address = address_of k;
    device = device_of (find_cid k.cid db.cid_infos);
    notes = notes_of (find_cid k.cid db.cid_infos);
  }

  abbrev pub backups : AddressHex → Db → List WebauthnKey → List DeviceInfo
  backups master db keys = map (describe db) (select (λ k. not (is_master devices master k)) keys)

  -- das-lib writes the address of a key, unless it is the master's, which is not listed.
  abbrev pub HasAddress : AddressHex → WebauthnKey → Type 0
  HasAddress master k =
      is_master devices master k ≡ false
      → devices.hex_to_normal k.min_alg_id k.sub_alg_id (devices.payload_of k) ≡ ok (address_of k)

  list_devices-backups :
      (master : AddressHex) (ks : List WebauthnKey) (w : World)
      → w.db.faults ≡ []
      → All (HasAddress master) ks
      → list_devices devices master ks w ≡ (ok (backups master w.db ks), w)
  unfolding list_devices list_devices_step device_info ◌>>=◌ on_db get_cid_info query statement
      select
  list_devices-backups master [] w h known = refl
  list_devices-backups master (k ∷ ks) w h known =
      ground (arith, known.0, list_devices-backups master ks w h known.1)

  body-backups :
      (env : Env) (ckb_address : String) (w : World) (master : AddressHex) (parts : List ℕ × List ℕ)
      (row : CidPk) (tx : String) (keys : List WebauthnKey)
      → w.db.faults ≡ []
      → env.normal_to_hex ckb_address ≡ ok master
      → split_at 10 master.address_payload ≡ ok parts
      → (get_cid_pk (env.bytes_to_hex parts.0) w.db).0 ≡ ok (some row)
      → row.enable_authorize ≡ on
      → str_eq row.outpoint "" ≡ false
      → devices.fetch_transaction row.outpoint ≡ ok tx
      → devices.keys_of tx ≡ ok keys
      → All (HasAddress master) keys
      → authorize_info_body env devices ckb_address w ≡ (
        ok (record {
          can_authorize = 1;
          master_notes = notes_of (find_cid (env.bytes_to_hex parts.0) w.db.cid_infos);
          master_device = device_of (find_cid (env.bytes_to_hex parts.0) w.db.cid_infos);
          ckb_address = backups master w.db keys;
        }),
        w,
      )
  unfolding authorize_info_body authorized_devices enabled_devices can_authorize_of ◌>>=◌ on_db
      get_cid_pk get_cid_info query statement find_cid
  body-backups env ckb_address w master parts row tx keys f h s r e o t k known =
      ground (arith, list_devices-backups master keys w f known)

  -- If no statement fails, the master's address parses, its row has backup enabled and an outpoint, the
  -- node returns the transaction of that outpoint, its key list parses, and das-lib writes the address of
  -- each key in it that is not the master's: a request for this master is answered with the devices of the
  -- key list other than the master, in order, each with its address and the notes of its cid, and changes
  -- nothing.
  pub do_authorize_info-backups :
      (env : Env) (ckb_address : String) (w : World) (master : AddressHex) (parts : List ℕ × List ℕ)
      (row : CidPk) (tx : String) (keys : List WebauthnKey)
      → w.db.faults ≡ []
      → env.normal_to_hex ckb_address ≡ ok master
      → split_at 10 master.address_payload ≡ ok parts
      → (get_cid_pk (env.bytes_to_hex parts.0) w.db).0 ≡ ok (some row)
      → row.enable_authorize ≡ on
      → str_eq row.outpoint "" ≡ false
      → devices.fetch_transaction row.outpoint ≡ ok tx
      → devices.keys_of tx ≡ ok keys
      → All (HasAddress master) keys
      → do_authorize_info env devices ckb_address w ≡ (
        respond_ok (record {
          can_authorize = 1;
          master_notes = notes_of (find_cid (env.bytes_to_hex parts.0) w.db.cid_infos);
          master_device = device_of (find_cid (env.bytes_to_hex parts.0) w.db.cid_infos);
          ckb_address = backups master w.db keys;
        }),
        w,
      )
  unfolding do_authorize_info handled
  do_authorize_info-backups env ckb_address w master parts row tx keys f h s r e o t k known =
      ap (λ r. (answer r.0, r.1))
        (body-backups env ckb_address w master parts row tx keys f h s r e o t k known)
