-- ===== src/AuthorizeInfo.antt =====
-- http_server/handle/authorize.go, doAuthorizeInfo: the backup devices of a master device with their
-- notes, and whether the master may have any.
pub mod Effects
pub mod Lists
use das_multi_device.Prelude.{
  ℕ, String, Bool, true, false, ◌&&◌, Option, none, some, List, [], ◌∷◌, ◌==◌, str_eq,
  if◌then◌else◌,
}
use das_multi_device.Outcome.{
  Error, plain, wrap, Result, change_err, Exec, pure, lift, on_err, ◌>>=◌, ◌>>◌, guard,
}
use das_multi_device.Api.{error500, db_error, Handled, fail, untouched, handled}
use das_multi_device.Dao.{CidInfo, CidPk, off, on}
use das_multi_device.Dao.CidInfos.{get_cid_info}
use das_multi_device.Dao.ParserTables.{get_cid_pk}
use das_multi_device.KeyList.{WebauthnKey, split_at}
use das_multi_device.Service.{AddressHex, Env, World, on_db}
use das_multi_device.KeyListCell.{check_can_be_created}

-- AuthorizeInfo
pub record DeviceInfo : Type 0 where
  pub address : String
  pub device : String
  pub notes : String

-- RespAuthorizeInfo; `can_authorize` is 0 or 1.
pub record RespAuthorizeInfo : Type 0 where
  pub can_authorize : ℕ
  pub master_notes : String
  pub master_device : String
  pub ckb_address : List DeviceInfo

-- What this handler asks of the node and of das-lib besides.
pub record Devices : Type 0 where
  -- GetTransaction of an outpoint, and WebAuthnKeyListDataBuilderFromTx of the transaction
  pub fetch_transaction : String → Result Error String
  pub keys_of : String → Result Error (List WebauthnKey)
  -- CalculateWebauthnPayload of the cid and the public key
  pub payload_of : WebauthnKey → String
  -- Daf().HexToNormal of the algorithm, the subalgorithm and the payload
  pub hex_to_normal : ℕ → ℕ → String → Result Error String

-- The key in the list that is the master's own.
unfoldable pub is_master : Devices → AddressHex → WebauthnKey → Bool
is_master devices master k =
    master.sub_algorithm_id == k.sub_alg_id && str_eq master.address_hex (devices.payload_of k)

unfoldable pub notes_of : Option CidInfo → String
notes_of none = ""
notes_of (some c) = c.notes

unfoldable pub device_of : Option CidInfo → String
device_of none = ""
device_of (some c) = c.device

wrap_notes : Error → Handled RespAuthorizeInfo
wrap_notes e = fail db_error "GetAvatarNotes err" (wrap "GetAvatarNotes" e)

-- One turn of the loop over the keys, for a key that is not the master's.
unfoldable pub device_info :
    Devices → WebauthnKey → Exec World (Handled RespAuthorizeInfo) DeviceInfo
unfolding ◌>>=◌ on_db wrap_notes notes_of device_of
device_info devices k = do
  address ← lift (
      change_err (fail error500 "HexToNormal err")
        (devices.hex_to_normal k.min_alg_id k.sub_alg_id (devices.payload_of k)))
  cid_info ← on_err wrap_notes (on_db (get_cid_info k.cid))
  pure (record { address = address; device = device_of cid_info; notes = notes_of cid_info })

-- A key that is the master's is skipped.
unfoldable pub list_devices_step :
    Bool
    → Exec World (Handled RespAuthorizeInfo) DeviceInfo
    → Exec World (Handled RespAuthorizeInfo) (List DeviceInfo)
    → Exec World (Handled RespAuthorizeInfo) (List DeviceInfo)
unfolding ◌>>=◌
list_devices_step true first rest = rest
list_devices_step false first rest = do info ← first; infos ← rest; pure (info ∷ infos)

unfoldable pub list_devices :
    Devices
    → AddressHex
    → List WebauthnKey
    → Exec World (Handled RespAuthorizeInfo) (List DeviceInfo)
unfolding list_devices_step
list_devices devices master [] = pure []
list_devices devices master (k ∷ ks) =
    list_devices_step (is_master devices master k) (device_info devices k)
      (list_devices devices master ks)

-- if res.EnableAuthorize == tables.EnableAuthorizeOn { ... }
enabled_devices :
    Devices → AddressHex → CidPk → Exec World (Handled RespAuthorizeInfo) (List DeviceInfo)
unfolding ◌>>=◌ list_devices
enabled_devices devices master res = do
  guard (if str_eq res.outpoint "" then false else true)
      (fail error500 "outpoint is empty" (plain "outpoint is empty"))
  tx ←
      lift
        (change_err (fail error500 "GetTransaction err") (devices.fetch_transaction res.outpoint))
  keys ←
      lift (change_err (fail error500 "WebAuthnKeyListDataBuilderFromTx err") (devices.keys_of tx))
  list_devices devices master keys

-- A cid without a row has the zero row, where authorization is off.
unfoldable pub authorized_devices :
    Devices → AddressHex → Option CidPk → Exec World (Handled RespAuthorizeInfo) (List DeviceInfo)
unfolding enabled_devices
authorized_devices devices master none = pure []
authorized_devices devices master (some res) = elim res.enable_authorize [
  | off ↦ pure []
  | on ↦ enabled_devices devices master res
]

ask_can_be_created : Env → AddressHex → Exec World (Handled RespAuthorizeInfo) ℕ
unfolding ◌>>=◌
ask_can_be_created env master = do
  can_create ←
      on_err (λ e. fail error500 "check if can be created err" (wrap "checkCanBeCreated" e))
        (check_can_be_created env master.address_hex)
  pure (if can_create then 1 else 0)

unfoldable pub can_authorize_of :
    Env → AddressHex → Option CidPk → Exec World (Handled RespAuthorizeInfo) ℕ
unfolding ask_can_be_created
can_authorize_of env master none = ask_can_be_created env master
can_authorize_of env master (some res) = elim res.enable_authorize [
  | off ↦ ask_can_be_created env master
  | on ↦ pure 1
]

unfoldable pub authorize_info_body :
    Env → Devices → String → Exec World (Handled RespAuthorizeInfo) RespAuthorizeInfo
unfolding ◌>>=◌ on_db wrap_notes notes_of device_of
authorize_info_body env devices ckb_address = do
  master ← lift (change_err (fail error500 "NormalToHex err") (env.normal_to_hex ckb_address))
  parts ← lift (change_err (λ e. untouched (some e)) (split_at 10 master.address_payload))
  res ←
      on_err (λ e. fail db_error "Search cidpk err" (wrap "SearchCidPk" e))
        (on_db (get_cid_pk (env.bytes_to_hex parts.0)))
  infos ← authorized_devices devices master res
  master_info ← on_err wrap_notes (on_db (get_cid_info (env.bytes_to_hex parts.0)))
  can_authorize ← can_authorize_of env master res
  pure (record {
    can_authorize = can_authorize;
    master_notes = notes_of master_info;
    master_device = device_of master_info;
    ckb_address = infos;
  })

-- doAuthorizeInfo
unfoldable pub do_authorize_info :
    Env → Devices → String → World → Handled RespAuthorizeInfo × World
unfolding authorize_info_body
do_authorize_info env devices ckb_address = handled (authorize_info_body env devices ckb_address)
