-- ===== src/AuthorizeInfo/Effects.antt =====
-- http_server/handle/authorize.go, doAuthorizeInfo: it only reads.
use das_multi_device.Prelude.{String, Bool, true, false, Option, none, some, List, [], ◌∷◌}
use das_multi_device.Outcome.{Exec, pure}
use das_multi_device.Outcome.Rules.{Keeps, keeps_rules}
use das_multi_device.Api.{Handled, handled}
use das_multi_device.Dao.{CidPk, off, on, EnableAuthorize}
use das_multi_device.KeyList.{WebauthnKey}
use das_multi_device.Service.{AddressHex, Env, World}
use das_multi_device.Service.Tables.{
  SameWorld, SameWorld-refl, on_db-SameWorld, get_cid_pk-SameTables, get_cid_info-SameTables,
}
use das_multi_device.KeyListCell.Effects.{check_can_be_created-SameWorld}
use das_multi_device.AuthorizeInfo.{
  Devices, RespAuthorizeInfo, DeviceInfo, is_master, device_info, list_devices_step, list_devices,
  enabled_devices, authorized_devices, ask_can_be_created, can_authorize_of, authorize_info_body,
  do_authorize_info,
}

Keeps-flag :
    {A : Type 0} {P : World → Type 0} (flag : EnableAuthorize)
    (m n : Exec World (Handled RespAuthorizeInfo) A)
    → Keeps P m
    → Keeps P n
    → Keeps P (elim flag [ off ↦ m | on ↦ n ])
Keeps-flag off m n km kn = km
Keeps-flag on m n km kn = kn

module _ (env : Env) (devices : Devices) (master : AddressHex) (w₀ : World) where
  device_info-SameWorld : (k : WebauthnKey) → Keeps (SameWorld false w₀) (device_info devices k)
  unfolding device_info
  device_info-SameWorld k = search (keeps_rules, on_db-SameWorld, get_cid_info-SameTables)

  step-SameWorld :
      (skip : Bool) (first : Exec World (Handled RespAuthorizeInfo) DeviceInfo)
      (rest : Exec World (Handled RespAuthorizeInfo) (List DeviceInfo))
      → Keeps (SameWorld false w₀) first
      → Keeps (SameWorld false w₀) rest
      → Keeps (SameWorld false w₀) (list_devices_step skip first rest)
  unfolding list_devices_step
  step-SameWorld true first rest kf kr = kr
  step-SameWorld false first rest kf kr = search keeps_rules

  list_devices-SameWorld :
      (ks : List WebauthnKey) → Keeps (SameWorld false w₀) (list_devices devices master ks)
  unfolding list_devices
  list_devices-SameWorld [] = search keeps_rules
  list_devices-SameWorld (k ∷ ks) =
      step-SameWorld (is_master devices master k) (device_info devices k)
        (list_devices devices master ks) (device_info-SameWorld k) (list_devices-SameWorld ks)

  enabled-SameWorld :
      (res : CidPk) → Keeps (SameWorld false w₀) (enabled_devices devices master res)
  unfolding enabled_devices
  enabled-SameWorld res = search (keeps_rules, list_devices-SameWorld)

  authorized-SameWorld :
      (res : Option CidPk) → Keeps (SameWorld false w₀) (authorized_devices devices master res)
  unfolding authorized_devices
  authorized-SameWorld none = search keeps_rules
  authorized-SameWorld (some res) =
      Keeps-flag res.enable_authorize (pure []) (enabled_devices devices master res)
        (search keeps_rules) (enabled-SameWorld res)

  ask-SameWorld : Keeps (SameWorld false w₀) (ask_can_be_created env master)
  unfolding ask_can_be_created
  ask-SameWorld = search (keeps_rules, check_can_be_created-SameWorld)

  can_authorize-SameWorld :
      (res : Option CidPk) → Keeps (SameWorld false w₀) (can_authorize_of env master res)
  unfolding can_authorize_of
  can_authorize-SameWorld none = ask-SameWorld
  can_authorize-SameWorld (some res) =
      Keeps-flag res.enable_authorize (ask_can_be_created env master) (pure 1) ask-SameWorld
        (search keeps_rules)

module _ (env : Env) (devices : Devices) (ckb_address : String) where
  body-SameWorld :
      (w₀ : World) → Keeps (SameWorld false w₀) (authorize_info_body env devices ckb_address)
  unfolding authorize_info_body
  body-SameWorld w₀ =
      search
        (
          keeps_rules, on_db-SameWorld, get_cid_pk-SameTables, get_cid_info-SameTables,
          authorized-SameWorld, can_authorize-SameWorld,
        )
        depth 12

  pub do_authorize_info-SameWorld :
      (w : World) → SameWorld false w (do_authorize_info env devices ckb_address w).1
  unfolding do_authorize_info handled
  do_authorize_info-SameWorld w = (body-SameWorld w).at w (SameWorld-refl false w)
