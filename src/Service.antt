-- ===== src/Service.antt =====
-- What the handlers of http_server/handle/*.go share: `World` is what they change, the database, the
-- redis cache and what was sent to the chain; `Env` is what the node and das-lib answer while one
-- request is served.
pub mod Tables
use das_multi_device.Prelude.{ℕ, String, Option, some, List}
use das_multi_device.Outcome.{Error, wrap, panic, Result, Exec}
use das_multi_device.Api.{ApiCode, Handled, fail, untouched}
use das_multi_device.Cache.{Fmt, Redis}
use das_multi_device.Dao.{Db}
use das_multi_device.KeyList.{OutPoint, CellOutput, TxParams, TxEnv, GenResult}

-- core.DasAddressHex
pub record AddressHex : Type 0 where
  pub address_hex : String
  pub address_payload : List ℕ
  pub sub_algorithm_id : ℕ

-- txbuilder.SignData
pub record SignData : Type 0 where
  pub sign_type : ℕ
  pub sign_msg : String

-- The transaction of a txbuilder after BuildTransaction.
pub record BuiltTx : Type 0 where
  pub outputs : List CellOutput
  pub body : String

-- SignInfo, and SignInfoCache less the fields that stay empty.
pub record SignInfo : Type 0 where
  pub sign_key : String
  pub sign_address : String
  pub sign_list : List SignData

pub record SignInfoCache : Type 0 where
  pub chain_type : ℕ
  pub address : String
  pub action : String
  pub capacity : ℕ
  pub key_list_cfg_cell_opt : String
  pub builder_tx : BuiltTx

pub record Env : Type 0 where
  pub tx_env : TxEnv
  pub open tx_env use *
  pub fmt : Fmt
  -- time.Now() in seconds
  pub now : ℕ
  -- ChainTypeWebauthn, DasActionUpdateKeyList, OneCkb
  pub chain_type_webauthn : ℕ
  pub action_update_key_list : String
  pub one_ckb : ℕ
  -- config.Cfg.Server.SplitCkb
  pub split_ckb : ℕ
  -- Daf().NormalToHex at ChainTypeWebauthn
  pub normal_to_hex : String → Result Error AddressHex
  -- HexToScript and GetBalanceCells of a payload: the amount that its lock holds
  pub script_of : String → Result Error String
  pub balance_of : String → Result Error ℕ
  -- GetDasContractInfo(DasKeyListCellType)
  pub key_list_contract : Result Error String
  -- Hex2Bytes, GoBytes2MoleculeByte10 of the two parts of a payload, the molecule script parts
  pub hex_to_bytes : String → List ℕ
  pub byte10 : List ℕ → Result Error String
  pub refund_lock : Result Error String
  -- GenWitness for DasActionCreateKeyList, OccupiedCapacity of the output with that data
  pub gen_create_witness : String → String → String → GenResult
  pub occupied : String → ℕ
  -- HexToArgs and the scripts of the output
  pub key_list_scripts : String → Result Error String
  -- GetBalanceCells of the server's script for a need: the cells and their total
  pub server_cells : ℕ → Result Error (List OutPoint × ℕ)
  -- SplitOutputCell2
  pub split_output_cell : ℕ → ℕ → Result Error (List CellOutput)
  pub create_action_witness : Result Error String
  -- the txbuilder
  pub build_transaction : Option (String × CellOutput) → TxParams → Result Error BuiltTx
  pub size_in_block : BuiltTx → ℕ
  pub digest_list : BuiltTx → Result Error (List SignData)
  pub send_transaction : BuiltTx → Result Error String
  -- common.OutPoint2String, SignInfoCache.SignKey, toolib.JsonString
  pub out_point_string : String → ℕ → String
  pub sign_key : SignInfoCache → String
  pub json : SignInfoCache → String

pub record World : Type 0 where
  pub db : Db
  pub redis : Redis
  pub sent : List BuiltTx

unfoldable pub on_db : {A : Type 0} → Exec Db Error A → Exec World Error A
on_db m w = let (r, db') = m w.db in (r, record w { db = db' })

unfoldable pub on_redis : {A : Type 0} → Exec Redis Error A → Exec World Error A
on_redis m w = let (r, redis') = m w.redis in (r, record w { redis = redis' })

-- Code that returns an error from a call wraps it; a panic goes through as it is.
abbrev pub wrap_err : String → Error → Error
wrap_err label (panic s) = panic s
wrap_err label e = wrap label e

abbrev pub fail_with : {D : Type 0} → ApiCode → String → Error → Handled D
fail_with code msg (panic s) = untouched (some (panic s))
fail_with code msg e = fail code msg e
