-- ===== src/Config.antt =====
-- config/config.go: what the service is configured by, and the file watcher that reads it again.
--
-- `unmarshal` is toolib.UnmarshalYamlFile of a path into the configuration that stands: it leaves one
-- behind also where it fails, and a field that the file does not hold keeps its value.
use das_multi_device.Prelude.{ℕ, String, Bool, Option, none, some, List, str_eq, if◌then◌else◌}
use das_multi_device.Outcome.{Error, wrap, Result, ok, err, Exec}

pub record DbMysql : Type 0 where
  pub addr : String
  pub user : String
  pub password : String
  pub db_name : String
  pub max_open_conn : ℕ
  pub max_idle_conn : ℕ

-- Cfg.Server, less the fields that nothing reads.
pub record ServerCfg : Type 0 where
  pub name : String
  pub is_update : Bool
  pub net : ℕ
  pub http_server_addr : String
  pub http_server_internal_addr : String
  pub parser_url : String
  pub pay_server_address : String
  pub pay_private : String
  pub split_ckb : ℕ
  pub remote_sign_api_url : String
  pub not_exit : Bool
  pub prometheus_push_gateway : String

-- Cfg.Chain
pub record ChainCfg : Type 0 where
  pub ckb_url : String
  pub index_url : String
  pub current_block_number : ℕ
  pub confirm_num : ℕ
  pub concurrency_num : ℕ

-- Cfg.Cache.Redis
pub record RedisCfg : Type 0 where
  pub addr : String
  pub password : String
  pub db_num : ℕ

-- CfgServer, less the groups that nothing reads.
pub record CfgServer : Type 0 where
  pub server : ServerCfg
  pub origins : List String
  pub sentry_dsn : String
  pub chain : ChainCfg
  pub mysql : DbMysql
  pub parser_mysql : DbMysql
  pub redis : RedisCfg

abbrev pub Unmarshal : Type 0
Unmarshal = String → CfgServer → Option Error × CfgServer

unfoldable pub config_path : String → String
config_path path = if str_eq path "" then "../config/config.yaml" else path

read_result : Option Error → Result Error Unit
read_result none = ok tt
read_result (some e) = err (wrap "UnmarshalYamlFile" e)

-- InitCfg
unfoldable pub init_cfg : Unmarshal → String → Exec CfgServer Error Unit
unfolding config_path read_result
init_cfg unmarshal path cfg =
    (read_result (unmarshal (config_path path) cfg).0, (unmarshal (config_path path) cfg).1)

-- The callback of AddCfgFileWatcher: an error is only logged.
unfoldable pub reload_cfg : Unmarshal → String → CfgServer → CfgServer
unfolding config_path
reload_cfg unmarshal path cfg = (unmarshal (config_path path) cfg).1
