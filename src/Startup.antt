-- ===== src/Startup.antt =====
-- cmd/main.go and http_server/http_server.go: runServer reads the configuration, connects to what it
-- needs, and starts the parts of its mode.
--
-- `Answers` is what the libraries answer meanwhile. The wait group counts the parser's loop and what the
-- tasks of das-lib add to it, a number for each task.
pub mod Parts
pub mod Restart
pub mod Examples
use das_multi_device.Prelude.{
  ℕ, ◌+◌, String, Bool, true, false, not, ◌&&◌, Option, none, some, List, [], ◌∷◌, str_eq,
  if◌then◌else◌,
}
use das_multi_device.Outcome.{
  Error, wrap, Result, ok, err, change_err, Exec, pure, lift, on_err, ◌>>=◌, ◌>>◌,
}
use das_multi_device.Dao.{Db}
use das_multi_device.Config.{DbMysql, CfgServer, Unmarshal, init_cfg}
use das_multi_device.BlockParser
use das_multi_device.BlockParser.{Parser, start}

pub record Answers : Type 0 where
  pub unmarshal : Unmarshal
  pub add_file_watcher : Result Error Unit
  pub sentry_init : String → Result Error Unit
  -- http_api.NewGormDB, AutoMigrate
  pub new_gorm_db : DbMysql → Result Error Unit
  pub auto_migrate : Result Error Unit
  pub new_redis_client : Result Error Unit
  pub dial_with_indexer : String → String → Result Error Unit
  pub init_das_config_cell : Result Error Unit
  pub init_das_so_script : Result Error Unit
  -- how much RunAsyncDasContract, RunAsyncDasConfigCell, RunAsyncDasSoScript and RunClearExpiredOutPoint
  -- add to the wait group that they are given
  pub run_async_das_contract : ℕ
  pub run_async_das_config_cell : ℕ
  pub run_async_das_so_script : ℕ
  pub run_clear_expired_out_point : ℕ
  -- address.Parse: the args of the script, in hexadecimal
  pub parse_address : String → Result Error String
  -- what the node answers to the parser
  pub parser_env : BlockParser.Env

-- sign.HandleSignCkbMessage: none, remote_sign.SignTxForCKBHandle, sign.LocalSign
pub data Signer : Type 0 where
  no_signer remote local : Signer

-- engine, which initRouter gives its routes, and internalEngine, which gets none
pub data Engine : Type 0 where
  engine internal_engine : Engine

pub record Process : Type 0 where
  pub cfg : CfgServer
  pub db : Db
  -- rc.red is not nil
  pub redis_connected : Bool
  -- the script that pays, and who signs for it
  pub server_script : Option String
  pub signer : Signer
  -- the loop of BlockParser.Run, the http servers that were started, the counter of wgServer
  pub parser : Option Parser
  pub listeners : List (String × Engine)
  pub waiting : ℕ

read_cfg : Answers → String → Exec Process Error Unit
unfolding init_cfg
read_cfg a path p =
    ((init_cfg a.unmarshal path p.cfg).0, record p { cfg = (init_cfg a.unmarshal path p.cfg).1 })

-- NewGormDB: both databases, and the tables of the first.
unfoldable pub new_gorm_db : Answers → DbMysql → DbMysql → Exec Process Error Unit
unfolding ◌>>=◌
new_gorm_db a mysql parser_mysql = do
  lift (change_err (wrap "toolib.NewGormDB") (a.new_gorm_db mysql))
  lift (change_err (wrap "toolib.NewGormDB") (a.new_gorm_db parser_mysql))
  lift a.auto_migrate

unfoldable pub is_ok : {A : Type 0} → Result Error A → Bool
is_ok (ok a) = true
is_ok (err e) = false

-- Without redis the service goes on.
connect_redis : Answers → Exec Process Error Unit
unfolding is_ok
connect_redis a p = (ok tt, record p { redis_connected = is_ok a.new_redis_client })

-- What the tasks of das-lib add to the wait group.
unfoldable pub das_tasks : Answers → ℕ
das_tasks a =
    a.run_async_das_contract + a.run_async_das_config_cell + a.run_async_das_so_script
    + a.run_clear_expired_out_point

unfoldable pub start_das_tasks : Answers → Exec Process Error Unit
start_das_tasks a p = (ok tt, record p { waiting = p.waiting + das_tasks a })

unfoldable pub init_das_core : Answers → CfgServer → Exec Process Error Unit
unfolding ◌>>=◌ start_das_tasks
init_das_core a cfg = do
  lift (
      change_err (wrap "rpc.DialWithIndexer")
        (a.dial_with_indexer cfg.chain.ckb_url cfg.chain.index_url))
  lift (change_err (wrap "InitDasConfigCell") a.init_das_config_cell)
  lift (change_err (wrap "InitDasSoScript") a.init_das_so_script)
  start_das_tasks a

-- An address that does not parse is only logged.
pay_args : Result Error String → Option String
pay_args (ok args) = some args
pay_args (err e) = none

server_script_of : Answers → String → Option String
unfolding pay_args
server_script_of a address = if str_eq address "" then none else pay_args (a.parse_address address)

args_or_empty : Option String → String
args_or_empty none = ""
args_or_empty (some args) = args

choose_signer : CfgServer → String → Signer
choose_signer cfg args =
    if not (str_eq cfg.server.remote_sign_api_url "") && not (str_eq args "")
    then remote
    else if not (str_eq cfg.server.pay_private "")
    then local
    else no_signer

-- initTxBuilder, which never fails.
unfoldable pub init_tx_builder : Answers → Exec Process Error Unit
unfolding server_script_of args_or_empty choose_signer
init_tx_builder a p = (
  ok tt,
  let script = server_script_of a p.cfg.server.pay_server_address in
      record p { server_script = script; signer = choose_signer p.cfg (args_or_empty script) },
)

unfoldable pub new_parser : Process → Parser
new_parser p = record {
  current_block_number = p.cfg.chain.current_block_number;
  concurrency_num = p.cfg.chain.concurrency_num;
  confirm_num = p.cfg.chain.confirm_num;
  err_count_handle = 0;
  notified = [];
  db = p.db;
}

unfoldable started : Result Error Unit × Parser → Process → Result Error Unit × Process
started (ok u, q) p = (ok u, record p { db = q.db; parser = some q; waiting = p.waiting + 1 })
started (err e, q) p = (err (wrap "block parser" e), record p { db = q.db })

-- initTimer, which starts the block parser and no timer.
unfoldable pub init_timer : Answers → Exec Process Error Unit
unfolding started new_parser start
init_timer a p = started (start a.parser_env (new_parser p)) p

-- HttpServer.Run: an error of ListenAndServe is only logged.
unfoldable pub listeners_of : CfgServer → List (String × Engine)
listeners_of cfg =
    (cfg.server.http_server_addr, engine)
    ∷ (cfg.server.http_server_internal_addr, internal_engine)
    ∷ []

-- initApiServer: http_server.Initialize returns no error.
unfoldable pub init_api_server : Exec Process Error Unit
unfolding listeners_of
init_api_server p = (ok tt, record p { listeners = listeners_of p.cfg })

pub data Mode : Type 0 where
  api timer both : Mode

unfoldable pub mode_of : String → Mode
mode_of mode = if str_eq mode "api" then api else if str_eq mode "timer" then timer else both

unfoldable pub start_parts : Answers → Mode → Exec Process Error Unit
unfolding ◌>>=◌ init_timer init_api_server
start_parts a api = on_err (wrap "initApiServer") init_api_server
start_parts a timer = on_err (wrap "initTimer") (init_timer a)
start_parts a both = do
  on_err (wrap "initTimer") (init_timer a)
  on_err (wrap "initApiServer") init_api_server

get_cfg : Exec Process Error CfgServer
get_cfg p = (ok p.cfg, p)

-- What runServer does before initDasCore.
unfoldable pub connect : Answers → String → Exec Process Error CfgServer
unfolding ◌>>=◌ read_cfg new_gorm_db connect_redis get_cfg
connect a path = do
  read_cfg a path
  cfg ← get_cfg
  lift (change_err (wrap "AddCfgFileWatcher") a.add_file_watcher)
  lift (change_err (wrap "SentryInit") (a.sentry_init cfg.sentry_dsn))
  on_err (wrap "NewGormDB") (new_gorm_db a cfg.mysql cfg.parser_mysql)
  connect_redis a
  pure cfg

-- What runServer does before it starts a part.
unfoldable pub prepare : Answers → String → Exec Process Error Unit
unfolding ◌>>=◌ connect init_das_core init_tx_builder
prepare a path = do
  cfg ← connect a path
  on_err (wrap "initDasCore") (init_das_core a cfg)
  init_tx_builder a

-- runServer, up to ExitMonitoring.
unfoldable pub run_server : Answers → String → String → Exec Process Error Unit
unfolding prepare start_parts mode_of
run_server a path mode = prepare a path >>= λ _. start_parts a (mode_of mode)
