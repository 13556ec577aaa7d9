-- ===== src/Startup/Examples.antt =====
-- cmd/main.go: which parts run, in concrete starts, and where the parser goes on.
use das_multi_device.Prelude.{◌+◌, true, false, none, some, [], ◌≡◌, refl, arith}
use das_multi_device.Outcome.{plain, ok, err}
use das_multi_device.Config.{DbMysql, CfgServer}
use das_multi_device.BlockParser
use das_multi_device.BlockParser.{
  Parser, handle_txs, handle_tx, action_update_keylist, concurrency_rounds, concurrency_round,
  store_block, parsing_block_data,
}
use das_multi_device.BlockParser.Examples.{env, linked_parser}
use das_multi_device.BlockParser.Examples.Loop.{linked_parser-IsAtTop}
use das_multi_device.Startup.{Answers, Process, no_signer, new_parser, init_timer, run_server}
use das_multi_device.Dao.BlockInfos.{find_block_info, create_block_info}
use das_multi_device.Dao.Pendings.{update_pending_status_to_confirm, update_avatar_notes_to_confirm}
use das_multi_device.Startup.Restart.{init_timer-concurrency_rounds}
use das_multi_device.Examples.{db}

abbrev mysql : DbMysql
mysql = record {
  addr = "127.0.0.1:3306";
  user = "das";
  password = "";
  db_name = "multi";
  max_open_conn = 100;
  max_idle_conn = 50;
}

abbrev cfg : CfgServer
cfg = record {
  server = record {
    name = "multi-device";
    is_update = false;
    net = 2;
    http_server_addr = ":8120";
    http_server_internal_addr = ":8121";
    parser_url = "";
    pay_server_address = "ckt1pay";
    pay_private = "0x01";
    split_ckb = 0;
    remote_sign_api_url = "";
    not_exit = false;
    prometheus_push_gateway = "";
  };
  origins = [];
  sentry_dsn = "";
  chain = record {
    ckb_url = "http://127.0.0.1:8114";
    index_url = "http://127.0.0.1:8116";
    current_block_number = 5;
    confirm_num = 4;
    concurrency_num = 1;
  };
  mysql = mysql;
  parser_mysql = mysql;
  redis = record { addr = ""; password = ""; db_num = 0 };
}

-- Redis does not answer, the rest does.
abbrev answers : Answers
answers = record {
  unmarshal = λ _ _. (none, cfg);
  add_file_watcher = ok tt;
  sentry_init = λ _. ok tt;
  new_gorm_db = λ _. ok tt;
  auto_migrate = ok tt;
  new_redis_client = err (plain "connection refused");
  dial_with_indexer = λ _ _. ok tt;
  init_das_config_cell = ok tt;
  init_das_so_script = ok tt;
  run_async_das_contract = 1;
  run_async_das_config_cell = 1;
  run_async_das_so_script = 1;
  run_clear_expired_out_point = 1;
  parse_address = λ _. ok "0xaa";
  parser_env = record {
    get_tip = ok 40;
    get_block = λ _. err (plain "block not found");
    action_of = λ _. err (plain "no action");
    update_key_list = "update_device_key_list";
    key_list_contract = ok (λ _. true);
    out_point = λ h _. h;
  };
}

abbrev fresh : Process
fresh = record {
  cfg = cfg;
  db = db;
  redis_connected = false;
  server_script = none;
  signer = no_signer;
  parser = none;
  listeners = [];
  waiting = 0;
}

-- That start succeeds.
run_server-test : (run_server answers "" "" fresh).0 ≡ ok tt
unfolding run_server BlockParser.init_current_block_number find_block_info
run_server-test = refl

-- The parser of a first process after two rounds, and a second process over its database.
abbrev stopped : Parser
stopped = (concurrency_rounds 2 env linked_parser).1

abbrev again : Process
again = record fresh { db = stopped.db }

-- The configuration says 5, and the parser goes on above its two new rows.
init_timer-concurrency_rounds_example : init_timer answers again ≡ (
  ok tt,
  record again {
    parser =
        some (record (new_parser again) { current_block_number = stopped.current_block_number });
    waiting = 0 + 1;
  },
)
unfolding concurrency_rounds parsing_block_data handle_txs handle_tx action_update_keylist
    update_pending_status_to_confirm update_avatar_notes_to_confirm concurrency_round store_block
    create_block_info
init_timer-concurrency_rounds_example =
    init_timer-concurrency_rounds 2 env linked_parser answers again 40 linked_parser-IsAtTop
      (omega arith) refl refl refl
