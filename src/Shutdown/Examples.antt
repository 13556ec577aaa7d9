-- ===== src/Shutdown/Examples.antt =====
-- The loops at concrete turns.
use das_multi_device.Prelude.{◌≤◌, true, false, none, [], ◌∷◌, refl, arith}
use das_multi_device.Outcome.{ok}
use das_multi_device.BlockParser
use das_multi_device.BlockParser.{Tx, Block, Parser}
use das_multi_device.Timer
use das_multi_device.Timer.{unknown}
use das_multi_device.Examples.{db}
use das_multi_device.Shutdown.{
  Service, parser_turn, timer_tick, timer_done, cancel, turns, turn, start_parser, start_timer,
  Over, turns-start_parser, turns-start_timer,
}

abbrev block : Block
block = record {
  number = 7;
  timestamp = 70;
  hash = "b7";
  parent_hash = "b6";
  transactions = record { hash = "0xdd"; outputs = none ∷ [] } ∷ [];
}

abbrev node : BlockParser.Env
node = record {
  get_tip = ok 9;
  get_block = λ _. ok block;
  action_of = λ _. ok "update_device_key_list";
  update_key_list = "update_device_key_list";
  key_list_contract = ok (λ _. true);
  out_point = λ h _. h;
}

abbrev ticking : Timer.Env
ticking = record {
  parser_url = "";
  post = λ _. none;
  now = 600_000_000_000;
  get_transaction = λ _. ok (record { status = unknown; block = none });
}

abbrev service : Service
service = record {
  parser = record {
    current_block_number = 7;
    concurrency_num = 1;
    confirm_num = 1;
    err_count_handle = 0;
    notified = [];
    db = db;
  };
  cancelled = false;
  waiting = 3;
  parser_loop = false;
  timer_loop = false;
}

turns-start_parser_example : Over (turn (parser_turn node) (start_parser service)).parser 3 (
    turns
      (parser_turn node ∷ cancel ∷ timer_done ∷ parser_turn node ∷ parser_turn node ∷ [])
      (start_parser service))
unfolding turns
turns-start_parser_example =
    turns-start_parser service refl (parser_turn node ∷ []) (timer_done ∷ []) node
      (parser_turn node ∷ [])

turns-start_timer_example :
    4
    ≤ (turns
        (timer_tick ticking ∷ cancel ∷ timer_done ∷ timer_done ∷ [])
        (start_timer service)).waiting
turns-start_timer_example =
    turns-start_timer service (omega arith)
      (timer_tick ticking ∷ cancel ∷ timer_done ∷ timer_done ∷ [])
