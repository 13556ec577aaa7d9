-- ===== src/History/Examples.antt =====
-- The history of the database at concrete steps: a waiting row, a round of the parser that meets its
-- transaction, and a run of checkRejected.
use Prim.Native.String.{◌++◌ as string_append}
use das_multi_device.Prelude.{true, none, some, [], ◌∷◌, ◌≡◌, refl}
use das_multi_device.Outcome.{ok}
use das_multi_device.Dao.{PendingInfo, Db, pending}
use das_multi_device.Dao.Pendings.{
  get_tx_status_by_outpoint, search_maybe_rejected_pending, update_pending_status_to_confirm,
  update_avatar_notes_to_confirm,
}
use das_multi_device.Dao.BlockInfos.{
  find_block_info_by_block_number, block_at, create_block_info, delete_block_info, upsert,
  without_below,
}
use das_multi_device.Dao.Pendings.Follows.{Later}
use das_multi_device.Dao.Pendings.Evolves.{Evolves}
use das_multi_device.BlockParser
use das_multi_device.BlockParser.{Block, Parser, run_round}
use das_multi_device.Timer
use das_multi_device.Timer.{unknown, check_rejected, is_latest_block_number}
use das_multi_device.Examples.{db}
use das_multi_device.History.{
  round, tick, Steps, here, next, Steps-Evolves, get_tx_status_by_outpoint-Steps,
}

abbrev waiting : PendingInfo
waiting = record {
  id = 1;
  block_number = 0;
  action = "update_device_key_list";
  chain_type = 8;
  address = "ckt1";
  capacity = 0;
  outpoint = "0xdd-0";
  block_timestamp = 900;
  status = pending;
}

abbrev block : Block
block = record {
  number = 7;
  timestamp = 70;
  hash = "b7";
  parent_hash = "b6";
  transactions = record { hash = "0xdd"; outputs = some "keylist" ∷ [] } ∷ [];
}

abbrev node : BlockParser.Env
node = record {
  get_tip = ok 9;
  get_block = λ _. ok block;
  action_of = λ _. ok "update_device_key_list";
  update_key_list = "update_device_key_list";
  key_list_contract = ok (λ _. true);
  out_point = λ h _. string_append h "-0";
}

abbrev ticking : Timer.Env
ticking = record {
  parser_url = "";
  post = λ _. none;
  now = 600_000_000_000;
  get_transaction = λ _. ok (record { status = unknown; block = none });
}

abbrev parser : Parser
parser = record {
  current_block_number = 7;
  concurrency_num = 1;
  confirm_num = 1;
  err_count_handle = 0;
  notified = [];
  db = record db { pendings = waiting ∷ [] };
}

abbrev parsed : Db
parsed = (run_round node parser).db

abbrev checked : Db
checked = (check_rejected ticking parsed).1

abbrev history : Steps parser.db checked
history =
    next parser.db parsed checked (round node parser)
      (next parsed checked checked (tick ticking parsed) (here checked))

Steps-Evolves_example : Evolves (waiting ∷ []) checked.pendings
Steps-Evolves_example = Steps-Evolves parser.db checked history

checked-quiet : checked.faults ≡ []
unfolding check_rejected is_latest_block_number search_maybe_rejected_pending run_round
    BlockParser.parser_sub_mode BlockParser.check_fork find_block_info_by_block_number block_at
    BlockParser.advance BlockParser.parsing_block_data BlockParser.handle_txs BlockParser.handle_tx
    BlockParser.action_update_keylist update_pending_status_to_confirm
    update_avatar_notes_to_confirm BlockParser.store_block create_block_info delete_block_info
    BlockParser.prune upsert without_below
checked-quiet = refl

get_tx_status_by_outpoint-Steps_example :
    (r : PendingInfo) × (get_tx_status_by_outpoint "0xdd" checked ≡ (ok r, checked))
    × Later waiting r
unfolding get_tx_status_by_outpoint
get_tx_status_by_outpoint-Steps_example =
    get_tx_status_by_outpoint-Steps "0xdd" parser.db checked parser.db waiting history refl
      checked-quiet
