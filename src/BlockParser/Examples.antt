-- ===== src/BlockParser/Examples.antt =====
-- The parser on a concrete chain: the theorems at inputs where their hypotheses hold, and tests.
pub mod Loop
use Prim.Native.String.{◌++◌ as string_append}
use das_multi_device.Prelude.{
  ℕ, zero, suc, ◌+◌, ◌-◌, ◌≤◌, ◌^◌, ◌≡◌, ◌≢◌, refl, ap, none, some, List, [], ◌∷◌, map, arith, ltb,
  str_eq, String, Bool, if◌then◌else◌,
}
use das_multi_device.Outcome.{plain, ok, err}
use das_multi_device.Outcome.Keeps.{IsOk}
use das_multi_device.Dao.{BlockInfo, PendingInfo, pending, parser_type_das, Db}
use das_multi_device.Dao.BlockInfos.{block_at, create_block_info}
use das_multi_device.Dao.Pendings.{
  confirmed, update_pending_status_to_confirm, update_avatar_notes_to_confirm,
}
use das_multi_device.BlockParser.{
  handle_txs, handle_tx, action_update_keylist, Tx, Block, Env, Parser, parser_sub_mode,
  concurrency_rounds, parsing_block_data, run_round, start, concurrency_round, store_block,
}
use das_multi_device.BlockParser.Moves.{row_of}
use das_multi_device.BlockParser.Linked.{IsLinked, sub_mode-IsLinked}
use das_multi_device.BlockParser.Healthy.{Healthy}
use das_multi_device.BlockParser.Tip.{run_round-confirmed}
use das_multi_device.BlockParser.Concurrency.{Progress, concurrency_rounds-Progress}
use das_multi_device.BlockParser.Confirms.{settled, parsing_confirms}

-- The hash of block n is "g" behind n letters "b".
abbrev hash_of : ℕ → String
hash_of zero = "g"
hash_of (suc n) = string_append "b" (hash_of n)

abbrev parent_of : ℕ → String
parent_of zero = ""
parent_of (suc n) = hash_of n

abbrev key_list_tx : Tx
key_list_tx = record { hash = "0xk"; outputs = none ∷ some "key_list" ∷ [] }

abbrev chain : ℕ → Block
chain n = record {
  number = n;
  timestamp = 1000 + n;
  hash = hash_of n;
  parent_hash = parent_of n;
  transactions = key_list_tx ∷ [];
}

abbrev same_type : String → Bool
same_type code_hash = str_eq code_hash "key_list"

abbrev pub env : Env
env = record {
  get_tip = ok 40;
  get_block = λ n. ok (chain n);
  action_of = λ tx. ok "update_device_key_list";
  update_key_list = "update_device_key_list";
  key_list_contract = ok same_type;
  out_point = λ hash i. string_append hash "-0";
}

-- A node that has 100 blocks.
abbrev short_env : Env
short_env = record env {
  get_block = λ n. if ltb n 100 then ok (chain n) else err (plain "block not found");
}

abbrev healthy : Healthy env chain
healthy = record { blocks = λ n. refl; same_type = same_type; contract = refl }

abbrev waiting : PendingInfo
waiting = record {
  id = 1;
  block_number = 0;
  action = "update_device_key_list";
  chain_type = 8;
  address = "ckt1";
  capacity = 0;
  outpoint = "0xk-0";
  block_timestamp = 900;
  status = pending;
}

abbrev db_with : List BlockInfo → Db
db_with rows = record {
  block_infos = rows;
  pendings = waiting ∷ [];
  next_pending_id = 2;
  avatar_notes = [];
  cid_infos = [];
  cid_pks = [];
  authorizes = [];
  accounts = [];
  faults = [];
}

abbrev parser_at : ℕ → List BlockInfo → Parser
parser_at n rows = record {
  current_block_number = n;
  concurrency_num = 1;
  confirm_num = 4;
  err_count_handle = 0;
  notified = [];
  db = db_with rows;
}

abbrev stale_row : ℕ → String → String → BlockInfo
stale_row n hash parent = record {
  parser_type = parser_type_das;
  block_number = n;
  block_hash = hash;
  parent_hash = parent;
}

-- Blocks 23 and 24 were replaced on the chain.
abbrev forked : Parser
forked =
    parser_at 25 (row_of 22 (chain 22) ∷ stale_row 23 "x" (hash_of 22) ∷ stale_row 24 "y" "x" ∷ [])

abbrev pub linked_parser : Parser
linked_parser = parser_at 3 (row_of 1 (chain 1) ∷ row_of 2 (chain 2) ∷ [])

no_last_block : (b : Block) → short_env.get_block (2 ^ 64 - 1) ≢ ok b
no_last_block b e = cc e

linked_parser-IsLinked : IsLinked linked_parser
unfolding block_at
linked_parser-IsLinked = record {
  below = omega arith;
  last = λ r e. cc e;
  linked = λ k r s lt f g. ground arith;
}

sub_mode-IsLinked_example : IsLinked (parser_sub_mode short_env linked_parser).1
sub_mode-IsLinked_example =
    sub_mode-IsLinked short_env linked_parser no_last_block linked_parser-IsLinked

chain-linked : (n : ℕ) → (chain (n + 1)).parent_hash ≡ (chain n).hash
chain-linked n = let next : n + 1 ≡ suc n = omega arith in ap parent_of next

abbrev high_parser : Parser
high_parser = parser_at 25 (row_of 2 (chain 2) ∷ row_of 23 (chain 23) ∷ row_of 24 (chain 24) ∷ [])

run_round-confirmed_example : (run_round env high_parser).current_block_number ≤ 36
run_round-confirmed_example =
    run_round-confirmed env high_parser 40 refl (omega arith) (omega arith) (omega arith)
      (omega arith)

concurrency_rounds-Progress_example :
    Progress short_env high_parser 80 (concurrency_rounds 80 short_env high_parser)
concurrency_rounds-Progress_example =
    concurrency_rounds-Progress 80 short_env high_parser (omega arith)

parsing_confirms_example :
    IsOk (parsing_block_data env (chain 25) high_parser).0
    × ((parsing_block_data env (chain 25) high_parser).1.db.pendings
        ≡ map (settled env chain healthy (chain 25) (chain 25).transactions) (waiting ∷ []))
parsing_confirms_example = parsing_confirms env chain healthy (chain 25) high_parser refl

waiting-confirmed :
    (parsing_block_data env (chain 25) high_parser).1.db.pendings ≡ confirmed 25 1025 waiting ∷ []
unfolding parsing_block_data handle_txs handle_tx action_update_keylist
    update_pending_status_to_confirm update_avatar_notes_to_confirm
waiting-confirmed = refl
