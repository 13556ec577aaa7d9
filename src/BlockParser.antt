-- ===== src/BlockParser.antt =====
-- block_parser/*.go: the parser walks the chain block by block. It stores the hashes of each block,
-- steps back when a block does not continue the stored one below it, and confirms the pending
-- key-list transactions that it meets.
--
-- `Env` is what the node and das-lib answer during one round of the loop, whatever that is.
pub mod Frame
pub mod Moves
pub mod Linked
pub mod Healthy
pub mod Recovery
pub mod Tip
pub mod Pruning
pub mod Concurrency
pub mod Restart
pub mod CatchUp
pub mod ShortChain
pub mod Rows
pub mod Confirms
pub mod Versions
pub mod Examples
use das_multi_device.Prelude.{
  ℕ, zero, suc, ◌+◌, String, Bool, true, false, not, ◌&&◌, Option, none, some, List, [], ◌∷◌, ltb,
  ◌==◌, str_eq, if◌then◌else◌, add64, sub64,
}
use das_multi_device.Outcome.{
  Error, wrap, Result, ok, err, change_err, Exec, pure, lift, on_err, ◌>>=◌, ◌>>◌,
}
use das_multi_device.Dao.{BlockInfo, parser_type_das, Db}
use das_multi_device.Dao.BlockInfos.{
  find_block_info, find_block_info_by_block_number, create_block_info, delete_block_info,
}
use das_multi_device.Dao.Pendings.{update_pending_status_to_confirm, update_avatar_notes_to_confirm}

-- A transaction: its hash, and for each output the code hash of its type script, if it has one.
pub record Tx : Type 0 where
  pub hash : String
  pub outputs : List (Option String)

pub record Block : Type 0 where
  pub number : ℕ
  pub timestamp : ℕ
  pub hash : String
  pub parent_hash : String
  pub transactions : List Tx

pub record Env : Type 0 where
  -- Client().GetTipBlockNumber, Client().GetBlockByNumber
  pub get_tip : Result Error ℕ
  pub get_block : ℕ → Result Error Block
  -- witness.ActionDataBuilderFromTx
  pub action_of : Tx → Result Error String
  -- common.DasActionUpdateKeyList
  pub update_key_list : String
  -- core.GetDasContractInfo(common.DasKeyListCellType), with its IsSameTypeId
  pub key_list_contract : Result Error (String → Bool)
  -- common.OutPoint2String
  pub out_point : String → ℕ → String

-- BlockParser, with the database behind its DbDao. `notified` holds the transactions that an alert
-- was sent for.
pub record Parser : Type 0 where
  pub current_block_number : ℕ
  pub concurrency_num : ℕ
  pub confirm_num : ℕ
  pub err_count_handle : ℕ
  pub notified : List String
  pub db : Db

unfoldable pub on_db : {A : Type 0} → Exec Db Error A → Exec Parser Error A
on_db m p = let (r, db') = m p.db in (r, record p { db = db' })

unfoldable pub get_current : Exec Parser Error ℕ
get_current p = (ok p.current_block_number, p)

unfoldable pub set_current : (ℕ → ℕ) → Exec Parser Error Unit
set_current f p = (ok tt, record p { current_block_number = f p.current_block_number })

-- FuncTransactionHandleReq; the DbDao is the state.
pub record HandleReq : Type 0 where
  pub tx : Tx
  pub tx_hash : String
  pub block_number : ℕ
  pub block_timestamp : ℕ
  pub action : String

unfoldable pub has_type : (String → Bool) → List (Option String) → Bool
has_type same [] = false
has_type same (none ∷ outs) = has_type same outs
has_type same (some code_hash ∷ outs) =
    let rest = has_type same outs in if same code_hash then true else rest

unfoldable pub is_current_version_tx : Env → Tx → Result Error Bool
unfolding has_type
is_current_version_tx env tx = elim env.key_list_contract [
  | ok same ↦ ok (has_type same tx.outputs)
  | err e ↦ err (wrap "GetDasContractInfo" e)
]

confirm_key_list : String → HandleReq → Exec Db Error Unit
confirm_key_list outpoint req = do
  on_err (wrap "UpdatePendingStatusToConfirm")
      (update_pending_status_to_confirm req.action outpoint req.block_number req.block_timestamp)
  on_err (wrap "UpdateAvatrNotesToConfirm")
      (update_avatar_notes_to_confirm outpoint req.block_number req.block_timestamp)

unfoldable pub action_update_keylist : Env → HandleReq → Exec Db Error Unit
unfolding ◌>>=◌ is_current_version_tx confirm_key_list
action_update_keylist env req = do
  is_cv ← lift (change_err (wrap "isCurrentVersion") (is_current_version_tx env req.tx))
  if is_cv then confirm_key_list (env.out_point req.tx_hash 0) req else pure tt

-- registerTransactionHandle: the map has one entry.
unfoldable pub transaction_handle : Env → String → Option (HandleReq → Exec Db Error Unit)
transaction_handle env action =
    if str_eq action env.update_key_list then some (action_update_keylist env) else none

-- A failed handler is counted, and the first 99 failures in a row send an alert.
counted : String → Result Error Unit → Exec Parser Error Unit
counted tx_hash (ok u) p = (ok u, p)
counted tx_hash (err e) p = (
  err e,
  record p {
    err_count_handle = p.err_count_handle + 1;
    notified = if ltb (p.err_count_handle + 1) 100 then tx_hash ∷ p.notified else p.notified;
  },
)

run_handle : Option (HandleReq → Exec Db Error Unit) → HandleReq → Exec Parser Error Unit
run_handle none req p = (ok tt, p)
run_handle (some handle) req p =
    let (r, db') = handle req p.db in counted req.tx_hash r (record p { db = db' })

-- A transaction whose witness holds no action is skipped, and so is an action with no handler.
dispatch : Env → Block → Tx → Result Error String → Exec Parser Error Unit
unfolding run_handle counted transaction_handle
dispatch env block tx (err e) p = (ok tt, p)
dispatch env block tx (ok action) p =
    run_handle (transaction_handle env action)
      (record {
        tx = tx;
        tx_hash = tx.hash;
        block_number = block.number;
        block_timestamp = block.timestamp;
        action = action;
      })
      p

unfoldable pub handle_tx : Env → Block → Tx → Exec Parser Error Unit
unfolding dispatch
handle_tx env block tx = dispatch env block tx (env.action_of tx)

unfoldable pub handle_txs : Env → Block → List Tx → Exec Parser Error Unit
unfolding ◌>>=◌
handle_txs env block [] p = (ok tt, record p { err_count_handle = 0 })
handle_txs env block (tx ∷ txs) p = (handle_tx env block tx >> handle_txs env block txs) p

unfoldable pub parsing_block_data : Env → Block → Exec Parser Error Unit
parsing_block_data env block = handle_txs env block block.transactions

differs : String → Option BlockInfo → Bool
differs parent none = false
differs parent (some r) = not (str_eq r.block_hash parent)

unfoldable pub check_fork : String → Exec Parser Error Bool
unfolding ◌>>=◌ on_db get_current differs
check_fork parent = do
  n ← get_current
  found ← on_db (find_block_info_by_block_number parser_type_das (sub64 n 1))
  pure (differs parent found)

-- CreateBlockInfo under the parser's own number, then CurrentBlockNumber + 1.
unfoldable pub store_block : Block → Exec Parser Error Unit
unfolding ◌>>=◌ on_db get_current set_current
store_block block = do
  n ← get_current
  on_err (wrap "CreateBlockInfo")
      (on_db (create_block_info parser_type_das n block.hash block.parent_hash))
  set_current (λ k. add64 k 1)

-- DeleteBlockInfo of what lies more than 20 blocks back, in uint64 arithmetic.
unfoldable pub prune : Exec Parser Error Unit
unfolding ◌>>=◌ on_db get_current
prune = do
  n ← get_current
  on_err (wrap "DeleteBlockInfo") (on_db (delete_block_info parser_type_das (sub64 n 20)))

unfoldable pub advance : Env → Block → Exec Parser Error Unit
unfolding ◌>>=◌
advance env block = do
  on_err (wrap "parsingBlockData") (parsing_block_data env block)
  store_block block
  prune

-- atomic.AddUint64(&b.CurrentBlockNumber, ^uint64(0))
unfoldable pub step_back : Exec Parser Error Unit
unfolding set_current
step_back = set_current (λ k. sub64 k 1)

unfoldable pub parser_sub_mode : Env → Exec Parser Error Unit
unfolding ◌>>=◌ get_current step_back
parser_sub_mode env = do
  n ← get_current
  block ← lift (change_err (wrap "GetBlockByNumber") (env.get_block n))
  fork ← on_err (wrap "checkFork") (check_fork block.parent_hash)
  if fork then step_back else advance env block

-- One round of the loop in parserConcurrencyMode, which does not look for forks.
unfoldable pub concurrency_round : Env → Exec Parser Error Unit
unfolding ◌>>=◌ get_current
concurrency_round env = do
  n ← get_current
  block ← lift (change_err (wrap "GetBlockByNumber") (env.get_block n))
  on_err (wrap "parsingBlockData") (parsing_block_data env block)
  store_block block

unfoldable pub concurrency_rounds : ℕ → Env → Exec Parser Error Unit
unfolding ◌>>=◌
concurrency_rounds zero env p = (ok tt, p)
concurrency_rounds (suc k) env p = (concurrency_round env >> concurrency_rounds k env) p

unfoldable pub parser_concurrency_mode : Env → Exec Parser Error Unit
unfolding ◌>>=◌
parser_concurrency_mode env p = (concurrency_rounds p.concurrency_num env >> prune) p

-- One round of the loop in Run; errors are logged and the next round starts from what is left.
at_tip : Env → Result Error ℕ → Parser → Parser
at_tip env (err e) p = p
at_tip env (ok tip) p =
    if ltb 1 p.concurrency_num
      && ltb p.current_block_number (sub64 (sub64 tip p.confirm_num) p.concurrency_num)
    then (parser_concurrency_mode env p).1
    else if ltb p.current_block_number (sub64 tip p.confirm_num)
    then (parser_sub_mode env p).1
    else p

unfoldable pub run_round : Env → Parser → Parser
unfolding at_tip
run_round env p = at_tip env env.get_tip p

-- initCurrentBlockNumber: the highest stored block, or the tip where nothing is configured.
chosen : ℕ → ℕ → Option BlockInfo → ℕ
chosen current tip (some r) = r.block_number
chosen current tip none = if current == 0 && ltb 0 tip then tip else current

unfoldable pub init_current_block_number : ℕ → Exec Parser Error Unit
unfolding ◌>>=◌ on_db set_current chosen
init_current_block_number tip = do
  found ← on_db (find_block_info parser_type_das)
  set_current (λ k. chosen k tip found)

-- Run, up to the start of its loop.
unfoldable pub start : Env → Exec Parser Error Unit
unfolding ◌>>=◌ set_current
start env = do
  tip ← lift (change_err (wrap "GetTipBlockNumber") env.get_tip)
  on_err (wrap "initCurrentBlockNumber") (init_current_block_number tip)
  set_current (λ k. add64 k 1)
