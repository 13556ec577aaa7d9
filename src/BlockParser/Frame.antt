-- ===== src/BlockParser/Frame.antt =====
-- What parsing the transactions of a block leaves alone: the parser's place in the chain, its
-- settings, and the table of stored blocks.
use das_multi_device.Prelude.{
  String, ◌≡◌, refl, ◌∙◌, Bool, true, false, none, some, List, [], ◌∷◌, arith, str_eq,
  if◌then◌else◌,
}
use das_multi_device.Outcome.{Error, Result, ok, err, ◌>>=◌}
use das_multi_device.Outcome.Keeps.{after-bind}
use das_multi_device.Dao.{Db}
use das_multi_device.Dao.Pendings.{update_pending_status_to_confirm, update_avatar_notes_to_confirm}
use das_multi_device.BlockParser.{
  Tx, Block, Env, Parser, HandleReq, action_update_keylist, confirm_key_list, run_handle, counted,
  dispatch, handle_tx, handle_txs, parsing_block_data,
}

pub record SamePlace (p q : Parser) : Type 0 where
  pub block_infos : q.db.block_infos ≡ p.db.block_infos
  pub current : q.current_block_number ≡ p.current_block_number
  pub concurrency : q.concurrency_num ≡ p.concurrency_num
  pub confirmations : q.confirm_num ≡ p.confirm_num

SamePlace-trans : {p q r : Parser} → SamePlace p q → SamePlace q r → SamePlace p r
SamePlace-trans a b = record {
  block_infos = b.block_infos ∙ a.block_infos;
  current = b.current ∙ a.current;
  concurrency = b.concurrency ∙ a.concurrency;
  confirmations = b.confirmations ∙ a.confirmations;
}

confirm_key_list-infos :
    (outpoint : String) (req : HandleReq) (db : Db)
    → (confirm_key_list outpoint req db).1.block_infos ≡ db.block_infos
unfolding confirm_key_list ◌>>=◌ update_pending_status_to_confirm update_avatar_notes_to_confirm
confirm_key_list-infos outpoint req db = ground arith

action_update_keylist-infos :
    (env : Env) (req : HandleReq) (db : Db)
    → (action_update_keylist env req db).1.block_infos ≡ db.block_infos
unfolding action_update_keylist
action_update_keylist-infos env req db =
    ground (arith, confirm_key_list-infos (env.out_point req.tx_hash 0) req db)

handled-SamePlace :
    (env : Env) (known : Bool) (req : HandleReq) (p : Parser)
    → SamePlace p (run_handle (if known then some (action_update_keylist env) else none) req p).1
unfolding run_handle counted
handled-SamePlace env true req p = ground (arith, action_update_keylist-infos env req p.db)
handled-SamePlace env false req p = ground arith

dispatch-SamePlace :
    (env : Env) (block : Block) (tx : Tx) (r : Result Error String) (p : Parser)
    → SamePlace p (dispatch env block tx r p).1
unfolding dispatch
dispatch-SamePlace env block tx (ok action) p =
    handled-SamePlace env (str_eq action env.update_key_list) _ p
dispatch-SamePlace env block tx (err e) p = ground arith

handle_tx-SamePlace :
    (env : Env) (block : Block) (tx : Tx) (p : Parser) → SamePlace p (handle_tx env block tx p).1
unfolding handle_tx
handle_tx-SamePlace env block tx p = dispatch-SamePlace env block tx (env.action_of tx) p

handle_txs-SamePlace :
    (env : Env) (block : Block) (txs : List Tx) (p : Parser)
    → SamePlace p (handle_txs env block txs p).1
unfolding handle_txs
handle_txs-SamePlace env block [] p = record {
  block_infos = refl;
  current = refl;
  concurrency = refl;
  confirmations = refl;
}
handle_txs-SamePlace env block (tx ∷ txs) p =
    after-bind (SamePlace p) (handle_tx env block tx) (λ _. handle_txs env block txs) p
      (handle_tx-SamePlace env block tx p)
      (λ _ q same. SamePlace-trans same (handle_txs-SamePlace env block txs q))

pub parsing-SamePlace :
    (env : Env) (block : Block) (p : Parser) → SamePlace p (parsing_block_data env block p).1
unfolding parsing_block_data
parsing-SamePlace env block p = handle_txs-SamePlace env block block.transactions p
