-- ===== src/Lifecycle/Backup.antt =====
-- http_server/handle/authorize.go, transaction.go and block_parser/*.go over one state: from the request of
-- a master device over the sending of what it signed to the block that holds the transaction.
use Prim.Native.String.{◌++◌ as string_append}
use das_multi_device.Prelude.{
  ℕ, ◌+◌, ◌*◌, ◌<◌, String, true, false, Option, none, List, [], ◌∷◌, ◌++◌, ◌≡◌, str_eq, find_first,
}
use das_multi_device.Outcome.{ok}
use das_multi_device.Api.{Handled, respond_ok}
use das_multi_device.Dao.{Status, pending, confirm}
use das_multi_device.Service.{BuiltTx, Env, SignInfo, World}
use das_multi_device.KeyList.{CellOutput, TxParams}
use das_multi_device.TxAction.{DasActions, format_tx_action}
use das_multi_device.Authorize.{ReqAuthorize, sign_info_cache, authorize_body}
use das_multi_device.Transaction.{
  SendEnv, send_body, pending_row, ReqTransactionStatus, RespTransactionStatus,
  do_transaction_status,
}
use das_multi_device.Transaction.Cached.{
  fee_paid, at_out_point, authorize_body-HandsOut, get-cache_for_signing,
}
use das_multi_device.BlockParser
use das_multi_device.BlockParser.{Tx, Block, Parser, has_type, parsing_block_data}
use das_multi_device.BlockParser.Healthy.{Healthy}
use das_multi_device.Lifecycle.{has_outpoint, do_transaction_status-confirmed}

-- json.Unmarshal reads what toolib.JsonString wrote of a transaction that the txbuilder built.
abbrev pub ReadsBack : Env → SendEnv → String → Type 0
ReadsBack env send_env master =
    (new_cell : Option (String × CellOutput)) (params : TxParams) (tx : BuiltTx)
    (out_point : String)
    → env.build_transaction new_cell params ≡ ok tx
    → send_env.parse_cache (env.json (sign_info_cache env master out_point (fee_paid env tx)))
      ≡ ok (sign_info_cache env master out_point (fee_paid env tx))

module _ (benv : BlockParser.Env) (chain : ℕ → Block) (healthy : Healthy benv chain) (env : Env)
    (send_env : SendEnv) (actions : DasActions) (hash_of : String → String) (req : ReqAuthorize)
    (si signed : SignInfo) (status_req : ReqTransactionStatus) (w w₁ w₂ : World) (p : Parser)
    (block : Block) (before later : List Tx) (tx : Tx) where
  -- The answer about the transaction, under a number and a status.
  abbrev pub answer : ℕ → Status → Handled RespTransactionStatus
  answer number status = respond_ok (record {
    block_number = number;
    hash = hash_of (send_env.out_point_string tx.hash 0);
    action = format_tx_action actions env.action_update_key_list;
    status = status;
  })

  -- When the body of doAuthorize has handed out data to sign, and doTransactionSend, asked with its
  -- sign key, returns a hash, then the status of that transaction is pending, in no block; after the
  -- parser has read a block that holds it, as an update of a key list in a cell of the current
  -- contract, its status is confirmed, under the number of the block. That holds if less than 100
  -- hours and no other change lie between the two requests, no statement and no command fails after
  -- the first one, json.Unmarshal reads what was written of a transaction that was built, the
  -- request names its master, no row had the outpoint of the transaction's first output, which is
  -- written in the way that both das-lib and the query write it, and the contract is known.
  pub backup-confirmed :
      authorize_body env req w ≡ (ok si, w₁)
      → w₁.redis.faults ≡ []
      → w₁.db.faults ≡ []
      → ReadsBack env send_env req.master_ckb_address
      → str_eq req.master_ckb_address "" ≡ false
      → signed.sign_key ≡ si.sign_key
      → send_env.now < env.now + 100 * 3600
      → find_first (has_outpoint tx.hash) w₁.db.pendings ≡ none
      → send_env.out_point_string tx.hash 0 ≡ string_append tx.hash "-0"
      → benv.out_point tx.hash 0 ≡ string_append tx.hash "-0"
      → send_body send_env signed w₁ ≡ (ok tx.hash, w₂)
      → p.db ≡ w₂.db
      → block.transactions ≡ before ++ tx ∷ later
      → benv.action_of tx ≡ ok env.action_update_key_list
      → env.action_update_key_list ≡ benv.update_key_list
      → has_type healthy.same_type tx.outputs ≡ true
      → status_req.tx_hash ≡ tx.hash
      → str_eq tx.hash "" ≡ false
      → ((do_transaction_status actions hash_of status_req w₂.db).0 ≡ answer 0 pending)
        × ((do_transaction_status actions hash_of status_req
              (parsing_block_data benv block p).1.db).0
            ≡ answer block.number confirm)
  unfolding pending_row
  backup-confirmed enabled cached_ok quiet reads owner key soon new format same_format sent same_db
        holds acts known typed asked named =
      let run = authorize_body-HandsOut env req si w w₁ enabled in
      let paid = fee_paid env run.tx in
      do_transaction_status-confirmed benv chain healthy send_env actions hash_of signed status_req
        (sign_info_cache env req.master_ckb_address run.out_point paid)
        (env.json (sign_info_cache env req.master_ckb_address run.out_point paid)) w₁ w₂ p block
        before later tx
        (get-cache_for_signing env send_env req.master_ckb_address run.out_point paid si signed
          run.before w₁ run.cached cached_ok key soon)
        (reads (at_out_point run.out_point run.cell) run.params run.tx run.out_point run.built)
        owner quiet new format same_format sent same_db holds acts known typed asked named
