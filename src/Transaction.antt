-- ===== src/Transaction.antt =====
-- http_server/handle/transaction.go: a signed transaction is sent to the chain and becomes pending, and
-- the status of a pending transaction is looked up.
--
-- `SendEnv` is what the node and das-lib answer while one request is served.
pub mod Effects
pub mod Sending
pub mod Cached
pub mod Rows
use das_multi_device.Prelude.{
  ℕ, ◌/◌, String, Bool, true, false, ◌&&◌, ◌||◌, Option, none, some, List, [], ◌∷◌, map, ◌==◌,
  str_eq, if◌then◌else◌,
}
use das_multi_device.Outcome.{
  Error, plain, wrap, Result, ok, err, change_err, Exec, pure, raise, lift, on_err, ◌>>=◌,
}
use das_multi_device.Api.{
  error500, params_invalid, db_error, cache_error, transaction_not_exist, tx_expired,
  rejected_out_point, operation_frequent, permission_denied, Handled, fail, refuse, handled,
}
use das_multi_device.Cache.{Fmt, get_sign_tx_cache, set_api_limit}
use das_multi_device.Dao.{Db, PendingInfo, Status, pending}
use das_multi_device.Dao.Pendings.{create_pending, get_tx_status, get_tx_status_by_outpoint}
use das_multi_device.Service.{
  AddressHex, BuiltTx, SignData, SignInfo, SignInfoCache, World, on_db, on_redis,
}
use das_multi_device.TxAction.{DasActions, TxAction, format_tx_action, format_action_type}

pub record SendEnv : Type 0 where
  pub fmt : Fmt
  -- time.Now() in seconds, and in nanoseconds
  pub now : ℕ
  pub now_nano : ℕ
  -- DasAlgorithmIdWebauthn
  pub algorithm_webauthn : ℕ
  -- json.Unmarshal of a cached transaction
  pub parse_cache : String → Result Error SignInfoCache
  -- Daf().NormalToHex at ChainTypeWebauthn
  pub normal_to_hex : String → Result Error AddressHex
  -- GetIdxOfKeylistByOutPoint; -1 is none
  pub idx_of_key_list : String → AddressHex → Result Error (Option ℕ)
  -- AddPkIndexForSignMsg
  pub add_pk_index : String → ℕ → String
  -- the txbuilder
  pub add_signature : BuiltTx → List SignData → Result Error BuiltTx
  pub send_transaction : BuiltTx → Result Error String
  -- err.Error(), strings.Contains
  pub error_text : Error → String
  pub contains : String → String → Bool
  -- common.OutPoint2String
  pub out_point_string : String → ℕ → String

-- err == redis.Nil
abbrev is_redis_nil : Error → Bool
is_redis_nil (plain s) = str_eq s "redis: nil"
is_redis_nil _ = false

-- The first early return: no cached transaction.
unfoldable pub cache_failure : Error → Handled String
cache_failure e =
    if is_redis_nil e
    then fail tx_expired "tx expired err" (wrap "GetSignTxCache" e)
    else fail cache_error "cache err" (wrap "GetSignTxCache" e)

unfoldable pub has_webauthn : SendEnv → List SignData → Bool
has_webauthn env [] = false
has_webauthn env (d ∷ ds) = d.sign_type == env.algorithm_webauthn || has_webauthn env ds

-- Each WebAuthn signature is told the index of its key in the list.
unfoldable pub index_sign_data : SendEnv → ℕ → SignData → SignData
index_sign_data env idx d =
    if d.sign_type == env.algorithm_webauthn
    then record d { sign_msg = env.add_pk_index d.sign_msg idx }
    else d

-- idx == -1
require_index : Option ℕ → Exec World (Handled String) ℕ
require_index none = raise (fail permission_denied "permission denied" (plain "permission denied"))
require_index (some idx) = pure idx

-- if hasWebAuthn { ... }: the signer has to be a device of the key list.
unfoldable pub check_signer :
    Bool → SendEnv → SignInfo → SignInfoCache → Exec World (Handled String) (List SignData)
unfolding ◌>>=◌ require_index
check_signer false env req sic = pure req.sign_list
check_signer true env req sic = do
  address ← lift (
      change_err (fail params_invalid "sign address NormalToHex err")
        (env.normal_to_hex req.sign_address))
  found ← lift (
      change_err (fail error500 "GetIdxOfKeylistByOp err")
        (env.idx_of_key_list sic.key_list_cfg_cell_opt address))
  idx ← require_index found
  pure (map (index_sign_data env idx) req.sign_list)

unfoldable pub indexed_sign_list :
    SendEnv → SignInfo → SignInfoCache → Exec World (Handled String) (List SignData)
unfolding check_signer has_webauthn
indexed_sign_list env req sic = check_signer (has_webauthn env req.sign_list) env req sic

-- The texts of the node's errors that say that an input is spent already.
unfoldable pub is_rejected_out_point : (String → String → Bool) → String → Bool
is_rejected_out_point contains text =
    contains text "PoolRejectedDuplicatedTransaction"
    || (contains text "Dead(OutPoint("
        || (contains text "Unknown(OutPoint("
            || (contains text "getInputCell" && contains text "not live")))

-- The second early return: the node refused the transaction.
unfoldable pub send_failure : SendEnv → Error → Handled String
unfolding is_rejected_out_point
send_failure env e =
    if is_rejected_out_point env.contains (env.error_text e)
    then fail rejected_out_point "SendTransaction err" (wrap "SendTransaction" e)
    else if env.contains (env.error_text e) "-102 in the page"
    then fail operation_frequent "account frequency limit" (wrap "SendTransaction" e)
    else fail error500 "send tx err" (wrap "SendTransaction" e)

-- What the node accepted is on its way to the chain.
submit : BuiltTx → Result Error String → Exec World Error String
submit tx (ok hash) w = (ok hash, record w { sent = tx ∷ w.sent })
submit tx (err e) w = (err e, w)

-- The row of a sent transaction; its id is the table's.
unfoldable pub pending_row : SendEnv → SignInfoCache → String → PendingInfo
pending_row env sic hash = record {
  id = 0;
  block_number = 0;
  action = sic.action;
  chain_type = sic.chain_type;
  address = sic.address;
  capacity = sic.capacity;
  outpoint = env.out_point_string hash 0;
  block_timestamp = env.now_nano / 1_000_000;
  status = pending;
}

-- After the sending: the limit and the row. Both errors are dropped.
unfoldable pub record_pending : SendEnv → SignInfoCache → String → World → World
unfolding on_db on_redis pending_row
record_pending env sic hash w =
    if str_eq sic.address ""
    then w
    else (on_db (create_pending (pending_row env sic hash))
        (on_redis (set_api_limit env.fmt env.now sic.chain_type sic.address sic.action) w).1).1

also : {A : Type 0} → A → (World → World) → Exec World (Handled String) A
also a f w = (ok a, f w)

-- The parts of doTransactionSend, the last first: sending, signing, the signer, the cached transaction.
unfoldable pub send_signed : SendEnv → SignInfoCache → BuiltTx → Exec World (Handled String) String
unfolding ◌>>=◌ submit also
send_signed env sic tx = do
  hash ← on_err (send_failure env) (submit tx (env.send_transaction tx))
  also hash (record_pending env sic hash)

unfoldable pub add_signature :
    SendEnv → SignInfoCache → List SignData → Exec World (Handled String) BuiltTx
add_signature env sic sign_list = lift (
    change_err (λ e. fail error500 "add signature fail" (wrap "AddSignatureForTx" e))
      (env.add_signature sic.builder_tx sign_list))

unfoldable pub sign_and_send :
    SendEnv → SignInfoCache → List SignData → Exec World (Handled String) String
sign_and_send env sic sign_list = add_signature env sic sign_list >>= send_signed env sic

unfoldable pub check_and_send :
    SendEnv → SignInfo → SignInfoCache → Exec World (Handled String) String
check_and_send env req sic = indexed_sign_list env req sic >>= sign_and_send env sic

unfoldable pub parse_cached : SendEnv → String → Exec World (Handled String) SignInfoCache
parse_cached env tx_str = lift (
    change_err (λ e. fail error500 "json.Unmarshal err" (wrap "json.Unmarshal" e))
      (env.parse_cache tx_str))

unfoldable pub parse_and_send : SendEnv → SignInfo → String → Exec World (Handled String) String
parse_and_send env req tx_str = parse_cached env tx_str >>= check_and_send env req

unfoldable pub read_cached : SendEnv → SignInfo → Exec World (Handled String) String
unfolding on_redis cache_failure
read_cached env req = on_err cache_failure (on_redis (get_sign_tx_cache env.now req.sign_key))

unfoldable pub send_body : SendEnv → SignInfo → Exec World (Handled String) String
send_body env req = read_cached env req >>= parse_and_send env req

-- doTransactionSend
unfoldable pub do_transaction_send : SendEnv → SignInfo → World → Handled String × World
unfolding send_body
do_transaction_send env req = handled (send_body env req)

pub record ReqTransactionStatus : Type 0 where
  pub chain_type : ℕ
  pub address : String
  pub actions : List TxAction
  pub tx_hash : String

pub record RespTransactionStatus : Type 0 where
  pub block_number : ℕ
  pub hash : String
  pub action : TxAction
  pub status : Status

-- err.Error() != "record not found" and a zero row: a missing row is an error of First, not the id 0.
abbrev is_not_found : Error → Bool
is_not_found (plain s) = str_eq s "record not found"
is_not_found _ = false

unfoldable pub status_failure : Error → Handled RespTransactionStatus
status_failure e =
    if is_not_found e
    then refuse transaction_not_exist "not exits tx"
    else fail db_error "search tx status err" (wrap "GetTransactionStatus" e)

unfoldable pub find_status : DasActions → ReqTransactionStatus → Exec Db Error PendingInfo
find_status a req =
    if str_eq req.tx_hash ""
    then get_tx_status req.chain_type req.address (map (format_action_type a) req.actions)
    else get_tx_status_by_outpoint req.tx_hash

-- The hash of an outpoint is common.String2OutPoint.
unfoldable pub status_body :
    DasActions
    → (String → String)
    → ReqTransactionStatus
    → Exec Db (Handled RespTransactionStatus) RespTransactionStatus
unfolding ◌>>=◌ find_status status_failure
status_body a hash_of req = do
  tx ← on_err status_failure (find_status a req)
  pure (record {
    block_number = tx.block_number;
    hash = hash_of tx.outpoint;
    action = format_tx_action a tx.action;
    status = tx.status;
  })

-- doTransactionStatus
unfoldable pub do_transaction_status :
    DasActions → (String → String) → ReqTransactionStatus → Db → Handled RespTransactionStatus × Db
unfolding status_body
do_transaction_status a hash_of req = handled (status_body a hash_of req)
