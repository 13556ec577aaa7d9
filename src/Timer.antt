-- ===== src/Timer.antt =====
-- timer/rejected.go: the pending transactions that have waited too long are looked up on the chain.
-- Those that were committed are confirmed, and if none of them is known there, all are rejected.
pub mod Settles
pub mod Rejects
pub mod Rows
pub mod Examples
use Prim.Native.String.{◌++◌ as string_append}
use das_multi_device.Prelude.{
  ℕ, ◌+◌, ◌*◌, ◌-◌, ◌/◌, String, Bool, true, false, ◌&&◌, Option, none, some, List, [], ◌∷◌, ltb,
  str_eq, ◌==◌, length, if◌then◌else◌,
}
use das_multi_device.Outcome.{
  Error, plain, wrap, Result, ok, err, Exec, pure, on_err, ◌>>=◌, ◌>>◌, guard,
}
use das_multi_device.Dao.{PendingInfo, Db}
use das_multi_device.Dao.Pendings.{
  search_maybe_rejected_pending, update_pending_to_confirm, update_pending_to_rejected,
}

-- types.TransactionStatus
pub data TxStatus : Type 0 where
  committed proposed in_pool unknown : TxStatus

-- What GetTransaction says of a transaction: its status, and for a committed one its block's
-- number and timestamp, if GetBlock returns it.
pub record TxView : Type 0 where
  pub status : TxStatus
  pub block : Option (ℕ × ℕ)

-- internal.IsLatestBlockNumber: the answer of the parser's service, or false when the request fails.
said_latest : Option Bool → Bool
said_latest none = false
said_latest (some latest) = latest

unfoldable pub is_latest_block_number : (String → Option Bool) → String → Bool
unfolding said_latest
is_latest_block_number post url =
    if str_eq url "" then true else said_latest (post (string_append url "/latest/block/number"))

pub record Env : Type 0 where
  -- config.Cfg.Server.ParserUrl, and the field isLatestBlockNumber that a POST to a URL answers
  pub parser_url : String
  pub post : String → Option Bool
  -- time.Now() in nanoseconds
  pub now : ℕ
  -- Client().GetTransaction of the transaction of an outpoint
  pub get_transaction : String → Result Error TxView

-- time.Now().Add(-time.Minute*6).UnixNano() / 1e6
abbrev pub deadline : ℕ → ℕ
deadline now = (now - 6 * 60 * 1_000_000_000) / 1_000_000

abbrev pub is_gone : TxStatus → Bool
is_gone unknown = true
is_gone _ = false

-- The error of this update is dropped.
confirm_found : ℕ → Option (ℕ × ℕ) → Db → Db
confirm_found id none db = db
confirm_found id (some (number, timestamp)) db =
    (update_pending_to_confirm id number timestamp db).1

confirm_committed : ℕ → TxView → Db → Db
unfolding confirm_found
confirm_committed id view db = elim view.status [
  | committed ↦ confirm_found id view.block db
  | _ ↦ db
]

-- The loop over the rows, with the number of rejected ones so far. An error of the node ends it.
unfoldable pub check_rows : Env → ℕ → List PendingInfo → Exec Db Error ℕ
unfolding confirm_committed
check_rows env rejected_num [] db = (ok rejected_num, db)
check_rows env rejected_num (row ∷ rows) db = elim (env.get_transaction row.outpoint) [
  | err e ↦ (err e, db)
  | ok view ↦
      check_rows env (if is_gone view.status then rejected_num + 1 else rejected_num) rows
        (confirm_committed row.id view db)
]

reject_all : ℕ → ℕ → ℕ → Exec Db Error Unit
reject_all timestamp rejected_num total =
    if ltb 0 rejected_num && rejected_num == total
    then on_err (wrap "UpdatePendingToRejected") (update_pending_to_rejected timestamp)
    else pure tt

check_list : Env → List PendingInfo → Exec Db Error Unit
unfolding ◌>>=◌ check_rows reject_all
check_list env [] db = (ok tt, db)
check_list env (row ∷ rows) db =
    (check_rows env 0 (row ∷ rows) >>= λ n. reject_all (deadline env.now) n (length (row ∷ rows)))
      db

unfoldable pub check_rejected : Env → Exec Db Error Unit
unfolding ◌>>=◌ check_list
check_rejected env = do
  guard (is_latest_block_number env.post env.parser_url) (plain "sync block number")
  rows ← search_maybe_rejected_pending (deadline env.now)
  check_list env rows
