-- ===== src/Lifecycle.antt =====
-- http_server/handle/transaction.go and block_parser/*.go over one database: from the sending of a
-- transaction to the block that holds it, as doTransactionStatus tells it.
pub mod Backup
pub mod Listing
pub mod Examples
use Prim.Native.String.{◌++◌ as string_append}
use das_multi_device.Prelude.{
  ℕ, String, Bool, true, false, ◌&&◌, ◌||◌, Option, none, some, List, [], ◌∷◌, ◌++◌, map, ◌≡◌, refl,
  ◌∙◌, ap, sym, subst, arith, str_eq, eq_iff, find_first, if◌then◌else◌,
}
use das_multi_device.Outcome.{Error, Result, ok, err, on_err, ◌>>=◌}
use das_multi_device.Api.{Handled, handled, respond_ok}
use das_multi_device.Cache.{get_sign_tx_cache}
use das_multi_device.Dao.{Db, PendingInfo, pending, confirm, statement}
use das_multi_device.Dao.Pendings.{is_tx, confirmed, get_tx_status_by_outpoint}
use das_multi_device.Dao.Pendings.Effects.{with_row}
use das_multi_device.Service.{SignInfo, SignInfoCache, World}
use das_multi_device.TxAction.{DasActions, format_tx_action}
use das_multi_device.Transaction.{
  SendEnv, send_body, pending_row, ReqTransactionStatus, RespTransactionStatus, find_status,
  status_body, do_transaction_status,
}
use das_multi_device.Transaction.Rows.{send_body-with_row}
use das_multi_device.BlockParser.{Tx, Block, Parser, has_type, parsing_block_data}
use das_multi_device.BlockParser
use das_multi_device.BlockParser.Healthy.{Healthy, parsing_works}
use das_multi_device.BlockParser.Confirms.{settles, any_settles, settled, parsing_confirms}

module _ {A : Type 0} (test : A → Bool) where
  find_first-append :
      (xs : List A) (x : A)
      → find_first test xs ≡ none
      → test x ≡ true
      → find_first test (xs ++ x ∷ []) ≡ some x
  unfolding find_first
  find_first-append [] x no_other yes_test = ground arith
  find_first-append (y ∷ ys) x no_other yes_test = ground (arith, find_first-append ys x)

  find_first-weaken :
      (also : A → Bool) (xs : List A)
      → find_first test xs ≡ none
      → find_first (λ x. also x && test x) xs ≡ none
  unfolding find_first
  find_first-weaken also [] h = refl
  find_first-weaken also (x ∷ xs) h = ground (arith, find_first-weaken also xs)

  -- A change of the rows that the test does not see.
  find_first-map :
      (f : A → A)
      → ((x : A) → test (f x) ≡ test x)
      → (xs : List A) (x : A) → find_first test xs ≡ some x
      → find_first test (map f xs) ≡ some (f x)
  unfolding find_first
  find_first-map f same [] x h = cc
  find_first-map f same (y ∷ ys) x h = ground (arith, same y, find_first-map f same ys x)

abbrev pub has_outpoint : String → PendingInfo → Bool
has_outpoint hash p = str_eq p.outpoint (string_append hash "-0")

-- What doTransactionStatus says of a row that it finds by its transaction.
abbrev pub status_of : DasActions → (String → String) → PendingInfo → Handled RespTransactionStatus
status_of actions hash_of row = respond_ok (record {
  block_number = row.block_number;
  hash = hash_of row.outpoint;
  action = format_tx_action actions row.action;
  status = row.status;
})

module _ (actions : DasActions) (hash_of : String → String) (req : ReqTransactionStatus) where
  do_transaction_status-found :
      (row : PendingInfo) (db : Db)
      → str_eq req.tx_hash "" ≡ false
      → db.faults ≡ []
      → find_first (has_outpoint req.tx_hash) db.pendings ≡ some row
      → do_transaction_status actions hash_of req db ≡ (status_of actions hash_of row, db)
  unfolding do_transaction_status handled status_body find_status ◌>>=◌ on_err
      get_tx_status_by_outpoint statement
  do_transaction_status-found row db named quiet found = ground (arith, named, quiet, found)

module _ (benv : BlockParser.Env) (chain : ℕ → Block) (healthy : Healthy benv chain) where
  any_settles-middle :
      (row : PendingInfo) (before later : List Tx) (tx : Tx)
      → settles benv chain healthy row tx ≡ true
      → any_settles benv chain healthy row (before ++ tx ∷ later) ≡ true
  any_settles-middle row [] later tx h = ground (arith, h)
  any_settles-middle row (t ∷ before) later tx h =
      let ih = any_settles-middle row before later tx h in ground (arith, ih)

  settles-key_list :
      (row : PendingInfo) (tx : Tx)
      → benv.action_of tx ≡ ok row.action
      → row.action ≡ benv.update_key_list
      → row.outpoint ≡ benv.out_point tx.hash 0
      → has_type healthy.same_type tx.outputs ≡ true
      → settles benv chain healthy row tx ≡ true
  unfolding is_tx
  settles-key_list row tx acts known outpoint typed = ground (
    arith,
    eq_iff row.action benv.update_key_list,
    eq_iff row.outpoint (benv.out_point tx.hash 0),
  )

  settled-outpoint :
      (hash : String) (block : Block) (txs : List Tx) (row : PendingInfo)
      → has_outpoint hash (settled benv chain healthy block txs row) ≡ has_outpoint hash row
  settled-outpoint hash block txs row = ground arith

  parsing-found :
      (hash : String) (block : Block) (row : PendingInfo) (p : Parser)
      → p.db.faults ≡ []
      → find_first (has_outpoint hash) p.db.pendings ≡ some row
      → any_settles benv chain healthy row block.transactions ≡ true
      → find_first (has_outpoint hash) (parsing_block_data benv block p).1.db.pendings
        ≡ some (confirmed block.number block.timestamp row)
  parsing-found hash block row p quiet found settles_row =
      ap (find_first (has_outpoint hash)) (parsing_confirms benv chain healthy block p quiet).1
      ∙ find_first-map (has_outpoint hash) (settled benv chain healthy block block.transactions)
          (settled-outpoint hash block block.transactions) p.db.pendings row found
      ∙ (rw settles_row)

  module _ (env : SendEnv) (actions : DasActions) (hash_of : String → String) (req : SignInfo)
      (status_req : ReqTransactionStatus) (sic : SignInfoCache) (tx_str : String) (w w' : World)
      (p : Parser) (block : Block) (before later : List Tx) (tx : Tx) where
    -- The row of the sent transaction.
    abbrev pub sent_row : PendingInfo
    sent_row = record (pending_row env sic tx.hash) { id = w.db.next_pending_id }

    -- When doTransactionSend has returned the hash of a transaction, its status is pending, in no
    -- block; after the parser has read a block that holds the transaction, as an update of a key
    -- list in a cell of the current contract, its status is confirmed, under the number of the
    -- block. That holds if the cached transaction has an address and the action of key-list
    -- updates, no row had the outpoint of its first output, which is written in the way that both
    -- das-lib and the query write it, the contract is known, and no statement fails.
    pub do_transaction_status-confirmed :
        (get_sign_tx_cache env.now req.sign_key w.redis).0 ≡ ok tx_str
        → env.parse_cache tx_str ≡ ok sic
        → str_eq sic.address "" ≡ false
        → w.db.faults ≡ []
        → find_first (has_outpoint tx.hash) w.db.pendings ≡ none
        → env.out_point_string tx.hash 0 ≡ string_append tx.hash "-0"
        → benv.out_point tx.hash 0 ≡ string_append tx.hash "-0"
        → send_body env req w ≡ (ok tx.hash, w')
        → p.db ≡ w'.db
        → block.transactions ≡ before ++ tx ∷ later
        → benv.action_of tx ≡ ok sic.action
        → sic.action ≡ benv.update_key_list
        → has_type healthy.same_type tx.outputs ≡ true
        → status_req.tx_hash ≡ tx.hash
        → str_eq tx.hash "" ≡ false
        → ((do_transaction_status actions hash_of status_req w'.db).0
            ≡ status_of actions hash_of sent_row)
          × ((do_transaction_status actions hash_of status_req
                (parsing_block_data benv block p).1.db).0
              ≡ status_of actions hash_of (confirmed block.number block.timestamp sent_row))
    unfolding pending_row is_tx
    do_transaction_status-confirmed cached parsed owner quiet new format same_format sent same_db
          holds acts known typed asked named =
        let rows : w'.db ≡ with_row (pending_row env sic tx.hash) w.db =
          send_body-with_row env sic tx.hash req tx_str w w' cached parsed owner quiet
            (rw format (
              find_first-weaken (has_outpoint tx.hash)
                (λ (q : PendingInfo). str_eq q.action sic.action) w.db.pendings new))
            sent in
        let quiet' : w'.db.faults ≡ [] = ap (λ (d : Db). d.faults) rows ∙ quiet in
        let found : find_first (has_outpoint tx.hash) w'.db.pendings ≡ some sent_row =
          ap (λ (d : Db). find_first (has_outpoint tx.hash) d.pendings) rows
          ∙ find_first-append (has_outpoint tx.hash) w.db.pendings sent_row new
              ((eq_iff _ _).1 format) in
        let parser_quiet : p.db.faults ≡ [] = ap (λ (d : Db). d.faults) same_db ∙ quiet' in
        let settles_row : any_settles benv chain healthy sent_row block.transactions ≡ true =
          rw holds (
            any_settles-middle sent_row before later tx
              (settles-key_list sent_row tx acts known (format ∙ sym same_format) typed)) in
        let found' =
          parsing-found tx.hash block sent_row p parser_quiet
            (ap (λ (d : Db). find_first (has_outpoint tx.hash) d.pendings) same_db ∙ found)
            settles_row in
        let told = λ (row : PendingInfo) (d : Db).
          do_transaction_status-found actions hash_of status_req row d
            (ap (λ h. str_eq h "") asked ∙ named) in
        let tell =
          λ (d : Db) (row : PendingInfo) (q : d.faults ≡ [])
              (f : find_first (has_outpoint tx.hash) d.pendings ≡ some row).
            ap (λ (o : Handled RespTransactionStatus × Db). o.0)
              (told row d q (ap (λ h. find_first (has_outpoint h) d.pendings) asked ∙ f)) in
        (
          tell w'.db sent_row quiet' found,
          tell (parsing_block_data benv block p).1.db
              (confirmed block.number block.timestamp sent_row)
              (parsing_works benv chain healthy block p parser_quiet).1 found',
        )
