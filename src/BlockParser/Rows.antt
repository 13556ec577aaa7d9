-- ===== src/BlockParser/Rows.antt =====
-- What the parser makes of the pending rows, in any round and whatever fails.
use das_multi_device.Prelude.{
  ℕ, zero, suc, String, Bool, true, false, none, some, List, [], ◌∷◌, ◌&&◌, ltb, str_eq, sub64,
  if◌then◌else◌,
}
use das_multi_device.Outcome.{Error, Result, ok, err, Exec, ◌>>◌}
use das_multi_device.Outcome.Rules.{Keeps, Keeps-bind, Keeps-if, keeps_rules}
use das_multi_device.Dao.{Db, PendingInfo, query, execute}
use das_multi_device.Dao.BlockInfos.{
  find_block_info_by_block_number, create_block_info, delete_block_info,
}
use das_multi_device.Dao.Pendings.{update_avatar_notes_to_confirm}
use das_multi_device.Dao.Pendings.Evolves.{
  Evolves, EvolvesFrom, statement-Keeps, update_pending_status_to_confirm-EvolvesFrom,
}
use das_multi_device.BlockParser.{
  Tx, Block, Env, Parser, HandleReq, on_db, get_current, set_current, confirm_key_list,
  action_update_keylist, counted, run_handle, transaction_handle, dispatch, handle_tx, handle_txs,
  parsing_block_data, check_fork, store_block, prune, advance, step_back, parser_sub_mode,
  concurrency_round, concurrency_rounds, parser_concurrency_mode, at_tip, run_round,
}

module _ (rows : List PendingInfo) where
  abbrev Holds : Parser → Type 0
  Holds p = EvolvesFrom rows p.db

  on_db-Holds :
      {A : Type 0} (m : Exec Db Error A) → Keeps (EvolvesFrom rows) m → Keeps Holds (on_db m)
  unfolding on_db
  on_db-Holds m k = record { at = λ p h. k.at p.db h }

  query-EvolvesFrom : {A : Type 0} (f : Db → A) → Keeps (EvolvesFrom rows) (query f)
  unfolding query
  query-EvolvesFrom f = statement-Keeps _ (Evolves rows) (λ d h. h)

  avatar_notes-EvolvesFrom :
      (outpoint : String) (number timestamp : ℕ)
      → Keeps (EvolvesFrom rows) (update_avatar_notes_to_confirm outpoint number timestamp)
  unfolding update_avatar_notes_to_confirm execute
  avatar_notes-EvolvesFrom outpoint number timestamp = statement-Keeps _ (Evolves rows) (λ d h. h)

  find_block_info_by_block_number-EvolvesFrom :
      (t n : ℕ) → Keeps (EvolvesFrom rows) (find_block_info_by_block_number t n)
  unfolding find_block_info_by_block_number
  find_block_info_by_block_number-EvolvesFrom t n = query-EvolvesFrom _

  create_block_info-EvolvesFrom :
      (t n : ℕ) (hash parent : String)
      → Keeps (EvolvesFrom rows) (create_block_info t n hash parent)
  unfolding create_block_info execute
  create_block_info-EvolvesFrom t n hash parent = statement-Keeps _ (Evolves rows) (λ d h. h)

  delete_block_info-EvolvesFrom : (t n : ℕ) → Keeps (EvolvesFrom rows) (delete_block_info t n)
  unfolding delete_block_info execute
  delete_block_info-EvolvesFrom t n = statement-Keeps _ (Evolves rows) (λ d h. h)

  confirm_key_list-EvolvesFrom :
      (outpoint : String) (req : HandleReq)
      → Keeps (EvolvesFrom rows) (confirm_key_list outpoint req)
  unfolding confirm_key_list
  confirm_key_list-EvolvesFrom outpoint req =
      search (keeps_rules, update_pending_status_to_confirm-EvolvesFrom, avatar_notes-EvolvesFrom)

  action_update_keylist-EvolvesFrom :
      (env : Env) (req : HandleReq) → Keeps (EvolvesFrom rows) (action_update_keylist env req)
  unfolding action_update_keylist
  action_update_keylist-EvolvesFrom env req =
      search (keeps_rules, Keeps-if, confirm_key_list-EvolvesFrom)

  counted-Holds : (tx_hash : String) (r : Result Error Unit) → Keeps Holds (counted tx_hash r)
  unfolding counted
  counted-Holds tx_hash (ok u) = record { at = λ p h. h }
  counted-Holds tx_hash (err e) = record { at = λ p h. h }

  run_handle-Holds :
      (env : Env) (known : Bool) (req : HandleReq)
      → Keeps Holds (run_handle (if known then some (action_update_keylist env) else none) req)
  unfolding run_handle
  run_handle-Holds env true req = record {
    at = λ p h.
        (counted-Holds req.tx_hash _).at _ ((action_update_keylist-EvolvesFrom env req).at p.db h);
  }
  run_handle-Holds env false req = record { at = λ p h. h }

  dispatch-Holds :
      (env : Env) (block : Block) (tx : Tx) (r : Result Error String)
      → Keeps Holds (dispatch env block tx r)
  unfolding dispatch transaction_handle
  dispatch-Holds env block tx (err e) = record { at = λ p h. h }
  dispatch-Holds env block tx (ok action) = record {
    at = (run_handle-Holds env (str_eq action env.update_key_list) _).at;
  }

  handle_tx-Holds : (env : Env) (block : Block) (tx : Tx) → Keeps Holds (handle_tx env block tx)
  unfolding handle_tx
  handle_tx-Holds env block tx = record { at = (dispatch-Holds env block tx (env.action_of tx)).at }

  handle_txs-Holds :
      (env : Env) (block : Block) (txs : List Tx) → Keeps Holds (handle_txs env block txs)
  unfolding handle_txs
  handle_txs-Holds env block [] = record { at = λ p h. h }
  handle_txs-Holds env block (tx ∷ txs) = record {
    at = (Keeps-bind _ _ (handle_tx-Holds env block tx) (λ _. handle_txs-Holds env block txs)).at;
  }

  parsing_block_data-Holds :
      (env : Env) (block : Block) → Keeps Holds (parsing_block_data env block)
  unfolding parsing_block_data
  parsing_block_data-Holds env block = handle_txs-Holds env block block.transactions

  get_current-Holds : Keeps Holds get_current
  unfolding get_current
  get_current-Holds = record { at = λ p h. h }

  set_current-Holds : (f : ℕ → ℕ) → Keeps Holds (set_current f)
  unfolding set_current
  set_current-Holds f = record { at = λ p h. h }

  check_fork-Holds : (parent : String) → Keeps Holds (check_fork parent)
  unfolding check_fork
  check_fork-Holds parent =
      search
        (keeps_rules, get_current-Holds, on_db-Holds, find_block_info_by_block_number-EvolvesFrom)

  store_block-Holds : (block : Block) → Keeps Holds (store_block block)
  unfolding store_block
  store_block-Holds block = search (
    keeps_rules, get_current-Holds, set_current-Holds, on_db-Holds, create_block_info-EvolvesFrom,
  )

  prune-Holds : Keeps Holds prune
  unfolding prune
  prune-Holds = search (keeps_rules, get_current-Holds, on_db-Holds, delete_block_info-EvolvesFrom)

  advance-Holds : (env : Env) (block : Block) → Keeps Holds (advance env block)
  unfolding advance
  advance-Holds env block =
      search (keeps_rules, parsing_block_data-Holds, store_block-Holds, prune-Holds)

  parser_sub_mode-Holds : (env : Env) → Keeps Holds (parser_sub_mode env)
  unfolding parser_sub_mode step_back
  parser_sub_mode-Holds env =
      search
        (
          keeps_rules, Keeps-if, get_current-Holds, set_current-Holds, check_fork-Holds,
          advance-Holds,
        )
        depth 12

  concurrency_round-Holds : (env : Env) → Keeps Holds (concurrency_round env)
  unfolding concurrency_round
  concurrency_round-Holds env =
      search (keeps_rules, get_current-Holds, parsing_block_data-Holds, store_block-Holds)

  concurrency_rounds-Holds : (k : ℕ) (env : Env) → Keeps Holds (concurrency_rounds k env)
  unfolding concurrency_rounds
  concurrency_rounds-Holds zero env = record { at = λ p h. h }
  concurrency_rounds-Holds (suc k) env = record {
    at = (Keeps-bind _ _ (concurrency_round-Holds env) (λ _. concurrency_rounds-Holds k env)).at;
  }

  parser_concurrency_mode-Holds :
      (env : Env) (k : ℕ) → Keeps Holds (concurrency_rounds k env >> prune)
  parser_concurrency_mode-Holds env k = search (keeps_rules, concurrency_rounds-Holds, prune-Holds)

  Holds-if : (b : Bool) (p q : Parser) → Holds p → Holds q → Holds (if b then p else q)
  Holds-if true p q h k = h
  Holds-if false p q h k = k

  at_tip-Holds : (env : Env) (r : Result Error ℕ) (p : Parser) → Holds p → Holds (at_tip env r p)
  unfolding at_tip parser_concurrency_mode
  at_tip-Holds env (err e) p h = h
  at_tip-Holds env (ok tip) p h =
      let behind = ltb p.current_block_number (sub64 tip p.confirm_num) in
      Holds-if
        (ltb 1 p.concurrency_num
          && ltb p.current_block_number (sub64 (sub64 tip p.confirm_num) p.concurrency_num))
        (parser_concurrency_mode env p).1 (if behind then (parser_sub_mode env p).1 else p)
        ((parser_concurrency_mode-Holds env p.concurrency_num).at p h)
        (Holds-if behind (parser_sub_mode env p).1 p ((parser_sub_mode-Holds env).at p h) h)

  pub run_round-EvolvesFrom :
      (env : Env) (p : Parser) → EvolvesFrom rows p.db → EvolvesFrom rows (run_round env p).db
  unfolding run_round
  run_round-EvolvesFrom env p h = at_tip-Holds env env.get_tip p h
