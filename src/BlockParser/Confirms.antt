-- ===== src/BlockParser/Confirms.antt =====
-- What parsing a block does to the pending transactions.
use das_multi_device.Prelude.{
  ℕ, String, ◌≡◌, refl, ◌∙◌, ap, Bool, true, false, ◌&&◌, ◌||◌, some, none, List, [], ◌∷◌, map,
  arith, str_eq, eq_iff, ap₂, if◌then◌else◌, update_where,
}
use das_multi_device.Outcome.{Error, Result, ok, err}
use das_multi_device.Outcome.Keeps.{IsOk, Succeeds, bind-Succeeds}
use das_multi_device.Dao.{PendingInfo, Db}
use das_multi_device.Dao.Pendings.{
  is_tx, confirmed, update_pending_status_to_confirm, update_avatar_notes_to_confirm,
}
use das_multi_device.BlockParser.{
  Tx, Block, Env, Parser, HandleReq, has_type, action_update_keylist, run_handle, counted, dispatch,
  handle_tx, handle_txs, parsing_block_data, transaction_handle,
}
use das_multi_device.BlockParser.Healthy.{Healthy, IsQuiet, handle_tx_works}

module _ (env : Env) (chain : ℕ → Block) (h : Healthy env chain) where
  -- The transaction is a key-list update of the current contract, and the row is waiting for it.
  abbrev pub is_key_list : Result Error String → Tx → Bool
  is_key_list (ok action) tx = str_eq action env.update_key_list && has_type h.same_type tx.outputs
  is_key_list (err e) tx = false

  abbrev pub settles : PendingInfo → Tx → Bool
  settles r tx =
      is_key_list (env.action_of tx) tx && is_tx env.update_key_list (env.out_point tx.hash 0) r

  abbrev pub any_settles : PendingInfo → List Tx → Bool
  any_settles r [] = false
  any_settles r (tx ∷ txs) = settles r tx || any_settles r txs

  -- The rows after the transactions of a block.
  abbrev pub settled : Block → List Tx → PendingInfo → PendingInfo
  settled block txs r = if any_settles r txs then confirmed block.number block.timestamp r else r

  keylist_confirms :
      (req : HandleReq) (db : Db)
      → db.faults ≡ []
      → (action_update_keylist env req db).1.pendings ≡ (
          if has_type h.same_type req.tx.outputs
          then update_where
              (is_tx req.action (env.out_point req.tx_hash 0))
              (confirmed req.block_number req.block_timestamp)
              db.pendings
          else db.pendings)
  unfolding action_update_keylist update_pending_status_to_confirm update_avatar_notes_to_confirm
  keylist_confirms req db q = ground (arith, h.contract)

  -- One transaction confirms the rows that it settles.
  abbrev settled_by : Block → Tx → PendingInfo → PendingInfo
  settled_by block tx r = if settles r tx then confirmed block.number block.timestamp r else r

  update-eq-map :
      (test : PendingInfo → Bool) (f : PendingInfo → PendingInfo) (rows : List PendingInfo)
      → update_where test f rows ≡ map (λ r. if test r then f r else r) rows
  unfolding update_where
  update-eq-map test f [] = refl
  update-eq-map test f (r ∷ rows) = ap (◌∷◌ (if test r then f r else r)) (update-eq-map test f rows)

  map_unsettled : (rows : List PendingInfo) → rows ≡ map (λ r. r) rows
  map_unsettled [] = refl
  map_unsettled (r ∷ rows) = cc (map_unsettled rows)

  gated :
      (b : Bool) (test : PendingInfo → Bool) (f : PendingInfo → PendingInfo)
      (rows : List PendingInfo)
      → (if b then update_where test f rows else rows)
        ≡ map (λ r. if (true && b) && test r then f r else r) rows
  gated true test f rows = update-eq-map test f rows
  gated false test f rows = map_unsettled rows

  counted-pendings :
      (tx_hash : String) (r : Result Error Unit) (p : Parser)
      → (counted tx_hash r p).1.db.pendings ≡ p.db.pendings
  unfolding counted
  counted-pendings tx_hash (ok u) p = refl
  counted-pendings tx_hash (err e) p = refl

  abbrev request : Block → Tx → String → HandleReq
  request block tx action = record {
    tx = tx;
    tx_hash = tx.hash;
    block_number = block.number;
    block_timestamp = block.timestamp;
    action = action;
  }

  handled_confirms :
      (block : Block) (tx : Tx) (action : String) (known : Bool) (p : Parser)
      → IsQuiet p
      → str_eq action env.update_key_list ≡ known
      → (run_handle
          (if known then some (action_update_keylist env) else none)
          (request block tx action)
          p).1.db.pendings
        ≡ map
            (λ r.
              if (known && has_type h.same_type tx.outputs)
                && is_tx env.update_key_list (env.out_point tx.hash 0) r
              then confirmed block.number block.timestamp r
              else r)
            p.db.pendings
  unfolding run_handle
  handled_confirms block tx action true p q e =
      counted-pendings tx.hash (action_update_keylist env (request block tx action) p.db).0
        (record p { db = (action_update_keylist env (request block tx action) p.db).1 })
      ∙ keylist_confirms (request block tx action) p.db q
      ∙ gated (has_type h.same_type tx.outputs) (is_tx action (env.out_point tx.hash 0))
          (confirmed block.number block.timestamp) p.db.pendings
      ∙ ap
          (λ a.
            map
              (λ (r : PendingInfo).
                if (true && has_type h.same_type tx.outputs) && is_tx a (env.out_point tx.hash 0) r
                then confirmed block.number block.timestamp r
                else r)
              p.db.pendings)
          ((eq_iff action env.update_key_list).0 e)
  handled_confirms block tx action false p q e = map_unsettled p.db.pendings

  dispatch_confirms :
      (block : Block) (tx : Tx) (r : Result Error String) (p : Parser)
      → IsQuiet p
      → (dispatch env block tx r p).1.db.pendings
        ≡ map
            (λ row.
              if is_key_list r tx && is_tx env.update_key_list (env.out_point tx.hash 0) row
              then confirmed block.number block.timestamp row
              else row)
            p.db.pendings
  unfolding dispatch transaction_handle
  dispatch_confirms block tx (ok action) p q =
      handled_confirms block tx action (str_eq action env.update_key_list) p q refl
  dispatch_confirms block tx (err x) p q = map_unsettled p.db.pendings

  -- Confirming a row does not change which transactions settle it.
  any_settles-confirmed :
      (n t : ℕ) (r : PendingInfo) (txs : List Tx)
      → any_settles (confirmed n t r) txs ≡ any_settles r txs
  unfolding is_tx
  any_settles-confirmed n t r [] = refl
  any_settles-confirmed n t r (tx ∷ txs) = cc (any_settles-confirmed n t r txs)

  settled-settled_by :
      (block : Block) (tx : Tx) (txs : List Tx) (r : PendingInfo)
      → settled block txs (settled_by block tx r) ≡ settled block (tx ∷ txs) r
  settled-settled_by block tx txs r =
      ground (arith, any_settles-confirmed block.number block.timestamp r txs)

  map-settled :
      (block : Block) (tx : Tx) (txs : List Tx) (rows : List PendingInfo)
      → map (settled block txs) (map (settled_by block tx) rows)
        ≡ map (settled block (tx ∷ txs)) rows
  map-settled block tx txs [] = refl
  map-settled block tx txs (r ∷ rows) =
      ap₂ ◌∷◌ (settled-settled_by block tx txs r) (map-settled block tx txs rows)

  abbrev Settled : Block → List Tx → List PendingInfo → Parser → Type 0
  Settled block txs rows s = IsQuiet s × (s.db.pendings ≡ map (settled block txs) rows)

  handle_txs_confirm :
      (block : Block) (txs : List Tx) (p : Parser)
      → IsQuiet p
      → Succeeds (Settled block txs p.db.pendings) (handle_txs env block txs p)
  unfolding handle_txs handle_tx
  handle_txs_confirm block [] p q = (tt, (q, map_unsettled p.db.pendings))
  handle_txs_confirm block (tx ∷ txs) p q =
      let (fine, still) = handle_tx_works env chain h block tx p q in
      bind-Succeeds (λ s. IsQuiet s × (s.db.pendings ≡ map (settled_by block tx) p.db.pendings))
        (Settled block (tx ∷ txs) p.db.pendings) (handle_tx env block tx)
        (λ _. handle_txs env block txs) p
        (fine, (still, dispatch_confirms block tx (env.action_of tx) p q))
        (λ _ s done.
          let (fine', (quiet, rows)) = handle_txs_confirm block txs s done.0 in
          (
            fine',
            (
              quiet,
              rows ∙ ap (map (settled block txs)) done.1 ∙ map-settled block tx txs p.db.pendings,
            ),
          ))

  -- While the contract is known and no statement fails, parsing a block succeeds, and it confirms,
  -- under the block's number and time, exactly the pending rows whose action and outpoint are those
  -- of a key-list transaction of the current contract in the block. The other rows stay as they are.
  pub parsing_confirms :
      (block : Block) (p : Parser)
      → IsQuiet p
      → IsOk (parsing_block_data env block p).0
        × ((parsing_block_data env block p).1.db.pendings
            ≡ map (settled block block.transactions) p.db.pendings)
  unfolding parsing_block_data
  parsing_confirms block p q =
      let r = handle_txs_confirm block block.transactions p q in (r.0, r.1.1)
