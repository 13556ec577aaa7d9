-- ===== src/BlockParser/Healthy.antt =====
-- Rounds of parserSubMode while the node serves one chain and no statement of the database fails.
use das_multi_device.Prelude.{
  ℕ, String, ◌≡◌, ◌≢◌, refl, Bool, true, false, Option, none, some, List, [], ◌∷◌, arith, str_eq,
  eq_iff, add64, sub64, if◌then◌else◌,
}
use das_multi_device.Outcome.{Error, wrap, Result, ok, err, on_err, ◌>>◌}
use das_multi_device.Outcome.Keeps.{Succeeds, bind-Succeeds, on_err-Succeeds}
use das_multi_device.Dao.{BlockInfo, parser_type_das, Db}
use das_multi_device.Dao.BlockInfos.{
  upsert, without_below, find_block_info_by_block_number, create_block_info, delete_block_info,
}
use das_multi_device.Dao.Pendings.{update_pending_status_to_confirm, update_avatar_notes_to_confirm}
use das_multi_device.BlockParser.{
  Tx, Block, Env, Parser, HandleReq, action_update_keylist, run_handle, counted, dispatch,
  handle_tx, handle_txs, parsing_block_data, check_fork, differs, store_block, prune, advance,
  parser_sub_mode,
}
use das_multi_device.BlockParser.Frame.{parsing-SamePlace}
use das_multi_device.BlockParser.Moves.{stored, row_of}

-- The node serves `chain`, and the contract of the key-list cell is known.
pub record Healthy (env : Env) (chain : ℕ → Block) : Type 0 where
  pub blocks : (n : ℕ) → env.get_block n ≡ ok (chain n)
  pub same_type : String → Bool
  pub contract : env.key_list_contract ≡ ok same_type

abbrev pub IsQuiet : Parser → Type 0
IsQuiet p = p.db.faults ≡ []

module _ (env : Env) (chain : ℕ → Block) (h : Healthy env chain) where
  keylist_works :
      (req : HandleReq) (db : Db)
      → db.faults ≡ []
      → Succeeds (λ db'. db'.faults ≡ []) (action_update_keylist env req db)
  unfolding action_update_keylist update_pending_status_to_confirm update_avatar_notes_to_confirm
  keylist_works req db q = ground (arith, h.contract)

  handled_works :
      (known : Bool) (req : HandleReq) (p : Parser)
      → IsQuiet p
      → Succeeds IsQuiet
          (run_handle (if known then some (action_update_keylist env) else none) req p)
  unfolding run_handle counted
  handled_works true req p q = ground (arith, keylist_works req p.db q)
  handled_works false req p q = (tt, q)

  dispatch_works :
      (block : Block) (tx : Tx) (r : Result Error String) (p : Parser)
      → IsQuiet p
      → Succeeds IsQuiet (dispatch env block tx r p)
  unfolding dispatch
  dispatch_works block tx (ok action) p q = handled_works (str_eq action env.update_key_list) _ p q
  dispatch_works block tx (err e) p q = (tt, q)

  pub handle_tx_works :
      (block : Block) (tx : Tx) (p : Parser)
      → IsQuiet p
      → Succeeds IsQuiet (handle_tx env block tx p)
  unfolding handle_tx
  handle_tx_works block tx p q = dispatch_works block tx (env.action_of tx) p q

  handle_txs_works :
      (block : Block) (txs : List Tx) (p : Parser)
      → IsQuiet p
      → Succeeds IsQuiet (handle_txs env block txs p)
  unfolding handle_txs
  handle_txs_works block [] p q = (tt, q)
  handle_txs_works block (tx ∷ txs) p q =
      bind-Succeeds IsQuiet IsQuiet (handle_tx env block tx) (λ _. handle_txs env block txs) p
        (handle_tx_works block tx p q) (λ _ s quiet. handle_txs_works block txs s quiet)

  pub parsing_works :
      (block : Block) (p : Parser) → IsQuiet p → Succeeds IsQuiet (parsing_block_data env block p)
  unfolding parsing_block_data
  parsing_works block p q = handle_txs_works block block.transactions p q

-- `s` has the rows of `p` and stands where it stood.
abbrev At : Parser → Parser → Type 0
At p s =
    IsQuiet s
    × (s.db.block_infos ≡ p.db.block_infos)
    × (s.current_block_number ≡ p.current_block_number)

-- The block `b` was stored on the rows of `p`, and old rows were dropped.
abbrev pub Stored : Parser → Block → Parser → Type 0
Stored p b s =
    IsQuiet s
    × (s.db.block_infos
        ≡ without_below parser_type_das (sub64 (add64 p.current_block_number 1) 20)
            (upsert (row_of p.current_block_number b) p.db.block_infos))
    × (s.current_block_number ≡ add64 p.current_block_number 1)

abbrev Kept : Parser → Block → Parser → Type 0
Kept p b s =
    IsQuiet s
    × (s.db.block_infos ≡ upsert (row_of p.current_block_number b) p.db.block_infos)
    × (s.current_block_number ≡ add64 p.current_block_number 1)

store_works : (p s : Parser) (b : Block) → At p s → Succeeds (Kept p b) (store_block b s)
unfolding store_block create_block_info
store_works p s b a = ground arith

prune_works : (p s : Parser) (b : Block) → Kept p b s → Succeeds (Stored p b) (prune s)
unfolding prune delete_block_info
prune_works p s b k = ground arith

-- A fork check reads one row and changes nothing.
check_fork_reads :
    (parent : String) (p : Parser)
    → IsQuiet p
    → check_fork parent p ≡ (ok (differs parent (stored p (sub64 p.current_block_number 1))), p)
unfolding check_fork find_block_info_by_block_number
check_fork_reads parent p q = ground arith

-- The row below the parser, if there is one, is the parent of `b`.
abbrev pub Joins : Parser → Block → Type 0
Joins p b =
    (r : BlockInfo)
    → stored p (sub64 p.current_block_number 1) ≡ some r
    → r.block_hash ≡ b.parent_hash

no_fork :
    (parent : String) (o : Option BlockInfo)
    → ((r : BlockInfo) → o ≡ some r → r.block_hash ≡ parent)
    → differs parent o ≡ false
unfolding differs
no_fork parent none j = refl
no_fork parent (some r) j = ground (arith, j r refl, eq_iff r.block_hash parent)

fork_at :
    (parent : String) (o : Option BlockInfo) (r : BlockInfo)
    → o ≡ some r
    → r.block_hash ≢ parent
    → differs parent o ≡ true
unfolding differs
fork_at parent o r found apart = ground (arith, eq_iff r.block_hash parent)

module _ (env : Env) (chain : ℕ → Block) (h : Healthy env chain) (p : Parser)
    (quiet : IsQuiet p) where
  abbrev next : Block
  next = chain p.current_block_number

  advance_works : Succeeds (Stored p next) (advance env next p)
  unfolding advance
  advance_works =
      let same = parsing-SamePlace env next p in
      let (fine, still) = parsing_works env chain h next p quiet in
      bind-Succeeds (At p) (Stored p next)
        (on_err (wrap "parsingBlockData") (parsing_block_data env next))
        (λ _. store_block next >> prune) p
        (on_err-Succeeds (At p) (wrap "parsingBlockData") (parsing_block_data env next) p
          (fine, (still, same.block_infos, same.current)))
        (λ _ s a.
          bind-Succeeds (Kept p next) (Stored p next) (store_block next) (λ _. prune) s
            (store_works p s next a) (λ _ t k. prune_works p t next k))

  -- A block that joins the stored one is parsed, stored, and the parser moves on.
  pub sub_mode_forward : Joins p next → Stored p next (parser_sub_mode env p).1
  unfolding parser_sub_mode
  sub_mode_forward joins =
      let n = p.current_block_number in
      rw (h.blocks n, check_fork_reads next.parent_hash p quiet)
        (rw (no_fork next.parent_hash (stored p (sub64 n 1)) joins) advance_works.1)

  -- A stored row that is not the parent makes the parser step back, with the rows as they are.
  pub sub_mode_back :
      (r : BlockInfo)
      → stored p (sub64 p.current_block_number 1) ≡ some r
      → r.block_hash ≢ next.parent_hash
      → (parser_sub_mode env p).1
        ≡ record p { current_block_number = sub64 p.current_block_number 1 }
  unfolding parser_sub_mode
  sub_mode_back r found apart =
      let n = p.current_block_number in
      rw (h.blocks n, check_fork_reads next.parent_hash p quiet)
        (rw (fork_at next.parent_hash (stored p (sub64 n 1)) r found apart) refl)
