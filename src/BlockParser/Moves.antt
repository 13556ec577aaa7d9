-- ===== src/BlockParser/Moves.antt =====
-- The three ways in which a round of parserSubMode can move the parser along the chain.
use das_multi_device.Prelude.{
  ℕ, String, ◌≡◌, ◌≢◌, refl, ◌∙◌, ap, subst, ◌⊎◌, Bool, true, false, Option, none, some, arith,
  if◌then◌else◌, eq_iff, add64, sub64,
}
use das_multi_device.Outcome.{Error, wrap, Result, ok, err, on_err, ◌>>=◌, ◌>>◌}
use das_multi_device.Outcome.Keeps.{bind-cases, on_err-ok}
use das_multi_device.Dao.{BlockInfo, parser_type_das}
use das_multi_device.Dao.BlockInfos.{
  block_at, upsert, without_below, find_block_info_by_block_number, create_block_info,
  delete_block_info,
}
use das_multi_device.BlockParser.{
  Block, Env, Parser, parsing_block_data, check_fork, differs, store_block, prune, advance,
  step_back, parser_sub_mode,
}
use das_multi_device.BlockParser.Frame.{parsing-SamePlace}

-- The stored row for a number.
abbrev pub stored : Parser → ℕ → Option BlockInfo
stored p k = block_at parser_type_das k p.db.block_infos

abbrev pub row_of : ℕ → Block → BlockInfo
row_of n b = record {
  parser_type = parser_type_das;
  block_number = n;
  block_hash = b.hash;
  parent_hash = b.parent_hash;
}

-- The table after a block is stored, before and after old rows are dropped.
abbrev pub WithBlock : Parser → Block → Parser → Type 0
WithBlock p b q =
    (q.db.block_infos ≡ upsert (row_of p.current_block_number b) p.db.block_infos)
    ⊎ (q.db.block_infos
        ≡ without_below parser_type_das (sub64 (add64 p.current_block_number 1) 20)
            (upsert (row_of p.current_block_number b) p.db.block_infos))

-- A move from `p` to the outcome `o`. The parser stays where it was only with an error.
pub data Move (env : Env) (p : Parser) (o : Result Error Unit × Parser) : Type 0 where
  stay :
      (e : Error)
      → o.0 ≡ err e
      → o.1.db.block_infos ≡ p.db.block_infos
      → o.1.current_block_number ≡ p.current_block_number
      → Move env p o
  back :
      (b : Block) (r : BlockInfo)
      → env.get_block p.current_block_number ≡ ok b
      → stored p (sub64 p.current_block_number 1) ≡ some r
      → r.block_hash ≢ b.parent_hash
      → o.1.db.block_infos ≡ p.db.block_infos
      → o.1.current_block_number ≡ sub64 p.current_block_number 1
      → Move env p o
  forward :
      (b : Block)
      → env.get_block p.current_block_number ≡ ok b
      → ((r : BlockInfo)
          → stored p (sub64 p.current_block_number 1) ≡ some r
          → r.block_hash ≡ b.parent_hash)
      → WithBlock p b o.1
      → o.1.current_block_number ≡ add64 p.current_block_number 1
      → Move env p o

-- What a fork check says of the stored row below the parser.
pub record Checked (parent : String) (p : Parser) (fork : Bool) (q : Parser) : Type 0 where
  pub infos : q.db.block_infos ≡ p.db.block_infos
  pub current : q.current_block_number ≡ p.current_block_number
  pub forked :
      fork ≡ true
      → (r : BlockInfo) × (stored p (sub64 p.current_block_number 1) ≡ some r)
        × (r.block_hash ≢ parent)
  pub joined :
      fork ≡ false
      → (r : BlockInfo) → stored p (sub64 p.current_block_number 1) ≡ some r
      → r.block_hash ≡ parent

differs-row :
    (parent : String) (o : Option BlockInfo)
    → differs parent o ≡ true
    → (r : BlockInfo) × (o ≡ some r) × (r.block_hash ≢ parent)
unfolding differs
differs-row parent none d = cc
differs-row parent (some r) d = (r, refl, ground (arith, eq_iff r.block_hash parent))

joins-row :
    (parent : String) (o : Option BlockInfo)
    → differs parent o ≡ false
    → (r : BlockInfo) → o ≡ some r
    → r.block_hash ≡ parent
unfolding differs
joins-row parent o d r e = ground (arith, eq_iff r.block_hash parent)

check_fork-Checked :
    (parent : String) (p q : Parser) (fork : Bool)
    → check_fork parent p ≡ (ok fork, q)
    → Checked parent p fork q
unfolding check_fork find_block_info_by_block_number
check_fork-Checked parent p q fork e = record {
  infos = ground arith;
  current = ground arith;
  forked = λ d. differs-row parent _ (ground arith);
  joined = λ d. joins-row parent _ (ground arith);
}

pub check_fork_stays :
    (parent : String) (p : Parser)
    → ((check_fork parent p).1.db.block_infos ≡ p.db.block_infos)
      × ((check_fork parent p).1.current_block_number ≡ p.current_block_number)
unfolding check_fork find_block_info_by_block_number
check_fork_stays parent p = ground arith

pub store_block_fails :
    (b : Block) (p q : Parser) (e : Error)
    → store_block b p ≡ (err e, q)
    → (q.db.block_infos ≡ p.db.block_infos) × (q.current_block_number ≡ p.current_block_number)
unfolding store_block create_block_info
store_block_fails b p q e h = ground arith

pub store_block_works :
    (b : Block) (p q : Parser) (u : Unit)
    → store_block b p ≡ (ok u, q)
    → (q.db.block_infos ≡ upsert (row_of p.current_block_number b) p.db.block_infos)
      × (q.current_block_number ≡ add64 p.current_block_number 1)
unfolding store_block create_block_info
store_block_works b p q u h = ground arith

pub prune_drops :
    (p : Parser)
    → ((prune p).1.current_block_number ≡ p.current_block_number)
      × (((prune p).1.db.block_infos ≡ p.db.block_infos)
          ⊎ ((prune p).1.db.block_infos
              ≡ without_below parser_type_das (sub64 p.current_block_number 20) p.db.block_infos))
unfolding prune delete_block_info
prune_drops p = ground arith

module _ (env : Env) (p : Parser) (b : Block) where
  abbrev Joins : Type 0
  Joins =
      (r : BlockInfo)
      → stored p (sub64 p.current_block_number 1) ≡ some r
      → r.block_hash ≡ b.parent_hash

  stored-Move :
      (s q : Parser) (u : Unit)
      → env.get_block p.current_block_number ≡ ok b
      → Joins
      → s.db.block_infos ≡ p.db.block_infos
      → s.current_block_number ≡ p.current_block_number
      → store_block b s ≡ (ok u, q)
      → Move env p (prune q)
  stored-Move s q u got j infos current h =
      let (qi, qc) = store_block_works b s q u h in
      let (pc, pi) = prune_drops q in forward b got j (ground arith) (ground arith)

  -- `s` stands where `p` stood.
  abbrev Here : Parser → Type 0
  Here s = (s.db.block_infos ≡ p.db.block_infos) × (s.current_block_number ≡ p.current_block_number)

  parsed-Move :
      (s : Parser)
      → env.get_block p.current_block_number ≡ ok b
      → Joins
      → Here s
      → Move env p ((store_block b >> prune) s)
  parsed-Move s got j here =
      bind-cases (Move env p) (store_block b) (λ _. prune) s
        (λ e q h.
          let (qi, qc) = store_block_fails b s q e h in stay e refl (qi ∙ here.0) (qc ∙ here.1))
        (λ u q h. stored-Move s q u got j here.0 here.1 h)

  advance-Move :
      (s : Parser)
      → env.get_block p.current_block_number ≡ ok b
      → Joins
      → Here s
      → Move env p (advance env b s)
  unfolding advance
  advance-Move s got j here =
      let same = parsing-SamePlace env b s in
      let there : Here (parsing_block_data env b s).1 =
        (same.block_infos ∙ here.0, same.current ∙ here.1) in
      bind-cases (Move env p) (on_err (wrap "parsingBlockData") (parsing_block_data env b))
        (λ _. store_block b >> prune) s
        (λ e q h.
          subst (λ (q : Parser). Move env p (err e, q)) (ap (λ o. o.1) h)
            (stay e refl there.0 there.1))
        (λ u q h. parsed-Move q got j (subst (λ (o : Parser). Here o) (ap (λ o. o.1) h) there))

  joined-Move :
      (fork : Bool) (s : Parser)
      → env.get_block p.current_block_number ≡ ok b
      → Checked b.parent_hash p fork s
      → Move env p ((if fork then step_back else advance env b) s)
  unfolding step_back
  joined-Move true s got c =
      let (r, found, apart) = c.forked refl in
      back b r got found apart c.infos (ap (λ k. sub64 k 1) c.current)
  joined-Move false s got c = advance-Move s got (c.joined refl) (c.infos, c.current)

  checked-Move :
      env.get_block p.current_block_number ≡ ok b
      → Move env p (
          (on_err (wrap "checkFork") (check_fork b.parent_hash) >>= λ fork.
          if fork then step_back else advance env b)
            p)
  unfolding on_err
  checked-Move got =
      bind-cases (Move env p) (on_err (wrap "checkFork") (check_fork b.parent_hash))
        (λ fork. if fork then step_back else advance env b) p
        (λ e q h.
          subst (λ (q : Parser). Move env p (err e, q)) (ap (λ o. o.1) h)
            (stay e refl (check_fork_stays b.parent_hash p).0 (check_fork_stays b.parent_hash p).1))
        (λ fork q h. joined-Move fork q got (
          check_fork-Checked b.parent_hash p q fork
            (on_err-ok (wrap "checkFork") (check_fork b.parent_hash) p fork q h)))

got-Move :
    (env : Env) (p : Parser) (r : Result Error Block)
    → env.get_block p.current_block_number ≡ r
    → Move env p (parser_sub_mode env p)
unfolding parser_sub_mode
got-Move env p (ok b) got = rw got (checked-Move env p b got)
got-Move env p (err e) got = rw got (stay (wrap "GetBlockByNumber" e) refl refl refl)

-- Whatever the node and the database answer, a round of parserSubMode fails and leaves the parser in
-- place, steps back from a block whose parent is not the stored one, or stores a block and moves on.
pub sub_mode-Move : (env : Env) (p : Parser) → Move env p (parser_sub_mode env p)
sub_mode-Move env p = got-Move env p _ refl
