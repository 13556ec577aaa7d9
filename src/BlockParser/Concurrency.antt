-- ===== src/BlockParser/Concurrency.antt =====
-- The loop of parserConcurrencyMode: no block is skipped, and none is stored twice.
use das_multi_device.Prelude.{
  ℕ, zero, suc, ◌+◌, ◌≤◌, ◌<◌, ◌^◌, ◌≡◌, refl, ◌∙◌, ap, subst, ◌⊎◌, inl, some, arith, ◌==◌,
  if◌then◌else◌, add64,
}
use das_multi_device.Outcome.{Error, wrap, Result, ok, err, on_err, ◌>>◌}
use das_multi_device.Outcome.Keeps.{IsOk, bind-cases}
use das_multi_device.Dao.{parser_type_das}
use das_multi_device.Dao.BlockInfos.{block_at, upsert, block_at-upsert}
use das_multi_device.BlockParser.{
  Block, Env, Parser, parsing_block_data, store_block, concurrency_round, concurrency_rounds,
}
use das_multi_device.BlockParser.Frame.{parsing-SamePlace}
use das_multi_device.BlockParser.Moves.{stored, row_of, store_block_fails, store_block_works}

-- A round fails and changes no row, or stores the block that it got and moves on.
data Round (env : Env) (p : Parser) (o : Result Error Unit × Parser) : Type 0 where
  halted :
      (e : Error)
      → o.0 ≡ err e
      → o.1.db.block_infos ≡ p.db.block_infos
      → o.1.current_block_number ≡ p.current_block_number
      → Round env p o
  passed :
      (b : Block)
      → IsOk o.0
      → env.get_block p.current_block_number ≡ ok b
      → o.1.db.block_infos ≡ upsert (row_of p.current_block_number b) p.db.block_infos
      → o.1.current_block_number ≡ add64 p.current_block_number 1
      → Round env p o

parsed-Round :
    (env : Env) (p s : Parser) (b : Block)
    → env.get_block p.current_block_number ≡ ok b
    → s.db.block_infos ≡ p.db.block_infos
    → s.current_block_number ≡ p.current_block_number
    → (o : Result Error Unit × Parser) → store_block b s ≡ o
    → Round env p o
parsed-Round env p s b got i c (ok u, q) h =
    let (qi, qc) = store_block_works b s q u h in passed b tt got (ground arith) (ground arith)
parsed-Round env p s b got i c (err e, q) h =
    let (qi, qc) = store_block_fails b s q e h in halted e refl (qi ∙ i) (qc ∙ c)

block-Round :
    (env : Env) (p : Parser) (b : Block)
    → env.get_block p.current_block_number ≡ ok b
    → Round env p ((on_err (wrap "parsingBlockData") (parsing_block_data env b) >> store_block b) p)
unfolding on_err
block-Round env p b got =
    let same = parsing-SamePlace env b p in
    bind-cases (Round env p) (on_err (wrap "parsingBlockData") (parsing_block_data env b))
      (λ _. store_block b) p
      (λ e q h. halted e refl (ground (arith, same.block_infos)) (ground (arith, same.current)))
      (λ u q h.
        parsed-Round env p q b got (ground (arith, same.block_infos)) (ground (arith, same.current))
          (store_block b q) refl)

got-Round :
    (env : Env) (p : Parser) (r : Result Error Block)
    → env.get_block p.current_block_number ≡ r
    → Round env p (concurrency_round env p)
unfolding concurrency_round
got-Round env p (ok b) got = rw got (block-Round env p b got)
got-Round env p (err e) got = rw got (halted (wrap "GetBlockByNumber" e) refl refl refl)

-- What at most `k` rounds from `p` have done: `count` blocks from the parser's number on were got and
-- stored, the parser stands above the last of them, no other row changed, and without an error it
-- was `k` blocks.
pub record Progress (env : Env) (p : Parser) (k : ℕ) (o : Result Error Unit × Parser) : Type 0 where
  pub count : ℕ
  pub bounded : count ≤ k
  pub current : o.1.current_block_number ≡ p.current_block_number + count
  pub complete : IsOk o.0 → count ≡ k
  pub blocks :
      (i : ℕ)
      → i < count
      → (b : Block) × (env.get_block (p.current_block_number + i) ≡ ok b)
        × (stored o.1 (p.current_block_number + i) ≡ some (row_of (p.current_block_number + i) b))
  pub others :
      (n : ℕ)
      → (n < p.current_block_number) ⊎ (p.current_block_number + count ≤ n)
      → stored o.1 n ≡ stored p n

nothing-Progress :
    (env : Env) (p : Parser) (k : ℕ) (o : Result Error Unit × Parser)
    → o.1.db.block_infos ≡ p.db.block_infos
    → o.1.current_block_number ≡ p.current_block_number
    → (IsOk o.0 → 0 ≡ k)
    → Progress env p k o
nothing-Progress env p k o i c done = record {
  count = 0;
  bounded = omega arith;
  current = omega arith;
  complete = done;
  blocks = λ n lt. absurd (omega arith);
  others = λ n _. ap (block_at parser_type_das n) i;
}

-- One stored block, then the rest.
module _ (env : Env) (p q : Parser) (k : ℕ) (b : Block) (o : Result Error Unit × Parser)
    (got : env.get_block p.current_block_number ≡ ok b)
    (i : q.db.block_infos ≡ upsert (row_of p.current_block_number b) p.db.block_infos)
    (c : q.current_block_number ≡ p.current_block_number + 1) (r : Progress env q k o) where
  row_after :
      (n : ℕ)
      → stored q n ≡ (
          if n == p.current_block_number
          then some (row_of p.current_block_number b)
          else stored p n)
  row_after n =
      ap (block_at parser_type_das n) i
      ∙ block_at-upsert (row_of p.current_block_number b) n p.db.block_infos

  block_after :
      (n : ℕ)
      → n < suc r.count
      → (b' : Block) × (env.get_block (p.current_block_number + n) ≡ ok b')
        × (stored o.1 (p.current_block_number + n) ≡ some (row_of (p.current_block_number + n) b'))
  block_after zero lt =
      let here : p.current_block_number ≡ p.current_block_number + 0 = omega arith in
      subst (λ m. (b' : Block) × (env.get_block m ≡ ok b') × (stored o.1 m ≡ some (row_of m b')))
        here
        (
          b,
          got,
          r.others p.current_block_number (inl (omega arith))
              ∙ ground (arith, row_after p.current_block_number),
        )
  block_after (suc n) lt =
      let there : q.current_block_number + n ≡ p.current_block_number + suc n = omega arith in
      subst (λ m. (b' : Block) × (env.get_block m ≡ ok b') × (stored o.1 m ≡ some (row_of m b')))
        there (r.blocks n (omega arith))

  more-Progress : Progress env p (suc k) o
  more-Progress = record {
    count = suc r.count;
    bounded = omega (arith, r.bounded);
    current = omega (arith, r.current);
    complete = λ fine. ap suc (r.complete fine);
    blocks = block_after;
    others = λ n out. r.others n (omega arith) ∙ ground (arith, row_after n);
  }

after-failure :
    (env : Env) (p q : Parser) (k : ℕ) (e : Error)
    → Round env p (err e, q)
    → Progress env p k (err e, q)
after-failure env p q k e (halted _ _ i c) =
    nothing-Progress env p k (err e, q) i c (λ fine. absurd fine)
after-failure env p q k e (passed b fine got i c) = absurd fine

after-success :
    (env : Env) (p q : Parser) (k : ℕ) (u : Unit)
    → p.current_block_number + suc k < 2 ^ 64
    → Round env p (ok u, q)
    → (q.current_block_number + k < 2 ^ 64 → Progress env q k (concurrency_rounds k env q))
    → Progress env p (suc k) (concurrency_rounds k env q)
after-success env p q k u room (halted e failed i c) rest = cc
after-success env p q k u room (passed b fine got i c) rest =
    let next : q.current_block_number ≡ p.current_block_number + 1 = omega arith in
    more-Progress env p q k b (concurrency_rounds k env q) got i next (rest (omega arith))

-- Whatever the node and the database answer, the loop of parserConcurrencyMode gets and stores the
-- blocks from the parser's number on one after another, up to the one that fails or to the last,
-- leaves the parser above the last stored one, and changes no other row.
pub concurrency_rounds-Progress :
    (k : ℕ) (env : Env) (p : Parser)
    → p.current_block_number + k < 2 ^ 64
    → Progress env p k (concurrency_rounds k env p)
unfolding concurrency_rounds
concurrency_rounds-Progress zero env p room =
    nothing-Progress env p 0 (ok tt, p) refl refl (λ _. refl)
concurrency_rounds-Progress (suc k) env p room =
    bind-cases (Progress env p (suc k)) (concurrency_round env) (λ _. concurrency_rounds k env) p
      (λ e q h. after-failure env p q (suc k) e (subst (Round env p) h (got-Round env p _ refl)))
      (λ u q h.
        after-success env p q k u room (subst (Round env p) h (got-Round env p _ refl))
          (concurrency_rounds-Progress k env q))
