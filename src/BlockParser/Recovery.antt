-- ===== src/BlockParser/Recovery.antt =====
-- Rounds of parserSubMode after a reorganisation of the chain: back over the stale blocks, and
-- forward again over the new ones.
use das_multi_device.Prelude.{
  ℕ, zero, suc, ◌+◌, ◌-◌, ◌≤◌, ◌<◌, ◌^◌, ◌≡◌, ◌≢◌, sym, ◌∙◌, ap, subst, none, some, arith, ltb,
  ◌==◌, if◌then◌else◌, add64, sub64,
}
use das_multi_device.Dao.{BlockInfo, parser_type_das}
use das_multi_device.Dao.BlockInfos.{block_at, upsert, block_at-upsert, block_at-without_below}
use das_multi_device.BlockParser.{Block, Env, Parser, parser_sub_mode}
use das_multi_device.BlockParser.Moves.{stored, row_of}
use das_multi_device.BlockParser.Healthy.{Healthy, IsQuiet, Stored, Joins, sub_mode_forward}

unfoldable pub sub_rounds : ℕ → Env → Parser → Parser
sub_rounds zero env p = p
sub_rounds (suc n) env p = (parser_sub_mode env (sub_rounds n env p)).1

-- A lookup after a block was stored and old rows were dropped.
pub lookup-Stored :
    (p s : Parser) (b : Block) (k : ℕ)
    → Stored p b s
    → stored s k ≡ (
        if ltb k (sub64 (add64 p.current_block_number 1) 20)
        then none
        else if k == p.current_block_number
        then some (row_of p.current_block_number b)
        else stored p k)
lookup-Stored p s b k st =
    ap (block_at parser_type_das k) st.1
    ∙ block_at-without_below parser_type_das k (sub64 (add64 p.current_block_number 1) 20)
        (upsert (row_of p.current_block_number b) p.db.block_infos)
    ∙ ap (λ o. if ltb k (sub64 (add64 p.current_block_number 1) 20) then none else o)
        (block_at-upsert (row_of p.current_block_number b) k p.db.block_infos)

-- What `n` rounds from number `from` leave: the new blocks are stored, but for those that lie more
-- than 20 blocks back.
pub record Replayed (chain : ℕ → Block) (from n : ℕ) (q : Parser) : Type 0 where
  pub quiet : IsQuiet q
  pub current : q.current_block_number ≡ from + n
  pub joins : Joins q (chain (from + n))
  pub rows :
      (k : ℕ)
      → from ≤ k
      → k < from + n
      → stored q k ≡ (if ltb k (from + n - 20) then none else some (row_of k (chain k)))

module _ (env : Env) (chain : ℕ → Block) (h : Healthy env chain) where
  lookup_new :
      (q s : Parser) (top : ℕ)
      → 20 ≤ top
      → top + 1 < 2 ^ 64
      → q.current_block_number ≡ top
      → Stored q (chain q.current_block_number) s
      → (k : ℕ)
      → stored s k ≡ (
          if ltb k (top + 1 - 20)
          then none
          else if k == top
          then some (row_of top (chain top))
          else stored q k)
  lookup_new q s top low high at st k =
      let bound : sub64 (add64 top 1) 20 ≡ top + 1 - 20 = omega arith in
      subst
        (λ m. stored s k ≡ (
          if ltb k m then none else if k == top then some (row_of top (chain top)) else stored q k))
        bound
        (subst
          (λ m. stored s k ≡ (
            if ltb k (sub64 (add64 m 1) 20)
            then none
            else if k == m
            then some (row_of m (chain m))
            else stored q k))
          at (lookup-Stored q s (chain q.current_block_number) k st))

  new_joins :
      ((n : ℕ) → (chain (n + 1)).parent_hash ≡ (chain n).hash)
      → (top : ℕ) (q s : Parser) (x : BlockInfo)
      → stored s top ≡ (
          if ltb top (top + 1 - 20)
          then none
          else if top == top
          then some (row_of top (chain top))
          else stored q top)
      → stored s top ≡ some x
      → x.block_hash ≡ (chain (top + 1)).parent_hash
  new_joins linked top q s x look f = ground (arith, linked top)

  Replayed-round :
      ((n : ℕ) → (chain (n + 1)).parent_hash ≡ (chain n).hash)
      → (from n : ℕ) (q : Parser) → 20 ≤ from
      → from + n + 1 < 2 ^ 64
      → Replayed chain from n q
      → Replayed chain from (suc n) (parser_sub_mode env q).1
  Replayed-round linked from n q low high r =
      let st : Stored q (chain q.current_block_number) (parser_sub_mode env q).1 =
        sub_mode_forward env chain h q r.quiet
          (subst (λ m. Joins q (chain m)) (sym r.current) r.joins) in
      let look = lookup_new q (parser_sub_mode env q).1 (from + n) low' high r.current st in
      record {
        quiet = st.0;
        current = omega (arith, st.2, r.current);
        joins = λ x f.
            subst (λ m. x.block_hash ≡ (chain m).parent_hash) from_suc
              (new_joins linked (from + n) q (parser_sub_mode env q).1 x (look (from + n))
                (sym (at_new st) ∙ f));
        rows = λ k lo hi. ground (arith, look k, r.rows k);
      }
    where
      low' : 20 ≤ from + n
      low' = omega arith

      from_suc : from + n + 1 ≡ from + suc n
      from_suc = omega arith

      at_new :
          Stored q (chain q.current_block_number) (parser_sub_mode env q).1
          → stored
              (parser_sub_mode env q).1
              (sub64 (parser_sub_mode env q).1.current_block_number 1)
            ≡ stored (parser_sub_mode env q).1 (from + n)
      at_new st = ap (stored (parser_sub_mode env q).1) (omega (arith, st.2, r.current))

  pub replay :
      ((n : ℕ) → (chain (n + 1)).parent_hash ≡ (chain n).hash)
      → (from n : ℕ) (q : Parser) → 20 ≤ from
      → from + n < 2 ^ 64
      → Replayed chain from 0 q
      → Replayed chain from n (sub_rounds n env q)
  unfolding sub_rounds
  replay linked from zero q low high r = r
  replay linked from (suc n) q low high r =
      Replayed-round linked from n (sub_rounds n env q) low (omega arith)
        (replay linked from n q low (omega arith) r)

  -- The stale rows: each of the `d` rows below the parser is there, and is not the parent of the
  -- block above it.
  abbrev Stale : Parser → ℕ → Type 0
  Stale p d =
      (k : ℕ)
      → k < d
      → (r : BlockInfo) × (stored p (p.current_block_number - k - 1) ≡ some r)
        × (r.block_hash ≢ (chain (p.current_block_number - k)).parent_hash)

  abbrev lowered : Parser → ℕ → Parser
  lowered p d = record p { current_block_number = p.current_block_number - d }
