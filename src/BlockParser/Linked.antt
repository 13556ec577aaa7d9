-- ===== src/BlockParser/Linked.antt =====
-- The stored blocks below the parser form a chain: fork detection in parserSubMode.
use das_multi_device.Prelude.{
  ℕ, ◌+◌, ◌-◌, ◌≤◌, ◌<◌, ◌^◌, ◌≡◌, ◌≢◌, sym, ◌∙◌, ap, ◌⊎◌, inl, inr, some, arith, add64, sub64,
  dec_lt,
}
use das_multi_device.Outcome.{Error, Result, ok}
use das_multi_device.Dao.{BlockInfo, parser_type_das}
use das_multi_device.Dao.BlockInfos.{block_at, upsert, block_at-upsert, block_at-without_below}
use das_multi_device.BlockParser.{Block, Env, Parser, parser_sub_mode}
use das_multi_device.BlockParser.Moves.{
  stored, row_of, WithBlock, Move, stay, back, forward, sub_mode-Move,
}

-- What a lookup finds after a block is stored: the new row, or an older one.
pub lookup-WithBlock :
    (p q : Parser) (b : Block) (k : ℕ) (r : BlockInfo)
    → WithBlock p b q
    → stored q k ≡ some r
    → ((k ≡ p.current_block_number) × (r ≡ row_of p.current_block_number b))
      ⊎ ((k ≢ p.current_block_number) × (stored p k ≡ some r))
lookup-WithBlock p q b k r (inl e) f =
    ground (arith, block_at-upsert (row_of p.current_block_number b) k p.db.block_infos)
lookup-WithBlock p q b k r (inr e) f = ground (
  arith,
  block_at-upsert (row_of p.current_block_number b) k p.db.block_infos,
  block_at-without_below parser_type_das k (sub64 (add64 p.current_block_number 1) 20)
      (upsert (row_of p.current_block_number b) p.db.block_infos),
)

-- Each stored block below the parser names the stored block under it as its parent, and the last
-- number of a uint64 is unused.
pub record IsLinked (p : Parser) : Type 0 where
  pub below : p.current_block_number < 2 ^ 64
  pub last : (r : BlockInfo) → stored p (2 ^ 64 - 1) ≢ some r
  pub linked :
      (k : ℕ) (r s : BlockInfo)
      → k + 1 < p.current_block_number
      → stored p k ≡ some r
      → stored p (k + 1) ≡ some s
      → s.parent_hash ≡ r.block_hash

-- With the same rows, a parser that stands no higher is linked.
shrink-IsLinked :
    (p q : Parser)
    → IsLinked p
    → q.db.block_infos ≡ p.db.block_infos
    → q.current_block_number ≤ p.current_block_number
    → IsLinked q
shrink-IsLinked p q l i c =
    let same : (k : ℕ) → stored q k ≡ stored p k = λ k. ap (block_at parser_type_das k) i in
    record {
      below = omega (arith, l.below);
      last = λ r f. l.last r (sym (same _) ∙ f);
      linked =
          λ k r s lt fr fs. l.linked k r s (omega arith) (sym (same _) ∙ fr) (sym (same _) ∙ fs);
    }

module _ (p q : Parser) (b : Block) (l : IsLinked p) where
  abbrev cur : ℕ
  cur = p.current_block_number

  abbrev Joins : Type 0
  Joins = (r : BlockInfo) → stored p (sub64 cur 1) ≡ some r → r.block_hash ≡ b.parent_hash

  forward-linked :
      (k : ℕ) (r s : BlockInfo)
      → Joins
      → WithBlock p b q
      → k < cur
      → stored q k ≡ some r
      → stored q (k + 1) ≡ some s
      → s.parent_hash ≡ r.block_hash
  forward-linked k r s joins w lt fr fs = elim (lookup-WithBlock p q b k r w fr) [
    | inl (here, _) ↦ absurd (omega arith)
    | inr (_, old) ↦ elim (lookup-WithBlock p q b (k + 1) s w fs) [
      | inl (top, new) ↦
          ap (λ (x : BlockInfo). x.parent_hash) new
          ∙ sym (joins r (ap (stored p) (omega (arith, l.below)) ∙ old))
      | inr (under, older) ↦ l.linked k r s (omega arith) old older
    ]
  ]

  forward-last :
      cur + 1 < 2 ^ 64 → WithBlock p b q → (r : BlockInfo) → stored q (2 ^ 64 - 1) ≢ some r
  forward-last room w r f = elim (lookup-WithBlock p q b (2 ^ 64 - 1) r w f) [
    | inl (here, _) ↦ omega arith
    | inr (_, old) ↦ l.last r old
  ]

module _ (env : Env) (p : Parser) (o : Result Error Unit × Parser)
    (ends : (b : Block) → env.get_block (2 ^ 64 - 1) ≢ ok b) where
  -- A block that the node has leaves room for the next number.
  room :
      (b : Block)
      → p.current_block_number < 2 ^ 64
      → env.get_block p.current_block_number ≡ ok b
      → p.current_block_number + 1 < 2 ^ 64
  room b below got = elim (dec_lt (p.current_block_number + 1) (2 ^ 64)) [
    | yes h ↦ h
    | no h ↦ absurd (ends b (ap env.get_block (omega arith) ∙ got))
  ]

  above_zero :
      (r : BlockInfo)
      → IsLinked p
      → stored p (sub64 p.current_block_number 1) ≡ some r
      → 0 < p.current_block_number
  above_zero r l found = elim (dec_lt 0 p.current_block_number) [
    | yes h ↦ h
    | no h ↦ absurd (l.last r (ap (stored p) (omega arith) ∙ found))
  ]

  Move-IsLinked : Move env p o → IsLinked p → IsLinked o.1
  Move-IsLinked (stay e failed i c) l = shrink-IsLinked p o.1 l i (omega arith)
  Move-IsLinked (back b r got found apart i c) l =
      shrink-IsLinked p o.1 l i (omega (arith, above_zero r l found, l.below))
  Move-IsLinked (forward b got joins w c) l =
      let above = room b l.below got in
      record {
        below = omega arith;
        last = forward-last p o.1 b l above w;
        linked = λ k r s lt. forward-linked p o.1 b l k r s joins w (omega arith);
      }

-- A round of parserSubMode keeps the stored blocks below the parser linked, whatever the node and the
-- database answer, if the node has no block with the last number of a uint64.
pub sub_mode-IsLinked :
    (env : Env) (p : Parser)
    → ((b : Block) → env.get_block (2 ^ 64 - 1) ≢ ok b)
    → IsLinked p
    → IsLinked (parser_sub_mode env p).1
sub_mode-IsLinked env p ends l = Move-IsLinked env p _ ends (sub_mode-Move env p) l
