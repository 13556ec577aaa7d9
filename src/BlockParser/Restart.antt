-- ===== src/BlockParser/Restart.antt =====
-- block_parser/block_parser.go, initCurrentBlockNumber: a parser that starts again goes on where it was.
use das_multi_device.Prelude.{
  ℕ, ◌+◌, ◌-◌, ◌≤◌, ◌<◌, ◌^◌, ◌≡◌, refl, subst, sym, ◌∙◌, ap, ◌⊎◌, inl, inr, ◌≢◌, Option, none,
  some, List, [], ◌∷◌, arith, find_first, dec_lt,
}
use das_multi_device.Outcome.{Error, Result, ok}
use das_multi_device.Dao.{BlockInfo, parser_type_das, query, statement}
use das_multi_device.Dao.BlockInfos.{block_at, latest, later, find_block_info}
use das_multi_device.BlockParser.{
  Env, Parser, concurrency_rounds, init_current_block_number, chosen, start,
}
use das_multi_device.BlockParser.Moves.{stored}
use das_multi_device.BlockParser.Concurrency.{Progress, concurrency_rounds-Progress}

abbrev Covers : ℕ → Option BlockInfo → Type 0
Covers k none = ⊥
Covers k (some m) = k ≤ m.block_number

Covers-later :
    (k : ℕ) (r : BlockInfo) (o : Option BlockInfo)
    → (k ≡ r.block_number) ⊎ Covers k o
    → k ≤ (later r o).block_number
unfolding later
Covers-later k r none h = ground arith
Covers-later k r (some m) h = ground arith

-- A row that a lookup by number finds is not above the one that FindBlockInfo finds.
latest-Covers :
    (t k : ℕ) (rows : List BlockInfo) (s : BlockInfo)
    → block_at t k rows ≡ some s
    → Covers k (latest t rows)
unfolding block_at find_first latest
latest-Covers t k [] s h = ground arith
latest-Covers t k (r ∷ rows) s h =
    ground (arith, latest-Covers t k rows s, Covers-later k r (latest t rows))

abbrev Found : ℕ → List BlockInfo → Option BlockInfo → Type 0
Found t rows none = Unit
Found t rows (some m) = block_at t m.block_number rows ≢ none

Found-later :
    (t : ℕ) (r : BlockInfo) (rows : List BlockInfo) (o : Option BlockInfo)
    → r.parser_type ≡ t
    → Found t rows o
    → Found t (r ∷ rows) (some (later r o))
unfolding later block_at find_first
Found-later t r rows none e h = ground arith
Found-later t r rows (some m) e h = ground arith

Found-below :
    (t : ℕ) (r : BlockInfo) (rows : List BlockInfo) (o : Option BlockInfo)
    → r.parser_type ≢ t
    → Found t rows o
    → Found t (r ∷ rows) o
unfolding block_at find_first
Found-below t r rows none e h = tt
Found-below t r rows (some m) e h = ground arith

-- A lookup by its number finds a row where FindBlockInfo found one.
latest-Found : (t : ℕ) (rows : List BlockInfo) → Found t rows (latest t rows)
unfolding latest
latest-Found t [] = tt
latest-Found t (r ∷ rows) = ground (
  arith,
  latest-Found t rows,
  Found-later t r rows (latest t rows),
  Found-below t r rows (latest t rows),
)

-- The parser stands right above the highest stored row.
pub record IsAtTop (p : Parser) : Type 0 where
  pub above : 0 < p.current_block_number
  pub below : p.current_block_number < 2 ^ 64
  pub top : stored p (p.current_block_number - 1) ≢ none
  pub highest : (n : ℕ) (s : BlockInfo) → stored p n ≡ some s → n < p.current_block_number

a_row : (o : Option BlockInfo) → o ≢ none → (s : BlockInfo) × (o ≡ some s)
a_row none h = absurd (h refl)
a_row (some s) h = (s, refl)

highest_row :
    (p : Parser) (o : Option BlockInfo)
    → IsAtTop p
    → latest parser_type_das p.db.block_infos ≡ o
    → (m : BlockInfo) × (o ≡ some m) × (m.block_number + 1 ≡ p.current_block_number)
highest_row p none at e =
    let (s, found) = a_row _ at.top in
    absurd (
      subst (Covers (p.current_block_number - 1)) e
        (latest-Covers parser_type_das _ p.db.block_infos s found))
highest_row p (some m) at e =
    let (s, found) = a_row _ at.top in
    let (r, own) = a_row _ (
      subst (Found parser_type_das p.db.block_infos) e
        (latest-Found parser_type_das p.db.block_infos)) in
    let low : p.current_block_number - 1 ≤ m.block_number =
      subst (Covers (p.current_block_number - 1)) e
        (latest-Covers parser_type_das _ p.db.block_infos s found) in
    let high = at.highest m.block_number r own in (m, refl, omega (arith, at.above))

-- A new parser `q` over the database of one that stood right above the highest row takes up its number.
start-IsAtTop :
    (env : Env) (p q : Parser) (tip : ℕ)
    → env.get_tip ≡ ok tip
    → p.db.faults ≡ []
    → IsAtTop p
    → start env (record q { db = p.db })
      ≡ (ok tt, record q { db = p.db; current_block_number = p.current_block_number })
unfolding start init_current_block_number chosen find_block_info query statement
start-IsAtTop env p q tip got fine at =
    let (m, found, next) = highest_row p _ at refl in ground (arith, at.below)

module _ (env : Env) (p : Parser) (k : ℕ) (o : Result Error Unit × Parser)
    (room : p.current_block_number + k < 2 ^ 64) (done : Progress env p k o) (at : IsAtTop p) where
  top_after : stored o.1 (o.1.current_block_number - 1) ≢ none
  top_after = elim (dec_lt 0 done.count) [
    | yes some_block ↦
        let (b, got, row) = done.blocks (done.count - 1) (omega arith) in
        let last : p.current_block_number + (done.count - 1) ≡ o.1.current_block_number - 1 =
          omega (arith, done.current) in
        λ gone. let clash = sym row ∙ ap (stored o.1) last ∙ gone in cc
    | no no_block ↦
        let last : o.1.current_block_number - 1 ≡ p.current_block_number - 1 =
          omega (arith, done.current) in
        λ gone.
          at.top (
            sym (done.others _ (inl (omega (arith, at.above)))) ∙ ap (stored o.1) (sym last) ∙ gone)
  ]

  highest_after : (n : ℕ) (s : BlockInfo) → stored o.1 n ≡ some s → n < o.1.current_block_number
  highest_after n s f = elim (dec_lt n o.1.current_block_number) [
    | yes h ↦ h
    | no h ↦
        let old = at.highest n s (sym (done.others n (inr (omega (arith, done.current)))) ∙ f) in
        omega (arith, done.current)
  ]

  Progress-IsAtTop : IsAtTop o.1
  Progress-IsAtTop = record {
    above = omega (arith, done.current, at.above);
    below = omega (arith, done.current, done.bounded);
    top = top_after;
    highest = highest_after;
  }

-- The same after a loop of parserConcurrencyMode, however far it got.
pub start-concurrency_rounds :
    (k : ℕ) (env : Env) (p q : Parser) (restarted : Env) (tip : ℕ)
    → IsAtTop p
    → p.current_block_number + k < 2 ^ 64
    → restarted.get_tip ≡ ok tip
    → (concurrency_rounds k env p).1.db.faults ≡ []
    → start restarted (record q { db = (concurrency_rounds k env p).1.db }) ≡ (
      ok tt,
      record q {
        db = (concurrency_rounds k env p).1.db;
        current_block_number = (concurrency_rounds k env p).1.current_block_number;
      },
    )
start-concurrency_rounds k env p q restarted tip at room got fine =
    start-IsAtTop restarted (concurrency_rounds k env p).1 q tip got fine
      (Progress-IsAtTop env p k _ room (concurrency_rounds-Progress k env p room) at)
