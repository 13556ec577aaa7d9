-- ===== src/BlockParser/Tip.antt =====
-- How far a round of the loop in Run lets the parser go.
use das_multi_device.Prelude.{ℕ, ◌+◌, ◌-◌, ◌≤◌, ◌<◌, ◌^◌, ◌≡◌, arith}
use das_multi_device.Outcome.{Error, Result, ok}
use das_multi_device.Outcome.Keeps.{bind-cases}
use das_multi_device.BlockParser.{
  Env, Parser, prune, concurrency_rounds, parser_concurrency_mode, run_round,
}
use das_multi_device.BlockParser.Moves.{Move, stay, back, forward, sub_mode-Move, prune_drops}
use das_multi_device.BlockParser.Concurrency.{concurrency_rounds-Progress}

-- `q` stands at most `n` above `p`.
abbrev Within : ℕ → Parser → Parser → Type 0
Within n p q = q.current_block_number ≤ p.current_block_number + n

concurrency_mode-Within :
    (env : Env) (p : Parser)
    → p.current_block_number + p.concurrency_num < 2 ^ 64
    → Within p.concurrency_num p (parser_concurrency_mode env p).1
unfolding parser_concurrency_mode
concurrency_mode-Within env p room =
    let r = concurrency_rounds-Progress p.concurrency_num env p room in
    bind-cases (λ o. Within p.concurrency_num p o.1) (concurrency_rounds p.concurrency_num env)
      (λ _. prune) p (λ e q h. ground (arith, r.current, r.bounded))
      (λ u q h. ground (arith, r.current, r.bounded, (prune_drops q).0))

Move-Within :
    (env : Env) (p : Parser) (o : Result Error Unit × Parser)
    → 0 < p.current_block_number
    → p.current_block_number < 2 ^ 64
    → Move env p o
    → Within 1 p o.1
Move-Within env p o low high (stay e failed i c) = omega arith
Move-Within env p o low high (back b r got found apart i c) = omega arith
Move-Within env p o low high (forward b got joins w c) = omega arith

-- If the tip is at least confirm_num + concurrency_num, a parser that stands above 0 and at most
-- confirm_num below the tip still does so after a round of the loop, in either mode, whatever fails:
-- it moves into no block with fewer confirmations.
pub run_round-confirmed :
    (env : Env) (p : Parser) (tip : ℕ)
    → env.get_tip ≡ ok tip
    → tip < 2 ^ 64
    → p.confirm_num + p.concurrency_num ≤ tip
    → 0 < p.current_block_number
    → p.current_block_number ≤ tip - p.confirm_num
    → (run_round env p).current_block_number ≤ tip - p.confirm_num
unfolding run_round
run_round-confirmed env p tip known small enough low high =
    let near = Move-Within env p _ low (omega arith) (sub_mode-Move env p) in
    ground (arith, near, concurrency_mode-Within env p)
