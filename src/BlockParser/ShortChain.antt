-- ===== src/BlockParser/ShortChain.antt =====
-- The loop of Run on a chain shorter than confirm_num: the difference of the two wraps around.
use das_multi_device.Prelude.{
  ℕ, zero, suc, ◌+◌, ◌≤◌, ◌<◌, ◌^◌, ◌≡◌, refl, sym, ◌∙◌, ap, subst, arith,
}
use das_multi_device.Outcome.{ok}
use das_multi_device.BlockParser.{Block, Env, Parser, parser_sub_mode, run_round}
use das_multi_device.BlockParser.Healthy.{Healthy, IsQuiet, Joins}
use das_multi_device.BlockParser.Recovery.{sub_rounds, Replayed, replay}
use das_multi_device.BlockParser.CatchUp.{rounds, sub_rounds-Settings}

module _ (env : Env) (tip confirm : ℕ) (known : env.get_tip ≡ ok tip) (short : tip < confirm)
    (small : confirm < 2 ^ 64) where
  run_round_short :
      (p : Parser)
      → p.concurrency_num ≤ 1
      → p.confirm_num ≡ confirm
      → p.current_block_number ≤ tip
      → run_round env p ≡ (parser_sub_mode env p).1
  unfolding run_round
  run_round_short p one limit low = ground arith

  module _ (chain : ℕ → Block) (h : Healthy env chain)
      (linked : (n : ℕ) → (chain (n + 1)).parent_hash ≡ (chain n).hash) (p : Parser)
      (quiet : IsQuiet p) (one : p.concurrency_num ≤ 1) (limit : p.confirm_num ≡ confirm)
      (low : 20 ≤ p.current_block_number) (joins : Joins p (chain p.current_block_number)) where
    started : Replayed chain p.current_block_number 0 p
    started =
        let no_rounds : p.current_block_number ≡ p.current_block_number + 0 = omega arith in
        record {
          quiet = quiet;
          current = no_rounds;
          joins = subst (λ m. Joins p (chain m)) no_rounds joins;
          rows = λ k lo hi. absurd (omega arith);
        }

    after_rounds :
        (n : ℕ)
        → p.current_block_number + n ≤ tip + 1
        → Replayed chain p.current_block_number n (sub_rounds n env p)
    after_rounds n room =
        replay env chain h linked p.current_block_number n p low (omega arith) started

    rounds-sub_rounds :
        (n : ℕ) → p.current_block_number + n ≤ tip + 1 → rounds n env p ≡ sub_rounds n env p
    unfolding rounds sub_rounds
    rounds-sub_rounds zero room = refl
    rounds-sub_rounds (suc n) room =
        let r = after_rounds n (omega arith) in
        let (c, f) = sub_rounds-Settings p.concurrency_num p.confirm_num n env p (refl, refl) in
        ap (run_round env) (rounds-sub_rounds n (omega arith))
        ∙ run_round_short (sub_rounds n env p) (omega (arith, c)) (f ∙ limit)
            (omega (arith, r.current))

    -- While the node serves one linked chain with one tip below confirm_num, so that no block has
    -- confirm_num confirmations, the key-list contract is known and no statement fails, a parser without
    -- concurrency, from number 20 on, that joins its stored row: n rounds of the loop of Run take it
    -- through the next n blocks, as far as the tip, and store them with their hashes, but for those that
    -- lie more than 20 blocks back and were dropped.
    pub rounds-short_chain :
        (n : ℕ)
        → p.current_block_number + n ≤ tip + 1
        → Replayed chain p.current_block_number n (rounds n env p)
    rounds-short_chain n room =
        subst (Replayed chain p.current_block_number n) (sym (rounds-sub_rounds n room))
          (after_rounds n room)
