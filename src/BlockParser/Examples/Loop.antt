-- ===== src/BlockParser/Examples/Loop.antt =====
-- The loop of Run on a concrete chain.
use das_multi_device.Prelude.{◌+◌, refl, arith}
use das_multi_device.Outcome.{ok}
use das_multi_device.Dao.BlockInfos.{block_at}
use das_multi_device.BlockParser.Recovery.{Replayed}
use das_multi_device.BlockParser.Restart.{IsAtTop}
use das_multi_device.BlockParser.CatchUp.{rounds, rounds-caught_up}
use das_multi_device.BlockParser
use das_multi_device.BlockParser.{Parser}
use das_multi_device.BlockParser.ShortChain.{rounds-short_chain}
use das_multi_device.BlockParser.Examples.{
  env, same_type, chain, healthy, chain-linked, linked_parser, high_parser,
}

pub linked_parser-IsAtTop : IsAtTop linked_parser
unfolding block_at
linked_parser-IsAtTop = record {
  above = omega arith;
  below = omega arith;
  top = λ e. cc e;
  highest = λ n s f. ground arith;
}

-- From 25 on, the parser waits at 36, four blocks below the tip.
rounds-caught_up_example : Replayed chain 25 11 (rounds (3 + 11) env high_parser)
unfolding block_at
rounds-caught_up_example =
    rounds-caught_up env 40 refl (omega arith) chain healthy chain-linked high_parser refl
      (omega arith) (omega arith) (omega arith) (λ r e. ground arith) 11 3 (omega arith)

-- A chain of 30 blocks, and a parser that wants a hundred confirmations.
abbrev short_chain : BlockParser.Env
short_chain = record env { get_tip = ok 30 }

abbrev careful_parser : Parser
careful_parser = record high_parser { confirm_num = 100 }

rounds-short_chain_example : Replayed chain 25 6 (rounds 6 short_chain careful_parser)
unfolding block_at
rounds-short_chain_example =
    rounds-short_chain short_chain 30 100 refl (omega arith) (omega arith) chain
      (record { blocks = λ n. refl; same_type = same_type; contract = refl }) chain-linked
      careful_parser refl (omega arith) refl (omega arith) (λ r e. ground arith) 6 (omega arith)
