-- ===== src/Startup/Restart.antt =====
-- cmd/main.go, initTimer, after a run of block_parser/block_parser.go: a service that starts again goes on
-- where its parser was.
use das_multi_device.Prelude.{ℕ, ◌+◌, ◌<◌, ◌^◌, ◌≡◌, some, [], arith}
use das_multi_device.Outcome.{ok}
use das_multi_device.BlockParser
use das_multi_device.BlockParser.{Parser, concurrency_rounds}
use das_multi_device.BlockParser.Restart.{IsAtTop, start-concurrency_rounds}
use das_multi_device.Startup.{Answers, Process, new_parser, started, init_timer}

-- A parser that stands right above the highest stored row runs the loop of parserConcurrencyMode, however
-- far it gets, whatever the node and the database answer, while the numbers stay below 2^64. When the
-- service then ends, and initTimer of a new process makes a new parser over the database that the first
-- one left, with any configuration, the new parser goes on at the number that the first one had reached,
-- whatever number is configured, and is otherwise as new, if the node tells its tip and no statement fails
-- at the start.
pub init_timer-concurrency_rounds :
    (k : ℕ) (env : BlockParser.Env) (p : Parser) (a : Answers) (process : Process) (tip : ℕ)
    → IsAtTop p
    → p.current_block_number + k < 2 ^ 64
    → a.parser_env.get_tip ≡ ok tip
    → process.db ≡ (concurrency_rounds k env p).1.db
    → process.db.faults ≡ []
    → init_timer a process ≡ (
      ok tt,
      record process {
        parser = some (record (new_parser process) {
          current_block_number = (concurrency_rounds k env p).1.current_block_number;
        });
        waiting = process.waiting + 1;
      },
    )
unfolding init_timer started new_parser
init_timer-concurrency_rounds k env p a process tip at room got left fine = ground (
  arith,
  left,
  start-concurrency_rounds k env p (new_parser process) a.parser_env tip at room got,
)
