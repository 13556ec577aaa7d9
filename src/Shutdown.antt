-- ===== src/Shutdown.antt =====
-- cmd/main.go, block_parser/block_parser.go and timer/timer.go: the loops of the service and its wait
-- group, from their start to the end of wgServer.Wait().
--
-- A turn is one pass of a loop's select. That of Run in block_parser takes ctx.Done() when it can; that
-- of Run in timer may take its ticker while ctx.Done() is ready too, so its two cases are two turns. A panic of the
-- libraries, which ends a loop through RecoverPanic, is left out, as are the requests of the http servers.
pub mod Examples
use das_multi_device.Prelude.{
  ℕ, ◌+◌, ◌-◌, ◌≤◌, ◌<◌, Bool, true, false, ◌&&◌, List, [], ◌∷◌, ◌++◌, ◌≡◌, refl, sym, subst, ◌∙◌,
  arith, if◌then◌else◌,
}
use das_multi_device.BlockParser
use das_multi_device.BlockParser.{Parser, run_round}
use das_multi_device.Timer
use das_multi_device.Timer.{check_rejected}

-- `waiting` is the counter of wgServer, `cancelled` is ctxServer.Done().
pub record Service : Type 0 where
  pub parser : Parser
  pub cancelled : Bool
  pub waiting : ℕ
  pub parser_loop : Bool
  pub timer_loop : Bool

pub data Turn : Type 0 where
  parser_turn : BlockParser.Env → Turn
  timer_tick : Timer.Env → Turn
  timer_done : Turn
  cancel : Turn

-- b.Wg.Add(1); go func() ...
unfoldable pub start_parser : Service → Service
start_parser s = record s { parser_loop = true; waiting = s.waiting + 1 }

-- t.wg.Add(5); go func() ...
unfoldable pub start_timer : Service → Service
start_timer s = record s { timer_loop = true; waiting = s.waiting + 5 }

parser_pass : BlockParser.Env → Service → Service
parser_pass env s =
    if s.cancelled
    then record s { parser_loop = false; waiting = s.waiting - 1 }
    else record s { parser = run_round env s.parser }

unfoldable pub turn : Turn → Service → Service
unfolding parser_pass
turn (parser_turn env) s = if s.parser_loop then parser_pass env s else s
turn (timer_tick env) s =
    if s.timer_loop
    then record s { parser = record s.parser { db = (check_rejected env s.parser.db).1 } }
    else s
turn timer_done s =
    if s.timer_loop && s.cancelled
    then record s { timer_loop = false; waiting = s.waiting - 1 }
    else s
turn cancel s = record s { cancelled = true }

unfoldable pub turns : List Turn → Service → Service
unfolding turn
turns [] s = s
turns (t ∷ ts) s = turns ts (turn t s)

turns-append : (ts us : List Turn) (s : Service) → turns (ts ++ us) s ≡ turns us (turns ts s)
unfolding turns
turns-append [] us s = refl
turns-append (t ∷ ts) us s = turns-append ts us (turn t s)

abbrev pub loops : Bool → ℕ
loops runs = if runs then 1 else 0

-- After the cancellation: the parser is p, and the wait group counts its loop beside `others`.
record Stopping (p : Parser) (others : ℕ) (s : Service) : Type 0 where
  cancelled : s.cancelled ≡ true
  same : s.parser ≡ p
  no_timer : s.timer_loop ≡ false
  counts : s.waiting ≡ others + loops s.parser_loop

module _ (p : Parser) (others : ℕ) where
  turn-Stopping : (t : Turn) (s : Service) → Stopping p others s → Stopping p others (turn t s)
  unfolding turn
  turn-Stopping (parser_turn env) s h = ground arith
  turn-Stopping (timer_tick env) s h = ground arith
  turn-Stopping timer_done s h = ground arith
  turn-Stopping cancel s h = ground arith

  turns-Stopping :
      (ts : List Turn) (s : Service) → Stopping p others s → Stopping p others (turns ts s)
  unfolding turns
  turns-Stopping [] s h = h
  turns-Stopping (t ∷ ts) s h = turns-Stopping ts (turn t s) (turn-Stopping t s h)

turns-ended :
    (ts : List Turn) (s : Service) → s.parser_loop ≡ false → (turns ts s).parser_loop ≡ false
unfolding turns turn
turns-ended [] s h = h
turns-ended (parser_turn env ∷ ts) s h = turns-ended ts _ (ground arith)
turns-ended (timer_tick env ∷ ts) s h = turns-ended ts _ (ground arith)
turns-ended (timer_done ∷ ts) s h = turns-ended ts _ (ground arith)
turns-ended (cancel ∷ ts) s h = turns-ended ts _ h

-- A pass of the parser after the cancellation ends its loop.
turn-ended :
    (env : BlockParser.Env) (s : Service)
    → s.cancelled ≡ true
    → (turn (parser_turn env) s).parser_loop ≡ false
unfolding turn
turn-ended env s h = ground arith

-- Until the cancellation: the same count, and no timer.
record Counted (others : ℕ) (s : Service) : Type 0 where
  no_timer : s.timer_loop ≡ false
  counts : s.waiting ≡ others + loops s.parser_loop

turn-Counted : (others : ℕ) (t : Turn) (s : Service) → Counted others s → Counted others (turn t s)
unfolding turn
turn-Counted others (parser_turn env) s c = ground arith
turn-Counted others (timer_tick env) s c = ground arith
turn-Counted others timer_done s c = ground arith
turn-Counted others cancel s c = ground arith

turns-Counted :
    (others : ℕ) (ts : List Turn) (s : Service) → Counted others s → Counted others (turns ts s)
unfolding turns
turns-Counted others [] s c = c
turns-Counted others (t ∷ ts) s c = turns-Counted others ts (turn t s) (turn-Counted others t s c)

cancel-Stopping :
    (others : ℕ) (s : Service) → Counted others s → Stopping s.parser others (turn cancel s)
unfolding turn
cancel-Stopping others s c = record {
  cancelled = refl;
  same = refl;
  no_timer = c.no_timer;
  counts = c.counts;
}

-- The state in which Wait returns, if nothing else is counted: the parser's loop is over, its state is p.
pub record Over (p : Parser) (others : ℕ) (s : Service) : Type 0 where
  pub over : s.parser_loop ≡ false
  pub same : s.parser ≡ p
  pub counted : s.waiting ≡ others

stop-Over :
    (p : Parser) (others : ℕ) (s : Service)
    → Stopping p others s
    → s.parser_loop ≡ false
    → Over p others s
stop-Over p others s h e = ground arith

-- The parser's loop is started in a service without a loop, and runs under any schedule of passes: some
-- passes, the cancellation, and later at least one more pass of the parser. Then the loop is over and
-- stays so, the wait group is back at what it counted before the start, and the parser's state is the
-- one it had at the cancellation: no round runs after it.
pub turns-start_parser :
    (s : Service)
    → s.timer_loop ≡ false
    → (before middle : List Turn) (env : BlockParser.Env) (later : List Turn)
    → Over
        (turns before (start_parser s)).parser
        s.waiting
        (turns (before ++ (cancel ∷ (middle ++ (parser_turn env ∷ later)))) (start_parser s))
unfolding turns start_parser
turns-start_parser s h before middle env later =
    let running = turns before (start_parser s) in
    let stopping = turns-Stopping running.parser s.waiting middle (turn cancel running) (
      cancel-Stopping s.waiting running (
        turns-Counted s.waiting before (start_parser s)
          (record { no_timer = h; counts = refl }))) in
    let last = turns middle (turn cancel running) in
    subst (Over running.parser s.waiting)
      (sym (
        turns-append before (cancel ∷ (middle ++ (parser_turn env ∷ later))) (start_parser s)
        ∙ turns-append middle (parser_turn env ∷ later) (turn cancel running)))
      (stop-Over running.parser s.waiting _
        (turns-Stopping running.parser s.waiting (parser_turn env ∷ later) last stopping)
        (turns-ended later (turn (parser_turn env) last) (turn-ended env last stopping.cancelled)))

-- Of the five that the timer adds, at most the one of its loop is ever taken off.
record Stuck (s : Service) : Type 0 where
  left : 4 + (loops s.timer_loop + loops s.parser_loop) ≤ s.waiting

turn-Stuck : (t : Turn) (s : Service) → Stuck s → Stuck (turn t s)
unfolding turn
turn-Stuck (parser_turn env) s h = ground arith
turn-Stuck (timer_tick env) s h = ground arith
turn-Stuck timer_done s h = ground arith
turn-Stuck cancel s h = ground arith

turns-Stuck : (ts : List Turn) (s : Service) → Stuck s → Stuck (turns ts s)
unfolding turns
turns-Stuck [] s h = h
turns-Stuck (t ∷ ts) s h = turns-Stuck ts (turn t s) (turn-Stuck t s h)

Stuck-left : (s : Service) → Stuck s → 4 ≤ s.waiting
Stuck-left s h = ground arith

-- Where the timer is started, in a service whose wait group counts the parser's loop if that runs, the
-- wait group counts at least four after every schedule of passes, with a cancellation or without: the
-- wait for it at the exit never ends.
pub turns-start_timer :
    (s : Service)
    → loops s.parser_loop ≤ s.waiting
    → (ts : List Turn) → 4 ≤ (turns ts (start_timer s)).waiting
unfolding start_timer
turns-start_timer s h ts =
    Stuck-left (turns ts (start_timer s))
      (turns-Stuck ts (start_timer s) (record { left = ground arith }))
