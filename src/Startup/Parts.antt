-- ===== src/Startup/Parts.antt =====
-- cmd/main.go, runServer: which parts run in which mode, and that none runs after an error.
use das_multi_device.Prelude.{
  ℕ, ◌+◌, Bool, true, false, Option, none, some, [], ◌≡◌, if◌then◌else◌, ◌⊎◌,
}
use das_multi_device.Outcome.{Error, Result, ok, err}
use das_multi_device.Outcome.Rules.{Keeps}
use das_multi_device.Startup.{Answers, Process, Mode, api, timer, both, das_tasks, listeners_of}

abbrev pub is_some : {A : Type 0} → Option A → Bool
is_some none = false
is_some (some a) = true

abbrev pub parses_in : Mode → Bool
parses_in api = false
parses_in timer = true
parses_in both = true

abbrev pub serves_in : Mode → Bool
serves_in api = true
serves_in timer = false
serves_in both = true

-- The loop of the parser, the http servers, and the counter of the wait group.
pub record Runs (parses serves : Bool) (waiting : ℕ) (p : Process) : Type 0 where
  pub parsing : is_some p.parser ≡ parses
  pub serving : p.listeners ≡ (if serves then listeners_of p.cfg else [])
  pub counted : p.waiting ≡ waiting

-- `a` says what das-lib's tasks add. After a success the parts of the mode run, and the wait group counts
-- the tasks and the parser's loop; after an error none does, and it counts the tasks or nothing more.
abbrev pub RunsParts : Answers → Mode → ℕ → Result Error Unit × Process → Type 0
RunsParts a m waiting (ok u, p) =
    Runs (parses_in m) (serves_in m) (waiting + das_tasks a + (if parses_in m then 1 else 0)) p
RunsParts a m waiting (err e, p) =
    Runs false false waiting p ⊎ Runs false false (waiting + das_tasks a) p

-- Before a part starts, das-lib's tasks run after a success and only then.
abbrev Prepared : Answers → ℕ → Result Error Unit × Process → Type 0
Prepared a waiting (ok u, p) = Runs false false (waiting + das_tasks a) p
Prepared a waiting (err e, p) = Runs false false waiting p
