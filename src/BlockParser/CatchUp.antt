-- ===== src/BlockParser/CatchUp.antt =====
-- The loop of Run on a healthy chain: the parser reaches the last confirmed block and waits there.
use das_multi_device.Prelude.{
  ℕ, zero, suc, ◌+◌, ◌-◌, ◌≤◌, ◌<◌, ◌^◌, ◌≡◌, refl, sym, ◌∙◌, ap, subst, arith,
}
use das_multi_device.Outcome.{Error, ok, Exec}
use das_multi_device.Outcome.Rules.{Keeps, Keeps-if, keeps_rules}
use das_multi_device.Dao.{Db}
use das_multi_device.BlockParser.{
  Block, Env, Parser, on_db, get_current, set_current, check_fork, store_block, prune, advance,
  step_back, parsing_block_data, parser_sub_mode, run_round,
}
use das_multi_device.BlockParser.Frame.{parsing-SamePlace}
use das_multi_device.BlockParser.Healthy.{Healthy, IsQuiet, Joins}
use das_multi_device.BlockParser.Recovery.{sub_rounds, Replayed, replay}

-- Rounds of the loop, with the same answers of the node.
unfoldable pub rounds : ℕ → Env → Parser → Parser
rounds zero env p = p
rounds (suc n) env p = run_round env (rounds n env p)

-- No round changes the settings.
abbrev pub Settings : ℕ → ℕ → Parser → Type 0
Settings concurrency confirm p = (p.concurrency_num ≡ concurrency) × (p.confirm_num ≡ confirm)

module _ (c f : ℕ) where
  on_db-Settings : {A : Type 0} (m : Exec Db Error A) → Keeps (Settings c f) (on_db m)
  unfolding on_db
  on_db-Settings m = record { at = λ p h. h }

  get_current-Settings : Keeps (Settings c f) get_current
  unfolding get_current
  get_current-Settings = record { at = λ p h. h }

  set_current-Settings : (g : ℕ → ℕ) → Keeps (Settings c f) (set_current g)
  unfolding set_current
  set_current-Settings g = record { at = λ p h. h }

  parsing-Settings :
      (env : Env) (block : Block) → Keeps (Settings c f) (parsing_block_data env block)
  parsing-Settings env block = record {
    at = λ p h.
        let same = parsing-SamePlace env block p in
        (same.concurrency ∙ h.0, same.confirmations ∙ h.1);
  }

  parser_sub_mode-Settings : (env : Env) → Keeps (Settings c f) (parser_sub_mode env)
  unfolding parser_sub_mode step_back check_fork advance store_block prune
  parser_sub_mode-Settings env =
      search
        (
          keeps_rules, Keeps-if, on_db-Settings, get_current-Settings, set_current-Settings,
          parsing-Settings,
        )
        depth 16

  pub sub_rounds-Settings :
      (n : ℕ) (env : Env) (p : Parser) → Settings c f p → Settings c f (sub_rounds n env p)
  unfolding sub_rounds
  sub_rounds-Settings zero env p h = h
  sub_rounds-Settings (suc n) env p h =
      (parser_sub_mode-Settings env).at (sub_rounds n env p) (sub_rounds-Settings n env p h)

module _ (env : Env) (tip : ℕ) (known : env.get_tip ≡ ok tip) (small : tip < 2 ^ 64) where
  -- Below the last confirmed block a round is one of parserSubMode, and at it the parser waits.
  run_round_below :
      (p : Parser)
      → p.concurrency_num ≤ 1
      → p.confirm_num ≤ tip
      → p.current_block_number < tip - p.confirm_num
      → run_round env p ≡ (parser_sub_mode env p).1
  unfolding run_round
  run_round_below p one enough low = ground arith

  run_round_at :
      (p : Parser)
      → p.concurrency_num ≤ 1
      → p.confirm_num ≤ tip
      → p.current_block_number ≡ tip - p.confirm_num
      → run_round env p ≡ p
  unfolding run_round
  run_round_at p one enough there = ground arith

  module _ (chain : ℕ → Block) (h : Healthy env chain)
      (linked : (n : ℕ) → (chain (n + 1)).parent_hash ≡ (chain n).hash) (p : Parser)
      (quiet : IsQuiet p) (one : p.concurrency_num ≤ 1) (enough : p.confirm_num ≤ tip)
      (low : 20 ≤ p.current_block_number) (joins : Joins p (chain p.current_block_number)) where
    started : Replayed chain p.current_block_number 0 p
    started =
        let no_rounds : p.current_block_number ≡ p.current_block_number + 0 = omega arith in
        record {
          quiet = quiet;
          current = no_rounds;
          joins = subst (λ m. Joins p (chain m)) no_rounds joins;
          rows = λ k lo hi. absurd (omega arith);
        }

    after_rounds :
        (n : ℕ)
        → p.current_block_number + n ≤ tip - p.confirm_num
        → Replayed chain p.current_block_number n (sub_rounds n env p)
    after_rounds n room =
        replay env chain h linked p.current_block_number n p low (omega arith) started

    rounds-sub_rounds :
        (n : ℕ)
        → p.current_block_number + n ≤ tip - p.confirm_num
        → rounds n env p ≡ sub_rounds n env p
    unfolding rounds sub_rounds
    rounds-sub_rounds zero room = refl
    rounds-sub_rounds (suc n) room =
        let r = after_rounds n (omega arith) in
        let (c, f) = sub_rounds-Settings p.concurrency_num p.confirm_num n env p (refl, refl) in
        ap (run_round env) (rounds-sub_rounds n (omega arith))
        ∙ run_round_below (sub_rounds n env p) (omega (arith, c)) (omega (arith, f))
            (omega (arith, f, r.current))

    waits :
        (n m : ℕ)
        → p.current_block_number + n ≡ tip - p.confirm_num
        → rounds (m + n) env p ≡ sub_rounds n env p
    unfolding rounds
    waits n zero there =
        let none_more : 0 + n ≡ n = omega arith in
        ap (λ k. rounds k env p) none_more ∙ rounds-sub_rounds n (omega arith)
    waits n (suc m) there =
        let r = after_rounds n (omega arith) in
        let (c, f) = sub_rounds-Settings p.concurrency_num p.confirm_num n env p (refl, refl) in
        let shift : suc m + n ≡ suc (m + n) = omega arith in
        ap (λ k. rounds k env p) shift
        ∙ ap (run_round env) (waits n m there)
        ∙ run_round_at (sub_rounds n env p) (omega (arith, c)) (omega (arith, f))
            (omega (arith, f, r.current))

    -- While the node serves one linked chain with one tip below 2^64, the key-list contract is known and no
    -- statement fails, a parser without concurrency, from number 20 on, that joins its stored row and
    -- stands n below tip - confirm_num, which is not negative: after n rounds of the loop of Run, and after
    -- any more, it stands at tip - confirm_num and joins its stored row, and each block that it went
    -- through is stored with its hashes, but for those that lie more than 20 blocks back and were dropped.
    pub rounds-caught_up :
        (n m : ℕ)
        → p.current_block_number + n ≡ tip - p.confirm_num
        → Replayed chain p.current_block_number n (rounds (m + n) env p)
    rounds-caught_up n m there =
        subst (Replayed chain p.current_block_number n) (sym (waits n m there))
          (after_rounds n (omega arith))
