-- ===== src/KeyListCell/Balance.antt =====
-- http_server/handle/authorize.go, buildCreateKeyListCfgTx: the capacities of the transaction.
use das_multi_device.Prelude.{
  ℕ, ◌+◌, ◌*◌, ◌^◌, ◌≤◌, ◌<◌, String, List, [], ◌∷◌, ◌≡◌, arith, ltb, mul64, if◌then◌else◌,
}
use das_multi_device.Outcome.{ok, ◌>>=◌}
use das_multi_device.KeyList.{OutPoint, CellOutput, TxParams}
use das_multi_device.Service.{Env, World}
use das_multi_device.KeyListCell.{build_create_key_list_cfg_tx, change_outputs, key_list_capacity}

unfoldable pub total : List CellOutput → ℕ
total [] = 0
total (o ∷ os) = o.capacity + total os

abbrev pub first_capacity : List CellOutput → ℕ
first_capacity [] = 0
first_capacity (o ∷ os) = o.capacity

unfoldable pub input_total : (OutPoint → ℕ) → List OutPoint → ℕ
input_total capacity_of [] = 0
input_total capacity_of (o ∷ os) = capacity_of o + input_total capacity_of os

mul64-le : (a b : ℕ) → mul64 a b ≤ a * b
mul64-le a b = let product = a * b in omega arith

key_list_capacity-le : (one occupied : ℕ) → 161 * one ≤ key_list_capacity one occupied
unfolding key_list_capacity
key_list_capacity-le one occupied = ground arith

key_list_capacity-bound :
    (one occupied : ℕ) → key_list_capacity one occupied ≤ occupied * one + 161 * one
unfolding key_list_capacity
key_list_capacity-bound one occupied = ground (arith, mul64-le occupied one)

module _ (env : Env) (capacity_of : OutPoint → ℕ)
    (enough : (need : ℕ) (cells : List OutPoint × ℕ)
      → env.server_cells need ≡ ok cells
      → (input_total capacity_of cells.0 ≡ cells.1) × (need ≤ cells.1) × (cells.1 < 2 ^ 64))
    (splits : (change size : ℕ) (os : List CellOutput)
      → env.split_output_cell change size ≡ ok os
      → total os ≡ change)
    (small : (cell_data : String)
      → env.occupied cell_data * env.one_ckb + 161 * env.one_ckb + 10_000 < 2 ^ 64) where
  change_outputs-total :
      (change : ℕ) (os : List CellOutput) → change_outputs env change ≡ ok os → total os ≡ change
  unfolding change_outputs total
  change_outputs-total change os h = ground (
    arith,
    splits change
        (if ltb 0 env.split_ckb then mul64 env.split_ckb env.one_ckb else 2000 * env.one_ckb) os,
  )

  -- If the server's cells that das-lib picks hold the sum that it reports, at least what was asked
  -- for and below 2^64, the split of the change gives back all of it, and the capacity of the new
  -- cell with the fee stays below 2^64, then the outputs of the transaction that
  -- buildCreateKeyListCfgTx builds hold what its inputs hold less the fee of 10,000 shannon, and
  -- the key-list cell, the first output, at least 161 CKB.
  pub total-build_create_key_list_cfg_tx :
      (payload : String) (w : World) (params : TxParams)
      → (build_create_key_list_cfg_tx env payload w).0 ≡ ok params
      → (total params.outputs + 10_000 ≡ input_total capacity_of params.inputs)
        × (161 * env.one_ckb ≤ first_capacity params.outputs)
  unfolding build_create_key_list_cfg_tx ◌>>=◌ total
  total-build_create_key_list_cfg_tx payload w params h =
      grind
        (arith, enough, change_outputs-total, key_list_capacity-le, key_list_capacity-bound, small)
