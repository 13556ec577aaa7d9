-- ===== src/KeyListCell/Fees.antt =====
-- http_server/handle/authorize.go, createKeyListCfgCell: what the sent transaction costs.
use das_multi_device.Prelude.{
  ℕ, ◌+◌, ◌*◌, ◌≤◌, ◌<◌, ◌^◌, String, none, List, [], ◌∷◌, ◌≡◌, refl, ◌∙◌, sym, ap, arith,
}
use das_multi_device.Outcome.{Error, Result, Exec, ok, err, lift, on_err, ◌>>=◌}
use das_multi_device.Outcome.Keeps.{bind-ok}
use das_multi_device.Cache.{Redis, lock_with_redis}
use das_multi_device.KeyList.{OutPoint, CellOutput, TxParams}
use das_multi_device.Service.{Env, World, BuiltTx, on_redis, wrap_err}
use das_multi_device.KeyListCell.{
  pay_last, build_create_key_list_cfg_tx, create_locked, send, first_or_panic, release_after,
  create_key_list_cfg_cell,
}
use das_multi_device.KeyListCell.Locking.{build-same}
use das_multi_device.KeyListCell.Balance.{
  total, input_total, first_capacity, total-build_create_key_list_cfg_tx,
}

abbrev pub last_capacity : List CellOutput → ℕ
last_capacity [] = 0
last_capacity (o ∷ []) = o.capacity
last_capacity (o ∷ p ∷ os) = last_capacity (p ∷ os)

-- The last output pays for the size, if it can.
total-pay_last :
    (size : ℕ) (os : List CellOutput)
    → size + 1000 ≤ last_capacity os
    → last_capacity os < 2 ^ 64
    → total (pay_last size os) + (size + 1000) ≡ total os
unfolding pay_last total
total-pay_last size [] enough small = absurd (omega arith)
total-pay_last size (o ∷ []) enough small = ground arith
total-pay_last size (o ∷ p ∷ os) enough small =
    ground (arith, total-pay_last size (p ∷ os) enough small)

abbrev pub paid_of : Env → BuiltTx → BuiltTx
paid_of env tx = record tx { outputs = pay_last (env.size_in_block tx) tx.outputs }

-- What a successful creation has sent: the built transaction, with the fee taken from its last output.
pub record Paid (env : Env) (payload : String) (w w' : World) : Type 0 where
  pub params : TxParams
  pub tx : BuiltTx
  pub parts : (build_create_key_list_cfg_tx env payload w).0 ≡ ok params
  pub built : env.build_transaction none params ≡ ok tx
  pub sent : w'.sent ≡ paid_of env tx ∷ w.sent

module _ (env : Env) (payload : String) where
  built-Paid :
      (params : TxParams) (w w' : World) (o : Result Error BuiltTx) (r : String × CellOutput)
      → build_create_key_list_cfg_tx env payload w ≡ (ok params, w)
      → env.build_transaction none params ≡ o
      → create_locked env payload w ≡ (ok r, w')
      → Paid env payload w w'
  unfolding create_locked ◌>>=◌ send first_or_panic lift
  built-Paid params w w' (err e) r parts built h = absurd (ground (arith, parts, built))
  built-Paid params w w' (ok tx) r parts built h = record {
    params = params;
    tx = tx;
    parts = ap (λ (x : Result Error TxParams × World). x.0) parts;
    built = built;
    sent = ground (arith, parts, built);
  }

  parts-Paid :
      (o : Result Error TxParams) (w w' : World) (r : String × CellOutput)
      → build_create_key_list_cfg_tx env payload w ≡ (o, w)
      → create_locked env payload w ≡ (ok r, w')
      → Paid env payload w w'
  unfolding create_locked ◌>>=◌
  parts-Paid (err e) w w' r parts h = absurd (ground (arith, parts))
  parts-Paid (ok params) w w' r parts h = built-Paid params w w' _ r parts refl h

  create_locked-Paid :
      (w w' : World) (r : String × CellOutput)
      → create_locked env payload w ≡ (ok r, w')
      → Paid env payload w w'
  create_locked-Paid w w' r h =
      parts-Paid _ w w' r
        (ap (λ v. ((build_create_key_list_cfg_tx env payload w).0, v)) (build-same env payload w)) h

  released :
      (key : String) (v w' : World) (r : String × CellOutput)
      → release_after key (create_locked env payload) v ≡ (ok r, w')
      → (u : World) × (create_locked env payload v ≡ (ok r, u)) × (w'.sent ≡ u.sent)
  unfolding release_after on_redis
  released key v w' r h = (
    (create_locked env payload v).1,
    ap (λ (x : Result Error (String × CellOutput) × World). (x.0, (create_locked env payload v).1))
        h,
    sym (ap (λ (x : Result Error (String × CellOutput) × World). x.1.sent) h),
  )

  same_parts :
      (v w : World)
      → (build_create_key_list_cfg_tx env payload v).0
        ≡ (build_create_key_list_cfg_tx env payload w).0
  unfolding build_create_key_list_cfg_tx ◌>>=◌
  same_parts v w = ground arith

  locked-sent :
      {A : Type 0} (f : Error → Error) (m : Exec Redis Error A) (w v : World) (key : A)
      → on_err f (on_redis m) w ≡ (ok key, v)
      → v.sent ≡ w.sent
  unfolding on_err on_redis
  locked-sent f m w v key h = sym (ap (λ (x : Result Error _ × World). x.1.sent) h)

  abbrev take_lock : Exec Redis Error String
  take_lock =
      lock_with_redis env.fmt env.now env.chain_type_webauthn payload "createKeyListConfigCell"
        (4 * 60)

  abbrev refused : Error → Error
  refused = wrap_err "createKeyListCfgCell LockWithRedis"

  create_key_list_cfg_cell-Paid :
      (w w' : World) (r : String × CellOutput)
      → create_key_list_cfg_cell env payload w ≡ (ok r, w')
      → Paid env payload w w'
  unfolding create_key_list_cfg_cell
  create_key_list_cfg_cell-Paid w w' r h =
      let (key, v, lock, rest) =
        bind-ok (on_err refused (on_redis take_lock))
          (λ key. release_after key (create_locked env payload)) w r w' h in
      let (u, made, same) = released key v w' r rest in
      let p = create_locked-Paid v u r made in
      record {
        params = p.params;
        tx = p.tx;
        parts = same_parts w v ∙ p.parts;
        built = p.built;
        sent =
            same
            ∙ p.sent
            ∙ ap (λ l. paid_of env p.tx ∷ l) (locked-sent refused take_lock w v key lock);
      }

module _ (env : Env) (capacity_of : OutPoint → ℕ)
    (enough : (need : ℕ) (cells : List OutPoint × ℕ)
      → env.server_cells need ≡ ok cells
      → (input_total capacity_of cells.0 ≡ cells.1) × (need ≤ cells.1) × (cells.1 < 2 ^ 64))
    (splits : (change size : ℕ) (os : List CellOutput)
      → env.split_output_cell change size ≡ ok os
      → total os ≡ change)
    (small : (cell_data : String)
      → env.occupied cell_data * env.one_ckb + 161 * env.one_ckb + 10_000 < 2 ^ 64)
    (keeps : (params : TxParams) (tx : BuiltTx)
      → env.build_transaction none params ≡ ok tx
      → tx.outputs ≡ params.outputs) where
  -- If createKeyListCfgCell succeeds, it has sent one transaction, built with at least 161 CKB for the
  -- key-list cell, whose outputs hold what the inputs that das-lib picked hold less 11,000 shannon and one
  -- for each byte of its size, where the last output of the built transaction can pay 1,000 shannon and
  -- its size and is below 2^64. That holds if the server's cells hold the sum
  -- that das-lib reports, at least what was asked for and below 2^64, the split of the change gives back
  -- all of it, the builder keeps the outputs, and the capacity of the new cell with the fee stays below
  -- 2^64.
  pub total-create_key_list_cfg_cell :
      (payload : String) (w w' : World) (r : String × CellOutput)
      → create_key_list_cfg_cell env payload w ≡ (ok r, w')
      → (params : TxParams) × (tx : BuiltTx) × (env.build_transaction none params ≡ ok tx)
        × (w'.sent ≡ paid_of env tx ∷ w.sent)
        × (161 * env.one_ckb ≤ first_capacity params.outputs)
        × (env.size_in_block tx + 1000 ≤ last_capacity tx.outputs
            → last_capacity tx.outputs < 2 ^ 64
            → total (paid_of env tx).outputs + (env.size_in_block tx + 11_000)
              ≡ input_total capacity_of params.inputs)
  total-create_key_list_cfg_cell payload w w' r h =
      let p = create_key_list_cfg_cell-Paid env payload w w' r h in
      let (balance, first) =
        total-build_create_key_list_cfg_tx env capacity_of enough splits small payload w p.params
          p.parts in
      (
        p.params,
        p.tx,
        p.built,
        p.sent,
        first,
        λ pays below.
            let fee = total-pay_last (env.size_in_block p.tx) p.tx.outputs pays below in
            let same : total p.tx.outputs ≡ total p.params.outputs =
              ap total (keeps p.params p.tx p.built) in
            omega (arith, fee, same, balance),
      )
