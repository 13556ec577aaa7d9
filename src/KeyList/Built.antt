-- ===== src/KeyList/Built.antt =====
-- buildUpdateAuthorizeTx: where the keys of a transaction that is built come from, and where they go.
use das_multi_device.Prelude.{ℕ, String, List, [], ◌∷◌, Option, none, some, ◌≡◌, refl, arith}
use das_multi_device.Outcome.{Error, Result, ok, err}
use das_multi_device.KeyList.{
  WebauthnKey, KeyOperate, update_keys, slave_key, TxEnv, ChainTx, TxParams, split_at,
  build_update_authorize_tx, first_output,
}

-- The witness of the key list, behind that of the action.
abbrev pub list_witness : TxParams → Option String
list_witness params = elim params.witnesses [
  | [] ↦ none
  | w ∷ ws ↦ elim ws [ [] ↦ none | v ∷ _ ↦ some v ]
]

module _ (env : TxEnv) (operation : KeyOperate) (out_point : String) (payload : List ℕ)
    (parts : List ℕ × List ℕ) (old : ChainTx) (keys : List WebauthnKey) (params : TxParams) where
  -- The list that the operation makes of the one on the chain, and that its witness is in `params`.
  abbrev pub Updated : Type 0
  Updated =
      (keys' : List WebauthnKey) × (update_keys operation (slave_key env parts) keys ≡ ok keys')
      × (list_witness params ≡ some (env.gen_update_witness operation keys').witness)

  updated_or_refused :
      (r : Result Error (List WebauthnKey))
      → update_keys operation (slave_key env parts) keys ≡ r
      → build_update_authorize_tx env operation out_point payload ≡ ok params
      → env.get_transaction (env.out_point_struct out_point).tx_hash ≡ ok old
      → old.keys ≡ ok keys
      → split_at 10 payload ≡ ok parts
      → Updated
  unfolding build_update_authorize_tx first_output
  updated_or_refused (ok keys') u h got read cut = (keys', u, ground (arith, u, h, got, read, cut))
  updated_or_refused (err e) u h got read cut = absurd (ground (arith, u, h, got, read, cut))

  -- A transaction that is built has the keys that the operation makes of those on the chain.
  pub built-updated :
      build_update_authorize_tx env operation out_point payload ≡ ok params
      → env.get_transaction (env.out_point_struct out_point).tx_hash ≡ ok old
      → old.keys ≡ ok keys
      → split_at 10 payload ≡ ok parts
      → Updated
  built-updated = updated_or_refused (update_keys operation (slave_key env parts) keys) refl
