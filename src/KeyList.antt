-- ===== src/KeyList.antt =====
-- http_server/handle/authorize.go, buildUpdateAuthorizeTx: adding a backup device to the key list of a
-- master device, deleting one, and the transaction that puts the new list on the chain.
pub mod Laws
pub mod Devices
pub mod Built
mod Examples
use das_multi_device.Prelude.{
  ℕ, zero, suc, ◌+◌, String, Bool, true, false, ◌&&◌, ◌||◌, Option, none, some, List, [], ◌∷◌, ◌++◌,
  ltb, str_eq, if◌then◌else◌, length,
}
use das_multi_device.Outcome.{Error, plain, wrap, panic, Result, ok, err, change_err}

-- witness.WebauthnKey
pub record WebauthnKey : Type 0 where
  pub min_alg_id : ℕ
  pub sub_alg_id : ℕ
  pub cid : String
  pub pub_key : String

-- common.WebAuchonKeyOperate: AddWebAuthnKey, DeleteWebAuthnKey, or a value that is neither.
pub data KeyOperate : Type 0 where
  add delete other : KeyOperate

abbrev pub same_key : WebauthnKey → WebauthnKey → Bool
same_key v k = str_eq v.cid k.cid && str_eq v.pub_key k.pub_key

unfoldable pub has_key : WebauthnKey → List WebauthnKey → Bool
has_key k [] = false
has_key k (v ∷ vs) = same_key v k || has_key k vs

unfoldable pub add_key : WebauthnKey → List WebauthnKey → Result Error (List WebauthnKey)
add_key k keys =
    if ltb 9 (length keys)
    then err (plain "Backup devices cannot exceed 10")
    else if has_key k keys
    then err (plain "Cannot add repeatedly")
    else ok (keys ++ k ∷ [])

-- The loop over the old list, with isExist and newKeyList.
delete_loop : WebauthnKey → List WebauthnKey → Bool → List WebauthnKey → Bool × List WebauthnKey
delete_loop k [] is_exist new = (is_exist, new)
delete_loop k (v ∷ vs) is_exist new =
    delete_loop k vs (if same_key v k then true else is_exist)
      (if same_key v k then new else new ++ v ∷ [])

unfoldable pub delete_key : WebauthnKey → List WebauthnKey → Result Error (List WebauthnKey)
unfolding delete_loop
delete_key k keys =
    let (is_exist, new) = delete_loop k keys false [] in
    if is_exist then ok new else err (plain "this deviceKey isn`t exist")

-- Any operation but `add` deletes.
unfoldable pub update_keys :
    KeyOperate → WebauthnKey → List WebauthnKey → Result Error (List WebauthnKey)
update_keys add k keys = add_key k keys
update_keys delete k keys = delete_key k keys
update_keys other k keys = delete_key k keys

-- types.OutPoint, types.CellOutput (with its scripts as one value), and the transaction parameters.
pub record OutPoint : Type 0 where
  pub tx_hash : String
  pub index : ℕ

pub record CellOutput : Type 0 where
  pub capacity : ℕ
  pub scripts : String

pub record TxParams : Type 0 where
  pub cell_deps : List String
  pub inputs : List OutPoint
  pub outputs : List CellOutput
  pub outputs_data : List String
  pub witnesses : List String

-- A transaction that the node returns: its outputs, and the keys in its witness, if they parse
-- (WebAuthnKeyListDataBuilderFromTx, ConvertToWebauthnKeyList).
pub record ChainTx : Type 0 where
  pub outputs : List CellOutput
  pub keys : Result Error (List WebauthnKey)

-- The results of GenWitness; what the first two are beside an error is the library's.
pub record GenResult : Type 0 where
  pub witness : String
  pub cell_data : String
  pub error : Option Error

-- What the node and das-lib answer.
pub record TxEnv : Type 0 where
  -- GetDasContractInfo of DispatchCellType, ConfigCellType and KeyListCell, each as its cell dep
  pub dispatch_contract : Result Error String
  pub config_contract : Result Error String
  -- GenActionDataWitness(DasActionUpdateKeyList, nil)
  pub update_action_witness : Result Error String
  -- common.String2OutPointStruct, Client().GetTransaction
  pub out_point_struct : String → OutPoint
  pub get_transaction : String → Result Error ChainTx
  -- DasAlgorithmIdWebauthn, DasWebauthnSubAlgorithmIdES256, common.Bytes2Hex
  pub webauthn_algorithm : ℕ
  pub es256_algorithm : ℕ
  pub bytes_to_hex : List ℕ → String
  -- builder.GenWitness for DasActionUpdateKeyList
  pub gen_update_witness : KeyOperate → List WebauthnKey → GenResult

-- payload[:n] and payload[n:]; a shorter slice panics.
unfoldable pub split_at : ℕ → List ℕ → Result Error (List ℕ × List ℕ)
split_at zero bs = ok ([], bs)
split_at (suc n) [] = err (panic "slice bounds out of range")
split_at (suc n) (b ∷ bs) = elim (split_at n bs) [
  | ok (front, back) ↦ ok (b ∷ front, back)
  | err e ↦ err e
]

abbrev pub slave_key : TxEnv → List ℕ × List ℕ → WebauthnKey
slave_key env (cid, pk) = record {
  min_alg_id = env.webauthn_algorithm;
  sub_alg_id = env.es256_algorithm;
  cid = env.bytes_to_hex cid;
  pub_key = env.bytes_to_hex pk;
}

infixl 5 ◌>>=◌
abbrev pub ◌>>=◌ : {A B : Type 0} → Result Error A → (A → Result Error B) → Result Error B
ok a >>= f = f a
err e >>= f = err e

-- Only the first output is kept; the index of the out point is not looked at.
first_output : List CellOutput → Result Error CellOutput
first_output [] = err (plain "KeyListCfgTransaction not exists")
first_output (o ∷ os) = ok o

-- buildUpdateAuthorizeTx. The error of GenWitness is not tested.
unfoldable pub build_update_authorize_tx :
    TxEnv → KeyOperate → String → List ℕ → Result Error TxParams
unfolding first_output
build_update_authorize_tx env operation out_point slave_payload = do
  contract_das ← change_err (wrap "GetDasContractInfo") env.dispatch_contract
  config_main ← change_err (wrap "GetDasContractInfo") env.config_contract
  action_witness ← change_err (wrap "GenActionDataWitness") env.update_action_witness
  tx ←
      change_err (wrap "GetTransaction")
        (env.get_transaction (env.out_point_struct out_point).tx_hash)
  output ← first_output tx.outputs
  now_keys ← change_err (wrap "WebAuthnKeyListDataBuilderFromTx") tx.keys
  parts ← split_at 10 slave_payload
  new_keys ← update_keys operation (slave_key env parts) now_keys
  ok (record {
    cell_deps = contract_das ∷ config_main ∷ [];
    inputs = env.out_point_struct out_point ∷ [];
    outputs = output ∷ [];
    outputs_data = (env.gen_update_witness operation new_keys).cell_data ∷ [];
    witnesses = action_witness ∷ (env.gen_update_witness operation new_keys).witness ∷ [];
  })
