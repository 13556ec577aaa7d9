-- ===== src/Transaction/Effects.antt =====
-- http_server/handle/transaction.go: sending changes no notes of a cid, and the status only reads.
use das_multi_device.Prelude.{
  String, Bool, true, false, none, some, ◌≡◌, refl, ◌∙◌, str_eq, inl, inr, Bool-cases,
}
use das_multi_device.Outcome.{Error, Result, ok, err, Exec}
use das_multi_device.Outcome.Rules.{Keeps, keeps_rules}
use das_multi_device.Api.{handled}
use das_multi_device.Dao.{Db, PendingInfo}
use das_multi_device.Dao.Pendings.{create_pending}
use das_multi_device.Dao.Pendings.Effects.{
  create_pending-cid_infos, get_tx_status-SameTables, get_tx_status_by_outpoint-SameTables,
}
use das_multi_device.Service.{BuiltTx, SignInfo, SignInfoCache, World, on_db, on_redis}
use das_multi_device.Service.Tables.{SameTables}
use das_multi_device.TxAction.{DasActions}
use das_multi_device.Transaction.{
  SendEnv, check_signer, require_index, indexed_sign_list, submit, record_pending, also,
  send_signed, add_signature, sign_and_send, check_and_send, parse_cached, parse_and_send,
  read_cached, send_body, do_transaction_send, ReqTransactionStatus, find_status, status_body,
  do_transaction_status,
}

-- What the creation of a pending row keeps true of the database, sending keeps.
module _ (env : SendEnv) (P : Db → Type 0)
    (creates : (row : PendingInfo) (d : Db) → P d → P (create_pending row d).1) where
  abbrev Holds : World → Type 0
  Holds w = P w.db

  record_pending-Holds :
      (sic : SignInfoCache) (hash : String) (w : World)
      → Holds w
      → Holds (record_pending env sic hash w)
  unfolding record_pending on_redis on_db
  record_pending-Holds sic hash w h = elim (Bool-cases (str_eq sic.address "")) [
    | inl e ↦ rw e h
    | inr e ↦ rw e (creates _ w.db h)
  ]

  also-Holds :
      (sic : SignInfoCache) (hash : String) → Keeps Holds (also hash (record_pending env sic hash))
  unfolding also
  also-Holds sic hash = record { at = record_pending-Holds sic hash }

  submit-Holds : (tx : BuiltTx) (r : Result Error String) → Keeps Holds (submit tx r)
  unfolding submit
  submit-Holds tx (ok hash) = record { at = λ w h. h }
  submit-Holds tx (err e) = record { at = λ w h. h }

  on_redis-Holds : {A : Type 0} (m : Exec _ Error A) → Keeps Holds (on_redis m)
  unfolding on_redis
  on_redis-Holds m = record { at = λ w h. h }

  require_index-Holds : (idx : _) → Keeps Holds (require_index idx)
  unfolding require_index
  require_index-Holds none = search keeps_rules
  require_index-Holds (some idx) = search keeps_rules

  check_signer-Holds :
      (b : Bool) (req : SignInfo) (sic : SignInfoCache) → Keeps Holds (check_signer b env req sic)
  unfolding check_signer
  check_signer-Holds false req sic = search keeps_rules
  check_signer-Holds true req sic = search (keeps_rules, require_index-Holds)

  send_body-Holds : (req : SignInfo) → Keeps Holds (send_body env req)
  unfolding send_body read_cached parse_and_send parse_cached check_and_send indexed_sign_list
      sign_and_send add_signature send_signed
  send_body-Holds req =
      search (keeps_rules, on_redis-Holds, check_signer-Holds, submit-Holds, also-Holds) depth 12

  pub do_transaction_send-Holds :
      (req : SignInfo) (w : World) → P w.db → P (do_transaction_send env req w).1.db
  unfolding do_transaction_send handled
  do_transaction_send-Holds req w h = (send_body-Holds req).at w h

pub do_transaction_send-cid_infos :
    (env : SendEnv) (req : SignInfo) (w : World)
    → (do_transaction_send env req w).1.db.cid_infos ≡ w.db.cid_infos
do_transaction_send-cid_infos env req w =
    do_transaction_send-Holds env (λ d. d.cid_infos ≡ w.db.cid_infos)
      (λ row d h. create_pending-cid_infos row d ∙ h) req w refl

module _ (a : DasActions) (hash_of : String → String) (req : ReqTransactionStatus) where
  find_status-SameTables : (d₀ : Db) → Keeps (SameTables d₀) (find_status a req)
  unfolding find_status
  find_status-SameTables d₀ = elim (Bool-cases (str_eq req.tx_hash "")) [
    | inl e ↦ rw e (get_tx_status-SameTables d₀ _ _ _)
    | inr e ↦ rw e (get_tx_status_by_outpoint-SameTables d₀ _)
  ]

  status_body-SameTables : (d₀ : Db) → Keeps (SameTables d₀) (status_body a hash_of req)
  unfolding status_body
  status_body-SameTables d₀ = search (keeps_rules, find_status-SameTables)

  pub do_transaction_status-SameTables :
      (d : Db) → SameTables d (do_transaction_status a hash_of req d).1
  unfolding do_transaction_status handled
  do_transaction_status-SameTables d = (status_body-SameTables d).at d (refl, refl)
