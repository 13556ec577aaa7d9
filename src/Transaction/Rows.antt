-- ===== src/Transaction/Rows.antt =====
-- http_server/handle/transaction.go, doTransactionSend: the pending row of a sent transaction.
use das_multi_device.Prelude.{
  String, false, none, [], ◌∷◌, ◌≡◌, refl, ◌∙◌, ap, subst, arith, str_eq, find_first,
}
use das_multi_device.Outcome.{Result, ok, err, lift, on_err, ◌>>=◌}
use das_multi_device.Outcome.Keeps.{bind-ok}
use das_multi_device.Cache.{get_sign_tx_cache}
use das_multi_device.Dao.{Db}
use das_multi_device.Dao.Pendings.{is_tx}
use das_multi_device.Dao.Pendings.Effects.{with_row, create_pending-with_row}
use das_multi_device.Service.{BuiltTx, SignInfo, SignInfoCache, World, on_db, on_redis}
use das_multi_device.Transaction.{
  SendEnv, indexed_sign_list, has_webauthn, pending_row, record_pending, submit, also, send_body,
  send_signed, add_signature, sign_and_send, check_and_send, parse_cached, parse_and_send,
  read_cached,
}
use das_multi_device.Transaction.Sending.{IsQuiet, check_signer-IsQuiet}

lift-same :
    {S E A : Type 0} (r : Result E A) (s : S) (a : A) (s' : S) → lift r s ≡ (ok a, s') → s' ≡ s
unfolding lift
lift-same (ok b) s a s' h = cc
lift-same (err e) s a s' h = cc

module _ (env : SendEnv) (sic : SignInfoCache) (hash : String) where
  -- No row has the action and the outpoint.
  abbrev pub IsNew : Db → Type 0
  IsNew db = find_first (is_tx sic.action (env.out_point_string hash 0)) db.pendings ≡ none

  record_pending-db :
      (w : World)
      → str_eq sic.address "" ≡ false
      → w.db.faults ≡ []
      → IsNew w.db
      → (record_pending env sic hash w).db ≡ with_row (pending_row env sic hash) w.db
  unfolding record_pending on_db on_redis pending_row
  record_pending-db w owner quiet new =
      rw owner (create_pending-with_row (pending_row env sic hash) w.db quiet new)

  send_signed-db :
      (tx : BuiltTx) (w w' : World)
      → str_eq sic.address "" ≡ false
      → w.db.faults ≡ []
      → IsNew w.db
      → send_signed env sic tx w ≡ (ok hash, w')
      → w'.db ≡ with_row (pending_row env sic hash) w.db
  unfolding send_signed submit also ◌>>=◌ on_err
  send_signed-db tx w w' owner quiet new h =
      ground (arith, record_pending-db (record w { sent = tx ∷ w.sent }) owner quiet new)

  check_and_send-db :
      (req : SignInfo) (w w' : World)
      → str_eq sic.address "" ≡ false
      → w.db.faults ≡ []
      → IsNew w.db
      → check_and_send env req sic w ≡ (ok hash, w')
      → w'.db ≡ with_row (pending_row env sic hash) w.db
  unfolding check_and_send sign_and_send indexed_sign_list add_signature lift
  check_and_send-db req w w' owner quiet new h =
      let (signs, w₁, checked, rest) =
        bind-ok (indexed_sign_list env req sic) (sign_and_send env sic) w hash w' h in
      let (tx, w₂, signed, sent) =
        bind-ok (add_signature env sic signs) (send_signed env sic) w₁ hash w' rest in
      let same₁ : w₁.db ≡ w.db =
        (subst (IsQuiet w) checked
          (check_signer-IsQuiet env req sic (has_webauthn env req.sign_list) w w refl refl)).2 in
      let same₂ : w₂ ≡ w₁ = lift-same _ w₁ tx w₂ signed in
      let same : w₂.db ≡ w.db = ap (λ (x : World). x.db) same₂ ∙ same₁ in
      send_signed-db tx w₂ w' owner (ap (λ (d : Db). d.faults) same ∙ quiet)
        (ap (λ (d : Db). find_first (is_tx sic.action (env.out_point_string hash 0)) d.pendings)
            same
          ∙ new)
        sent
      ∙ ap (with_row (pending_row env sic hash)) same

  -- The database after doTransactionSend has sent a transaction: a pending row under the next id.
  pub send_body-with_row :
      (req : SignInfo) (tx_str : String) (w w' : World)
      → (get_sign_tx_cache env.now req.sign_key w.redis).0 ≡ ok tx_str
      → env.parse_cache tx_str ≡ ok sic
      → str_eq sic.address "" ≡ false
      → w.db.faults ≡ []
      → IsNew w.db
      → send_body env req w ≡ (ok hash, w')
      → w'.db ≡ with_row (pending_row env sic hash) w.db
  unfolding send_body read_cached parse_and_send parse_cached ◌>>=◌ on_redis on_err lift
  send_body-with_row req tx_str w w' cached parsed owner quiet new h =
      check_and_send-db req
        (record w { redis = (get_sign_tx_cache env.now req.sign_key w.redis).1 }) w' owner quiet new
        (rw (cached, parsed) at h)
