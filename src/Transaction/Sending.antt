-- ===== src/Transaction/Sending.antt =====
-- http_server/handle/transaction.go, doTransactionSend: what an answer says of the chain.
use das_multi_device.Prelude.{
  String, Bool, true, false, List, ◌∷◌, ◌≡◌, refl, ◌∙◌, ap, subst, arith,
}
use das_multi_device.Outcome.{Error, Result, ok, err, change_err, Exec, lift, on_err, ◌>>=◌}
use das_multi_device.Outcome.Keeps.{bind-cases}
use das_multi_device.Api.{ApiCode, success, Handled}
use das_multi_device.Service.{BuiltTx, SignData, SignInfo, SignInfoCache, World, on_db, on_redis}
use das_multi_device.Transaction.{
  SendEnv, cache_failure, check_signer, indexed_sign_list, require_index, has_webauthn,
  send_failure, submit, record_pending, also, send_body, send_signed, add_signature, sign_and_send,
  check_and_send, parse_cached, parse_and_send, read_cached,
}

abbrev pub is_success : ApiCode → Bool
is_success success = true
is_success _ = false

-- Nothing happened to the chain or the database, and the response says that it failed.
pub record IsRefused (w : World) (h : Handled String) (w' : World) : Type 0 where
  pub failed : is_success h.resp.err_no ≡ false
  pub same_sent : w'.sent ≡ w.sent
  pub same_db : w'.db ≡ w.db

-- The node took one transaction, the response holds its hash, and it was sent once.
pub record IsAccepted (env : SendEnv) (w : World) (hash : String) (w' : World) : Type 0 where
  pub tx : BuiltTx
  pub accepted : env.send_transaction tx ≡ ok hash
  pub one_sent : w'.sent ≡ tx ∷ w.sent

abbrev pub IsTruthful : SendEnv → World → Result (Handled String) String × World → Type 0
IsTruthful env w (err h, w') = IsRefused w h w'
IsTruthful env w (ok hash, w') = IsAccepted env w hash w'

abbrev pub is_refusal : {A : Type 0} → Result (Handled String) A → Bool
is_refusal (ok a) = true
is_refusal (err h) = elim (is_success h.resp.err_no) [ true ↦ false | false ↦ true ]

-- A part of the handler that leaves the chain and the database as they are, and whose errors are
-- told.
abbrev pub IsQuiet : {A : Type 0} → World → Result (Handled String) A × World → Type 0
IsQuiet w o = (is_refusal o.0 ≡ true) × (o.1.sent ≡ w.sent) × (o.1.db ≡ w.db)

quiet_failure :
    (A : Type 0) (env : SendEnv) (w₀ : World) (h : Handled String) (w : World)
    → IsQuiet {A = A} w₀ (err h, w)
    → IsTruthful env w₀ (err h, w)
quiet_failure A env w₀ h w (r, s, d) = record { failed = ground arith; same_sent = s; same_db = d }

after_quiet :
    (A : Type 0) (env : SendEnv) (w₀ : World) (m : Exec World (Handled String) A)
    (k : A → Exec World (Handled String) String) (w : World)
    → IsQuiet w₀ (m w)
    → ((a : A) (w : World) → w.sent ≡ w₀.sent → w.db ≡ w₀.db → IsTruthful env w₀ (k a w))
    → IsTruthful env w₀ ((m >>= k) w)
after_quiet A env w₀ m k w quiet rest =
    bind-cases (IsTruthful env w₀) m k w
      (λ h w' eq. quiet_failure A env w₀ h w' (subst (IsQuiet w₀) eq quiet))
      (λ a w' eq. let (r, s, d) = subst (IsQuiet w₀) eq quiet in rest a w' s d)

-- An answer of das-lib, with its error told under a code that is no success.
lift-IsQuiet :
    {A : Type 0} (f : Error → Handled String) (r : Result Error A) (w₀ w : World)
    → ((e : Error) → is_success (f e).resp.err_no ≡ false)
    → w.sent ≡ w₀.sent
    → w.db ≡ w₀.db
    → IsQuiet w₀ (lift (change_err f r) w)
unfolding lift
lift-IsQuiet f (ok a) w₀ w told s d = (refl, s, d)
lift-IsQuiet f (err e) w₀ w told s d = (ground (arith, told e), s, d)

record_pending-sent :
    (env : SendEnv) (sic : SignInfoCache) (hash : String) (w : World)
    → (record_pending env sic hash w).sent ≡ w.sent
unfolding record_pending on_redis on_db
record_pending-sent env sic hash w = ground arith

send_failure-code :
    (env : SendEnv) (e : Error) → is_success (send_failure env e).resp.err_no ≡ false
unfolding send_failure
send_failure-code env e = ground arith

read_cached-IsQuiet :
    (env : SendEnv) (req : SignInfo) (w : World) → IsQuiet w (read_cached env req w)
unfolding read_cached cache_failure on_err on_redis
read_cached-IsQuiet env req w = ground arith

pub check_signer-IsQuiet :
    (env : SendEnv) (req : SignInfo) (sic : SignInfoCache) (b : Bool) (w₀ w : World)
    → w.sent ≡ w₀.sent
    → w.db ≡ w₀.db
    → IsQuiet w₀ (check_signer b env req sic w)
unfolding check_signer require_index ◌>>=◌
check_signer-IsQuiet env req sic b w₀ w s d = ground arith

submit-IsTruthful :
    (env : SendEnv) (sic : SignInfoCache) (tx : BuiltTx) (r : Result Error String) (w₀ w : World)
    → env.send_transaction tx ≡ r
    → w.sent ≡ w₀.sent
    → w.db ≡ w₀.db
    → IsTruthful env w₀ (
        (on_err (send_failure env) (submit tx r) >>= λ hash.
        also hash (record_pending env sic hash))
          w)
unfolding ◌>>=◌ submit also on_err
submit-IsTruthful env sic tx (ok hash) w₀ w h s d = record {
  tx = tx;
  accepted = h;
  one_sent =
      record_pending-sent env sic hash (record w { sent = tx ∷ w.sent }) ∙ ap (λ l. tx ∷ l) s;
}
submit-IsTruthful env sic tx (err e) w₀ w h s d = record {
  failed = send_failure-code env e;
  same_sent = s;
  same_db = d;
}

module _ (env : SendEnv) (w₀ : World) where
  sign_and_send-IsTruthful :
      (sic : SignInfoCache) (sign_list : List SignData) (w : World)
      → w.sent ≡ w₀.sent
      → w.db ≡ w₀.db
      → IsTruthful env w₀ (sign_and_send env sic sign_list w)
  unfolding sign_and_send add_signature send_signed
  sign_and_send-IsTruthful sic sign_list w s d =
      after_quiet _ env w₀ (add_signature env sic sign_list) (send_signed env sic) w
        (lift-IsQuiet _ (env.add_signature sic.builder_tx sign_list) w₀ w (λ e. refl) s d)
        (λ tx w'. submit-IsTruthful env sic tx (env.send_transaction tx) w₀ w' refl)

  check_and_send-IsTruthful :
      (req : SignInfo) (sic : SignInfoCache) (w : World)
      → w.sent ≡ w₀.sent
      → w.db ≡ w₀.db
      → IsTruthful env w₀ (check_and_send env req sic w)
  unfolding check_and_send indexed_sign_list
  check_and_send-IsTruthful req sic w s d =
      after_quiet _ env w₀ (indexed_sign_list env req sic) (sign_and_send env sic) w
        (check_signer-IsQuiet env req sic (has_webauthn env req.sign_list) w₀ w s d)
        (sign_and_send-IsTruthful sic)

  parse_and_send-IsTruthful :
      (req : SignInfo) (tx_str : String) (w : World)
      → w.sent ≡ w₀.sent
      → w.db ≡ w₀.db
      → IsTruthful env w₀ (parse_and_send env req tx_str w)
  unfolding parse_and_send parse_cached
  parse_and_send-IsTruthful req tx_str w s d =
      after_quiet _ env w₀ (parse_cached env tx_str) (check_and_send env req) w
        (lift-IsQuiet _ (env.parse_cache tx_str) w₀ w (λ e. refl) s d)
        (check_and_send-IsTruthful req)

-- Whatever the cache, the database and the node answer, the body of doTransactionSend either fails
-- with a response that says so, and has sent nothing and left the database as it was, or returns the
-- hash of a transaction that the node took, which was sent once, and sent nothing else.
pub send_body-IsTruthful :
    (env : SendEnv) (req : SignInfo) (w : World) → IsTruthful env w (send_body env req w)
unfolding send_body
send_body-IsTruthful env req w =
    after_quiet _ env w (read_cached env req) (parse_and_send env req) w
      (read_cached-IsQuiet env req w) (parse_and_send-IsTruthful env w req)
