-- ===== src/Transaction/Cached.antt =====
-- http_server/handle/authorize.go and transaction.go: what doAuthorize hands out for signing is what
-- doTransactionSend signs and sends.
use das_multi_device.Prelude.{
  ℕ, [], Option, none, some, ◌+◌, ◌*◌, ◌<◌, String, List, refl, ◌≡◌, ◌∙◌, ap, subst, ◌∷◌, arith,
  sub64,
}
use das_multi_device.Outcome.{Error, Result, ok, err, wrap, change_err, Exec, lift, on_err, ◌>>=◌}
use das_multi_device.Cache.{
  command, get_key, set_key, get_sign_tx_cache_key, get_sign_tx_cache, set_sign_tx_cache,
  is_connected, or_nil,
}
use das_multi_device.Cache.Entries.{live_entry-put_own}
use das_multi_device.Service.{
  AddressHex, fail_with, wrap_err, BuiltTx, Env, SignInfo, SignInfoCache, World, on_redis,
}
use das_multi_device.Api.{Handled, fail, error500}
use das_multi_device.Outcome.Keeps.{bind-ok, on_err-ok}
use das_multi_device.Authorize.{
  ReqAuthorize, sign_info_cache, cache_for_signing, build_webauthn_tx, build_and_cache,
  key_list_cell, with_cell, search_cid_pk, master_of, with_master, authorize_body, pay_first,
}
use das_multi_device.Dao.{CidPk}
use das_multi_device.KeyListCell.{first_or_panic}
use das_multi_device.KeyList.{CellOutput, TxParams, build_update_authorize_tx}
use das_multi_device.Transaction.{SendEnv, read_cached, parse_and_send, send_body}

module _ (env : Env) (send_env : SendEnv) (master out_point : String) (paid : BuiltTx)
    (si req : SignInfo) (w w' : World) where
  abbrev sic : SignInfoCache
  sic = sign_info_cache env master out_point paid

  pub get-cache_for_signing :
      cache_for_signing env master out_point paid w ≡ (ok si, w')
      → w'.redis.faults ≡ []
      → req.sign_key ≡ si.sign_key
      → send_env.now < env.now + 100 * 3600
      → (get_sign_tx_cache send_env.now req.sign_key w'.redis).0 ≡ ok (env.json sic)
  unfolding cache_for_signing ◌>>=◌ on_redis on_err lift get_sign_tx_cache set_sign_tx_cache
      is_connected or_nil get_key set_key command
  get-cache_for_signing h f k t = ground (
    arith,
    live_entry-put_own env.now (get_sign_tx_cache_key (env.sign_key sic)) (env.json sic)
        (100 * 3600) send_env.now w.redis.entries t,
  )

  send_body-cache_for_signing :
      cache_for_signing env master out_point paid w ≡ (ok si, w')
      → w'.redis.faults ≡ []
      → req.sign_key ≡ si.sign_key
      → send_env.now < env.now + 100 * 3600
      → send_body send_env req w' ≡ parse_and_send send_env req (env.json sic) w'
  unfolding send_body read_cached ◌>>=◌ on_redis on_err get_sign_tx_cache is_connected get_key
      command
  send_body-cache_for_signing h f k t = ground (arith, f, get-cache_for_signing h f k t)

abbrev pub fee_paid : Env → BuiltTx → BuiltTx
fee_paid env tx = record tx { outputs = pay_first (env.size_in_block tx) tx.outputs }

-- The transaction with its fee taken from its first output, `first`: its size and 1,000 shannon.
abbrev pub less_fee : Env → BuiltTx → CellOutput → List CellOutput → BuiltTx
less_fee env tx first others = record tx {
  outputs =
      record first { capacity = sub64 (sub64 first.capacity (env.size_in_block tx)) 1000 } ∷ others;
}

-- What is cached under the sign key: the transaction, the outpoint of the key-list cell, and whose it is.
abbrev pub to_cache : Env → String → String → BuiltTx → SignInfoCache
to_cache env master out_point tx = record {
  chain_type = env.chain_type_webauthn;
  address = master;
  action = env.action_update_key_list;
  capacity = 0;
  key_list_cfg_cell_opt = out_point;
  builder_tx = tx;
}

first_of :
    (os : List CellOutput) (o : CellOutput)
    → first_or_panic os ≡ ok o
    → (others : List CellOutput) × (os ≡ o ∷ others)
unfolding first_or_panic
first_of [] o h = cc
first_of (p ∷ os) o h = (os, ground (arith, h))

module _ (env : Env) (tx : BuiltTx) (first : CellOutput) (others : List CellOutput) where
  fee_paid-less_fee : tx.outputs ≡ first ∷ others → fee_paid env tx ≡ less_fee env tx first others
  unfolding pay_first
  fee_paid-less_fee h = ap (λ os. record tx { outputs = pay_first (env.size_in_block tx) os }) h

-- The first output of a new key-list cell goes with its outpoint.
abbrev pub at_out_point : String → Option CellOutput → Option (String × CellOutput)
at_out_point out_point none = none
at_out_point out_point (some cell) = some (out_point, cell)

-- A run of doAuthorize that handed out `si`, from `w` to `w'`: for the master of the request and the row
-- that was found for it, the key-list cell; for the slave of the request, the parameters that
-- buildUpdateAuthorizeTx made on that cell; the transaction that the txbuilder built from them; and that
-- this transaction, less its fee, is the one of the digests to sign and the one that was cached.
pub record HandsOut (env : Env) (req : ReqAuthorize) (si : SignInfo) (w w' : World) : Type 0 where
  pub master : String × List ℕ
  pub row : Option CidPk
  pub searched : World
  pub out_point : String
  pub cell : Option CellOutput
  pub before : World
  pub slave : AddressHex
  pub params : TxParams
  pub tx : BuiltTx
  pub first : CellOutput
  pub others : List CellOutput
  pub identified : master_of env req ≡ ok master
  pub found : search_cid_pk env master.1 w ≡ (ok row, searched)
  pub picked :
      ◌≡◌ {A = Result (Handled SignInfo) (String × Option CellOutput) × World}
        (key_list_cell env req.operation master.0 row searched)
        (ok (out_point, cell), before)
  pub known : env.normal_to_hex req.slave_ckb_address ≡ ok slave
  pub made :
      build_update_authorize_tx env.tx_env req.operation out_point slave.address_payload ≡ ok params
  pub built : env.build_transaction (at_out_point out_point cell) params ≡ ok tx
  pub outputs : tx.outputs ≡ first ∷ others
  pub digested : env.digest_list (less_fee env tx first others) ≡ ok si.sign_list
  pub cached :
      cache_for_signing env req.master_ckb_address out_point (fee_paid env tx) before ≡ (ok si, w')

change_err-ok :
    {E F A : Type 0} (f : E → F) (r : Result E A) (a : A) → change_err f r ≡ ok a → r ≡ ok a
change_err-ok f (ok b) a h = cc
change_err-ok f (err e) a h = cc

-- A library call that comes first succeeded, and changed nothing.
lift-ok :
    {S E A B : Type 0} (r : Result E A) (f : A → Exec S E B) (s q : S) (b : B)
    → (lift r >>= f) s ≡ (ok b, q)
    → (a : A) × (r ≡ ok a) × (f a s ≡ (ok b, q))
unfolding ◌>>=◌ lift
lift-ok (ok a) f s q b h = (a, refl, h)
lift-ok (err e) f s q b h = cc

abbrev tell_params : Error → Handled SignInfo
tell_params e = fail_with error500 "build tx err" (wrap_err "buildAddAuthorizeTx" e)

abbrev tell_build : Error → Handled SignInfo
tell_build e = fail_with error500 "buildWebauthnTx tx err" (wrap_err "buildWebauthnTx" e)

module _ (env : Env) (si : SignInfo) (w w' : World) where
  digest-cache_for_signing :
      (master out_point : String) (paid : BuiltTx)
      → cache_for_signing env master out_point paid w ≡ (ok si, w')
      → env.digest_list paid ≡ ok si.sign_list
  unfolding cache_for_signing ◌>>=◌ on_redis on_err lift
  digest-cache_for_signing master out_point paid h = ground arith

module _ (env : Env) (req : ReqAuthorize) (si : SignInfo) where
  -- buildWebauthnTx ends by caching the transaction that it built.
  build_webauthn_tx-built :
      (master out_point : String) (cell : Option CellOutput) (params : TxParams) (w w' : World)
      → build_webauthn_tx env master out_point cell params w ≡ (ok si, w')
      → (tx : BuiltTx) × (env.build_transaction (at_out_point out_point cell) params ≡ ok tx)
        × (first : CellOutput) × (first_or_panic tx.outputs ≡ ok first)
        × (cache_for_signing env master out_point (fee_paid env tx) w ≡ (ok si, w'))
  unfolding build_webauthn_tx
  build_webauthn_tx-built master out_point cell params w w' h =
      let build =
        change_err (wrap "txBuilder.BuildTransaction")
          (env.build_transaction (at_out_point out_point cell) params) in
      let cache = λ (tx : BuiltTx). cache_for_signing env master out_point (fee_paid env tx) in
      let (tx, built, rest) =
        lift-ok build (λ tx. lift (first_or_panic tx.outputs) >>= λ _. cache tx) w w' si h in
      let (first, there, cached) =
        lift-ok (first_or_panic tx.outputs) (λ _. cache tx) w w' si rest in
      (tx, change_err-ok (wrap "txBuilder.BuildTransaction") _ tx built, first, there, cached)

  -- After the key-list cell is chosen, doAuthorize builds on it.
  build_and_cache-HandsOut :
      (master : String × List ℕ) (row : Option CidPk) (cell : String × Option CellOutput)
      (w searched before w' : World)
      → master_of env req ≡ ok master
      → search_cid_pk env master.1 w ≡ (ok row, searched)
      → ◌≡◌ {A = Result (Handled SignInfo) (String × Option CellOutput) × World}
          (key_list_cell env req.operation master.0 row searched)
          (ok cell, before)
      → build_and_cache env req cell before ≡ (ok si, w')
      → HandsOut env req si w w'
  unfolding build_and_cache
  build_and_cache-HandsOut master row cell w searched before w' identified found picked h =
      let build = λ (params : TxParams).
        on_err tell_build (build_webauthn_tx env req.master_ckb_address cell.0 cell.1 params) in
      let params_of = λ (slave : AddressHex).
        change_err tell_params
          (build_update_authorize_tx env.tx_env req.operation cell.0 slave.address_payload) in
      let (slave, known, rest) =
        lift-ok
          (change_err (fail error500 "NormalToHex err") (env.normal_to_hex req.slave_ckb_address))
          (λ slave. lift (params_of slave) >>= build) before w' si h in
      let (params, made, last) = lift-ok (params_of slave) build before w' si rest in
      let (tx, built, first, there, cached) =
        build_webauthn_tx-built req.master_ckb_address cell.0 cell.1 params before w' (
          on_err-ok tell_build (build_webauthn_tx env req.master_ckb_address cell.0 cell.1 params)
            before si w' last) in
      let (others, outputs) = first_of tx.outputs first there in
      record {
        master = master;
        row = row;
        searched = searched;
        out_point = cell.0;
        cell = cell.1;
        before = before;
        slave = slave;
        params = params;
        tx = tx;
        first = first;
        others = others;
        identified = identified;
        found = found;
        picked = picked;
        known = change_err-ok (fail error500 "NormalToHex err") _ slave known;
        made = change_err-ok tell_params _ params made;
        built = built;
        outputs = outputs;
        digested =
            subst (λ paid. env.digest_list paid ≡ ok si.sign_list)
              (fee_paid-less_fee env tx first others outputs)
              (digest-cache_for_signing env si before w' req.master_ckb_address cell.0
                (fee_paid env tx) cached);
        cached = cached;
      }

  pub authorize_body-HandsOut :
      (w w' : World) → authorize_body env req w ≡ (ok si, w') → HandsOut env req si w w'
  unfolding authorize_body with_master with_cell
  authorize_body-HandsOut w w' h =
      let (master, identified, rest) =
        lift-ok (master_of env req) (with_master env req) w w' si h in
      let (row, searched, found, rest₂) =
        bind-ok (search_cid_pk env master.1) (with_cell env req master.0) w si w' rest in
      let (cell, before, picked, last) =
        bind-ok (key_list_cell env req.operation master.0 row) (build_and_cache env req) searched si
          w' rest₂ in
      build_and_cache-HandsOut master row cell w searched before w' identified found picked last

  -- When the body of doAuthorize has returned data to sign, then buildUpdateAuthorizeTx made parameters
  -- for the operation and the slave of the request on the key-list cell that was chosen for its master,
  -- the txbuilder built a transaction with an output from them, and the digests in the data to sign are
  -- those of this transaction less its fee, the size and 1,000 shannon, in the first output. A request to
  -- doTransactionSend with the sign key of the data, less than 100 hours later, goes on with the JSON of a
  -- SignInfoCache that holds this same transaction less its fee, the outpoint of the cell and the address
  -- of the master, if nothing happened to the cache in between and redis takes the command.
  pub send_body-authorize_body :
      (send_env : SendEnv) (send_req : SignInfo) (w w' : World)
      → authorize_body env req w ≡ (ok si, w')
      → w'.redis.faults ≡ []
      → send_req.sign_key ≡ si.sign_key
      → send_env.now < env.now + 100 * 3600
      → (run : HandsOut env req si w w') × (send_body send_env send_req w'
          ≡ parse_and_send send_env send_req
              (env.json (
                to_cache env req.master_ckb_address run.out_point
                  (less_fee env run.tx run.first run.others)))
              w')
  send_body-authorize_body send_env send_req w w' h f k t =
      let run = authorize_body-HandsOut w w' h in
      (
        run,
        send_body-cache_for_signing env send_env req.master_ckb_address run.out_point
              (fee_paid env run.tx) si send_req run.before w' run.cached f k t
            ∙ ap
                (λ paid.
                  parse_and_send send_env send_req
                    (env.json (to_cache env req.master_ckb_address run.out_point paid)) w')
                (fee_paid-less_fee env run.tx run.first run.others run.outputs),
      )
