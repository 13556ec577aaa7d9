-- ===== src/Authorize/Panics.antt =====
-- http_server/handle/authorize.go, doAuthorize, in a service that started without redis.
use das_multi_device.Prelude.{
  ℕ, String, Bool, true, false, Option, some, List, ◌≡◌, refl, sym, ◌∙◌, ap, arith,
}
use das_multi_device.Outcome.{Error, panic, Result, ok, err, lift, on_err, ◌>>=◌}
use das_multi_device.Api.{Handled, untouched, handled}
use das_multi_device.Dao.{CidPk}
use das_multi_device.Cache.{Redis, dereference, lock_with_redis}
use das_multi_device.Service.{Env, World, SignInfo, on_db, on_redis}
use das_multi_device.KeyListCell.{check_balance, check_can_be_created, create_key_list_cfg_cell}
use das_multi_device.Authorize.{
  ReqAuthorize, is_delete, not_enabled, new_key_list_cell, choose_key_list_cell, key_list_cell,
  with_cell, search_cid_pk, master_of, with_master, authorize_body, do_authorize,
}

search_cid_pk-redis :
    (env : Env) (cid1 : List ℕ) (w : World) → (search_cid_pk env cid1 w).1.redis ≡ w.redis
unfolding search_cid_pk on_db on_err
search_cid_pk-redis env cid1 w = refl

check_can_be_created-redis :
    (env : Env) (payload : String) (w : World)
    → (check_can_be_created env payload w).1.redis ≡ w.redis
unfolding check_can_be_created check_balance ◌>>=◌ on_err on_db
check_can_be_created-redis env payload w = ground arith

create_key_list_cfg_cell-no_redis :
    (env : Env) (payload : String) (w : World)
    → w.redis.connected ≡ false
    → create_key_list_cfg_cell env payload w ≡ (err (panic "nil redis client"), w)
unfolding create_key_list_cfg_cell ◌>>=◌ on_redis on_err lock_with_redis dereference
create_key_list_cfg_cell-no_redis env payload w h = ground arith

module _ (env : Env) (payload : String) (w w' : World)
    (can : check_can_be_created env payload w ≡ (ok true, w'))
    (down : w'.redis.connected ≡ false) where
  new_key_list_cell-no_redis :
      new_key_list_cell env payload w ≡ (err (untouched (some (panic "nil redis client"))), w')
  unfolding new_key_list_cell ◌>>=◌ on_err
  new_key_list_cell-no_redis =
      rw can (rw (create_key_list_cfg_cell-no_redis env payload w' down) refl)

  with_cell-no_redis :
      (req : ReqAuthorize) (res : Option CidPk)
      → not_enabled res ≡ true
      → is_delete req.operation ≡ false
      → with_cell env req payload res w ≡ (err (untouched (some (panic "nil redis client"))), w')
  unfolding with_cell key_list_cell choose_key_list_cell ◌>>=◌
  with_cell-no_redis req res lacks adds = rw lacks (rw adds (rw new_key_list_cell-no_redis refl))

-- When redis did not answer at the start, a request to doAuthorize that would enable backup panics, in
-- the state that its queries have left: if the request is not a deletion, its master address is valid, the
-- table has no enabled row for it, and checkCanBeCreated allows it.
pub do_authorize-no_redis :
    (env : Env) (req : ReqAuthorize) (w w' w'' : World) (payload : String) (cid1 : List ℕ)
    (res : Option CidPk)
    → w.redis.connected ≡ false
    → is_delete req.operation ≡ false
    → master_of env req ≡ ok (payload, cid1)
    → search_cid_pk env cid1 w ≡ (ok res, w')
    → not_enabled res ≡ true
    → check_can_be_created env payload w' ≡ (ok true, w'')
    → do_authorize env req w ≡ (untouched (some (panic "nil redis client")), w'')
unfolding do_authorize handled authorize_body with_master ◌>>=◌ lift
do_authorize-no_redis env req w w' w'' payload cid1 res down adds master row lacks can =
    let same : w''.redis ≡ w.redis =
      sym (ap (λ (o : Result Error Bool × World). o.1.redis) can)
      ∙ check_can_be_created-redis env payload w'
      ∙ sym (ap (λ (o : Result (Handled SignInfo) (Option CidPk) × World). o.1.redis) row)
      ∙ search_cid_pk-redis env cid1 w in
    let still_down : w''.redis.connected ≡ false = ap (λ (r : Redis). r.connected) same ∙ down in
    rw master
      (rw row (rw (with_cell-no_redis env payload w' w'' can still_down req res lacks adds) refl))
