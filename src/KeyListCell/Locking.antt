-- ===== src/KeyListCell/Locking.antt =====
-- http_server/handle/authorize.go, createKeyListCfgCell: the lock of a payload.
use das_multi_device.Prelude.{ℕ, ◌*◌, String, true, none, some, [], ◌≡◌, arith}
use das_multi_device.Outcome.{Error, wrap, Result, err, lift, on_err, ◌>>=◌}
use das_multi_device.Cache.{
  Entry, command, live_entry, set_nx, put, del_key, dereference, lock_with_redis,
  get_search_limit_key, err_distributed_lock_preemption,
}
use das_multi_device.Cache.Entries.{live_entry-without_key}
use das_multi_device.KeyList.{CellOutput}
use das_multi_device.Service.{Env, World, on_redis}
use das_multi_device.KeyListCell.{
  build_create_key_list_cfg_tx, create_key_list_cfg_cell, create_locked, first_or_panic,
  release_after, send,
}

-- The key of the lock.
abbrev pub lock_key : Env → String → String
lock_key env payload =
    get_search_limit_key env.fmt env.chain_type_webauthn payload "createKeyListConfigCell"

pub build-same :
    (env : Env) (payload : String) (w : World) → (build_create_key_list_cfg_tx env payload w).1 ≡ w
unfolding build_create_key_list_cfg_tx ◌>>=◌
build-same env payload w = ground arith

create_locked-redis :
    (env : Env) (payload : String) (w : World) → (create_locked env payload w).1.redis ≡ w.redis
unfolding create_locked ◌>>=◌ send first_or_panic on_err lift
create_locked-redis env payload w = ground (arith, build-same env payload w)

module _ (env : Env) (payload : String) (w : World) where
  -- While another request holds the lock of the payload, createKeyListCfgCell fails, and changes
  -- and sends nothing, if redis is connected and takes the command.
  pub create_key_list_cfg_cell-locked :
      (e : Entry)
      → w.redis.connected ≡ true
      → w.redis.faults ≡ []
      → live_entry env.now (lock_key env payload) w.redis.entries ≡ some e
      → ◌≡◌ {A = Result Error (String × CellOutput) × World}
          (create_key_list_cfg_cell env payload w)
          (err (wrap "createKeyListCfgCell LockWithRedis" err_distributed_lock_preemption), w)
  unfolding create_key_list_cfg_cell ◌>>=◌ on_redis on_err lock_with_redis dereference set_nx
      command
  create_key_list_cfg_cell-locked e c f h = ground arith

  abbrev locked : World
  locked = record w {
    redis = record w.redis {
      entries = put env.now (lock_key env payload) "" (4 * 60) w.redis.entries;
    };
  }

  -- If nobody holds the lock of the payload and redis takes the commands, then however the creation
  -- of the cell ends, the lock is free when createKeyListCfgCell returns, at any time.
  pub live_entry-create_key_list_cfg_cell :
      (t : ℕ)
      → w.redis.connected ≡ true
      → w.redis.faults ≡ []
      → live_entry env.now (lock_key env payload) w.redis.entries ≡ none
      → live_entry t (lock_key env payload) (create_key_list_cfg_cell env payload w).1.redis.entries
        ≡ none
  unfolding create_key_list_cfg_cell release_after ◌>>=◌ on_redis on_err lock_with_redis dereference
      set_nx command del_key
  live_entry-create_key_list_cfg_cell t c f h = ground (
    arith,
    create_locked-redis env payload locked,
    live_entry-without_key t (lock_key env payload)
        (create_locked env payload locked).1.redis.entries,
  )
