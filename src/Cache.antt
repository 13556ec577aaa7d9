-- ===== src/Cache.antt =====
-- cache/*.go: the keys of the redis cache, with their lifetimes in seconds.
--
-- `connected` is `r.red != nil`, and `faults` is what the server does to the commands to come, as in
-- Dao. A command takes the time at which it runs.
pub mod Entries
pub mod Lock
pub mod Limits
pub mod Examples
use Prim.Native.String.{◌++◌ as string_append}
use das_multi_device.Prelude.{
  ℕ, ◌+◌, ◌*◌, String, Bool, true, false, not, ◌&&◌, Option, none, some, List, [], ◌∷◌, ltb, str_eq,
  if◌then◌else◌, select, find_first,
}
use das_multi_device.Outcome.{
  Error, plain, wrap, panic, Result, ok, err, Exec, on_err, ◌>>=◌, ◌>>◌, guard, lift, pure,
}

-- fmt and strings, as the keys use them: %d of a chain type, and strings.ToLower.
pub record Fmt : Type 0 where
  pub decimal : ℕ → String
  pub to_lower : String → String

pub record Entry : Type 0 where
  pub key : String
  pub value : String
  pub expires : ℕ

pub record Redis : Type 0 where
  pub connected : Bool
  pub entries : List Entry
  pub faults : List (Option Error)

module _ {A : Type 0} where
  unfoldable pub faulted : List (Option Error) → Exec Redis Error A → Exec Redis Error A
  faulted [] m r = m r
  faulted (none ∷ fs) m r = m (record r { faults = fs })
  faulted (some e ∷ fs) m r = (err e, record r { faults = fs })

  -- One command, which the server may refuse.
  unfoldable pub command : Exec Redis Error A → Exec Redis Error A
  unfolding faulted
  command m r = faulted r.faults m r

abbrev is_live : ℕ → String → Entry → Bool
is_live now key e = str_eq e.key key && ltb now e.expires

unfoldable pub live_entry : ℕ → String → List Entry → Option Entry
unfolding find_first
live_entry now key es = find_first (is_live now key) es

unfoldable pub without_key : String → List Entry → List Entry
unfolding select
without_key key es = select (λ e. not (str_eq e.key key)) es

-- SET key value EX ttl
unfoldable pub put : ℕ → String → String → ℕ → List Entry → List Entry
unfolding without_key
put now key value ttl es =
    record { key = key; value = value; expires = now + ttl } ∷ without_key key es

-- SET key value NX EX ttl, which says whether the key was free.
unfoldable pub set_free : ℕ → String → String → ℕ → Option Entry → Exec Redis Error Bool
set_free now key value ttl (some e) r = (ok false, r)
set_free now key value ttl none r =
    (ok true, record r { entries = put now key value ttl r.entries })

unfoldable pub set_nx : ℕ → String → String → ℕ → Exec Redis Error Bool
unfolding command set_free
set_nx now key value ttl =
    command (λ r. set_free now key value ttl (live_entry now key r.entries) r)

unfoldable pub set_key : ℕ → String → String → ℕ → Exec Redis Error Unit
unfolding command
set_key now key value ttl =
    command (λ r. (ok tt, record r { entries = put now key value ttl r.entries }))

unfoldable pub del_key : String → Exec Redis Error Unit
unfolding command
del_key key = command (λ r. (ok tt, record r { entries = without_key key r.entries }))

unfoldable pub get_key : ℕ → String → Exec Redis Error (Option String)
unfolding command
get_key now key =
    command
      (λ r. (ok (elim (live_entry now key r.entries) [ none ↦ none | some e ↦ some e.value ]), r))

infixr 66 ◌⧺◌
abbrev pub ◌⧺◌ : String → String → String
a ⧺ b = string_append a b

-- getSearchLimitKey, getApiLimitKey, getSignTxCacheKey
unfoldable pub get_search_limit_key : Fmt → ℕ → String → String → String
get_search_limit_key fmt chain_type address action =
    fmt.to_lower ("search:limit:" ⧺ action ⧺ ":" ⧺ fmt.decimal chain_type ⧺ ":" ⧺ address)

unfoldable pub get_api_limit_key : Fmt → ℕ → String → String → String
get_api_limit_key fmt chain_type address action =
    fmt.to_lower ("api:limit:" ⧺ action ⧺ ":" ⧺ fmt.decimal chain_type ⧺ ":" ⧺ address)

unfoldable pub get_sign_tx_cache_key : String → String
get_sign_tx_cache_key key = "sign:tx:" ⧺ key

-- ErrDistributedLockPreemption
abbrev pub err_distributed_lock_preemption : Error
err_distributed_lock_preemption = plain "distributed lock preemption"

-- if r.red == nil { return ... }
unfoldable pub is_connected : Exec Redis Error Unit
is_connected r = (if r.connected then ok tt else err (plain "redis is nil"), r)

-- A method call on the nil client panics.
unfoldable pub dereference : Exec Redis Error Unit
dereference r = (if r.connected then ok tt else err (panic "nil redis client"), r)

-- LockWithRedis; the key that it returns is what its closure deletes.
unfoldable pub lock_with_redis : Fmt → ℕ → ℕ → String → String → ℕ → Exec Redis Error String
unfolding ◌>>=◌ dereference
lock_with_redis fmt now chain_type address action expiration = do
  dereference
  free ←
      on_err (wrap "redis set order nx")
        (set_nx now (get_search_limit_key fmt chain_type address action) "" expiration)
  guard free err_distributed_lock_preemption
  pure (get_search_limit_key fmt chain_type address action)

-- time.Minute*3
unfoldable pub set_api_limit : Fmt → ℕ → ℕ → String → String → Exec Redis Error Unit
unfolding ◌>>=◌ is_connected
set_api_limit fmt now chain_type address action = do
  is_connected
  set_key now (get_api_limit_key fmt chain_type address action) "1" (3 * 60)

-- redis.Nil
abbrev pub redis_nil : Error
redis_nil = plain "redis: nil"

unfoldable pub or_nil : Option String → Result Error String
or_nil none = err redis_nil
or_nil (some v) = ok v

unfoldable pub get_sign_tx_cache : ℕ → String → Exec Redis Error String
unfolding ◌>>=◌ is_connected or_nil
get_sign_tx_cache now key = do
  is_connected
  found ← get_key now (get_sign_tx_cache_key key)
  lift (or_nil found)

-- time.Hour*100
unfoldable pub set_sign_tx_cache : ℕ → String → String → Exec Redis Error Unit
unfolding ◌>>=◌ is_connected
set_sign_tx_cache now key tx_str = do
  is_connected
  set_key now (get_sign_tx_cache_key key) tx_str (100 * 3600)
