-- ===== src/Cache/Lock.antt =====
-- cache/api_limit.go, LockWithRedis, as requests use it in http_server/handle/authorize.go: requests
-- interleave in any order, and each holds the lock from its LockWithRedis to its deferred deletion.
pub mod Exclusion
pub mod Overlap
use das_multi_device.Prelude.{
  ℕ, ◌+◌, ◌≤◌, ◌<◌, ◌==◌, String, Bool, true, false, not, ◌&&◌, Option, none, some, List, [], ◌∷◌,
  ◌≡◌, refl, sym, ap, subst, ◌∙◌, arith, ltb, str_eq, eq_iff, select, find_first, length, All, inl,
  inr, Bool-cases, if◌then◌else◌,
}
use das_multi_device.Outcome.{Error, Result, ok, err, Exec, on_err, lift, guard, pure, ◌>>=◌}
use das_multi_device.Cache.{
  Fmt, Entry, Redis, command, faulted, set_free, live_entry, put, without_key, set_nx, set_key,
  del_key, get_search_limit_key, lock_with_redis, dereference,
}

-- A request that holds the lock, and when it took it.
pub record Holder : Type 0 where
  pub id : ℕ
  pub since : ℕ

pub record System : Type 0 where
  pub now : ℕ
  pub redis : Redis
  pub holders : List Holder

-- A request takes the lock or is turned away, it deletes the lock, another key is set, time passes.
pub data Move : Type 0 where
  enter leave : ℕ → Move
  elsewhere : String → String → ℕ → Move
  wait : ℕ → Move

unfoldable pub holds : ℕ → List Holder → Bool
holds id [] = false
holds id (h ∷ hs) = if h.id == id then true else holds id hs

unfoldable pub all_before : ℕ → ℕ → List Holder → Bool
all_before t expiration [] = true
all_before t expiration (h ∷ hs) = ltb t (h.since + expiration) && all_before t expiration hs

-- LockWithRedis for one chain type, address and action, and the time after which redis drops the lock.
pub record Lock : Type 0 where
  pub fmt : Fmt
  pub chain_type : ℕ
  pub address : String
  pub action : String
  pub expiration : ℕ

unfoldable pub key_of : Lock → String
key_of l = get_search_limit_key l.fmt l.chain_type l.address l.action

abbrev pub take_lock : Lock → System → Result Error String × Redis
take_lock l s = lock_with_redis l.fmt s.now l.chain_type l.address l.action l.expiration s.redis

unfoldable pub admitted : {E A : Type 0} → ℕ → ℕ → Result E A → List Holder → List Holder
admitted id now (ok a) hs = record { id = id; since = now } ∷ hs
admitted id now (err e) hs = hs

unfoldable pub step : Lock → Move → System → System
unfolding key_of admitted
step l (enter id) s = record s {
  redis = (take_lock l s).1;
  holders = admitted id s.now (take_lock l s).0 s.holders;
}
step l (leave id) s = record s {
  redis = (del_key (key_of l) s.redis).1;
  holders = select (λ h. not (h.id == id)) s.holders;
}
step l (elsewhere key value ttl) s = record s { redis = (set_key s.now key value ttl s.redis).1 }
step l (wait n) s = record s { now = s.now + n }

-- Only a holder deletes the lock, other code uses other keys, and the holders end before redis drops
-- the lock.
unfoldable pub is_timely : Lock → Move → System → Bool
unfolding key_of holds all_before
is_timely l (enter id) s = true
is_timely l (leave id) s = holds id s.holders
is_timely l (elsewhere key value ttl) s = not (str_eq key (key_of l))
is_timely l (wait n) s = all_before (s.now + n) l.expiration s.holders

pub data Reach (l : Lock) (s : System) : System → Type 0 where
  start : Reach l s s
  later : {t : System} → Reach l s t → (m : Move) → is_timely l m t ≡ true → Reach l s (step l m t)

unfoldable pub run : Lock → List Move → System → System
run l [] s = s
run l (m ∷ ms) s = run l ms (step l m s)
