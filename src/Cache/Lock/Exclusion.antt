-- ===== src/Cache/Lock/Exclusion.antt =====
-- cache/api_limit.go, LockWithRedis: one request at a time holds the lock.
use das_multi_device.Prelude.{
  ℕ, ◌+◌, ◌≤◌, ◌<◌, ◌==◌, String, true, not, some, List, [], ◌∷◌, ◌≡◌, sym, subst, arith, str_eq,
  select, length,
}
use das_multi_device.Outcome.{on_err, lift, ◌>>=◌}
use das_multi_device.Cache.{
  Entry, Redis, command, faulted, set_free, live_entry, set_nx, set_key, del_key, lock_with_redis,
  dereference,
}
use das_multi_device.Cache.Lock.{
  Holder, System, Move, enter, leave, elsewhere, wait, holds, all_before, Lock, key_of, take_lock,
  admitted, step, is_timely, Reach, start, later,
}
use das_multi_device.Cache.Entries.{live_entry-later, live_entry-put_own, live_entry-put_other}

-- The one holder, and the entry of its lock.
abbrev Guarded : Lock → ℕ → List Entry → List Holder → Type 0
Guarded l now es [] = Unit
Guarded l now es (h ∷ []) =
    live_entry now (key_of l) es
    ≡ some (record { key = key_of l; value = ""; expires = h.since + l.expiration })
Guarded l now es (h ∷ k ∷ hs) = ⊥

enter-Guarded :
    (l : Lock) (id now : ℕ) (r : Redis) (hs : List Holder)
    → 0 < l.expiration
    → Guarded l now r.entries hs
    → Guarded l now
        (take_lock l (record { now = now; redis = r; holders = hs })).1.entries
        (admitted id now (take_lock l (record { now = now; redis = r; holders = hs })).0 hs)
unfolding lock_with_redis dereference set_nx set_free command faulted on_err lift ◌>>=◌ key_of
    admitted
enter-Guarded l id now r [] p h =
    ground (arith, live_entry-put_own now (key_of l) "" l.expiration now r.entries)
enter-Guarded l id now r (k ∷ []) p h = ground (arith, h)
enter-Guarded l id now r (k ∷ j ∷ hs) p h = absurd h

leave-Guarded :
    (l : Lock) (id now : ℕ) (r : Redis) (hs : List Holder)
    → holds id hs ≡ true
    → Guarded l now r.entries hs
    → Guarded l now (del_key (key_of l) r).1.entries (select (λ h. not (h.id == id)) hs)
unfolding holds select
leave-Guarded l id now r [] k h = tt
leave-Guarded l id now r (x ∷ []) k h = ground arith
leave-Guarded l id now r (x ∷ y ∷ hs) k h = absurd h

elsewhere-Guarded :
    (l : Lock) (now ttl : ℕ) (key value : String) (r : Redis) (hs : List Holder)
    → not (str_eq key (key_of l)) ≡ true
    → Guarded l now r.entries hs
    → Guarded l now (set_key now key value ttl r).1.entries hs
unfolding set_key command faulted
elsewhere-Guarded l now ttl key value r [] k h = tt
elsewhere-Guarded l now ttl key value r (x ∷ []) k h =
    ground (arith, live_entry-put_other now (key_of l) key value ttl now r.entries)
elsewhere-Guarded l now ttl key value r (x ∷ y ∷ hs) k h = absurd h

wait-Guarded :
    (l : Lock) (now n : ℕ) (es : List Entry) (hs : List Holder)
    → all_before (now + n) l.expiration hs ≡ true
    → Guarded l now es hs
    → Guarded l (now + n) es hs
unfolding all_before
wait-Guarded l now n es [] k h = tt
wait-Guarded l now n es (x ∷ []) k h =
    live_entry-later now (now + n) (key_of l) es _ h (omega arith) (ground arith)
wait-Guarded l now n es (x ∷ y ∷ hs) k h = absurd h

step-Guarded :
    (l : Lock) (m : Move) (s : System)
    → 0 < l.expiration
    → is_timely l m s ≡ true
    → Guarded l s.now s.redis.entries s.holders
    → Guarded l (step l m s).now (step l m s).redis.entries (step l m s).holders
unfolding step is_timely
step-Guarded l (enter id) s p k h = enter-Guarded l id s.now s.redis s.holders p h
step-Guarded l (leave id) s p k h = leave-Guarded l id s.now s.redis s.holders k h
step-Guarded l (elsewhere key value ttl) s p k h =
    elsewhere-Guarded l s.now ttl key value s.redis s.holders k h
step-Guarded l (wait n) s p k h = wait-Guarded l s.now n s.redis.entries s.holders k h

Guarded-length :
    (l : Lock) (now : ℕ) (es : List Entry) (hs : List Holder) → Guarded l now es hs → length hs ≤ 1
Guarded-length l now es [] h = omega arith
Guarded-length l now es (x ∷ []) h = omega arith
Guarded-length l now es (x ∷ y ∷ hs) h = absurd h

Reach-Guarded :
    (l : Lock) {s t : System}
    → 0 < l.expiration
    → s.holders ≡ []
    → Reach l s t
    → Guarded l t.now t.redis.entries t.holders
Reach-Guarded l {s} p none_holds start = subst (Guarded l s.now s.redis.entries) (sym none_holds) tt
Reach-Guarded l p none_holds (later {t} r m k) =
    step-Guarded l m t p k (Reach-Guarded l p none_holds r)

-- From a state without holders, however requests take and release the lock, whatever redis refuses
-- and however often other keys are set, at most one request holds the lock at a time, as long as
-- only holders delete it and none holds it longer than redis keeps it.
pub mutual_exclusion :
    (l : Lock) {s t : System}
    → 0 < l.expiration
    → s.holders ≡ []
    → Reach l s t
    → length t.holders ≤ 1
mutual_exclusion l {s} {t} p none_holds r =
    Guarded-length l t.now t.redis.entries t.holders (Reach-Guarded l p none_holds r)
