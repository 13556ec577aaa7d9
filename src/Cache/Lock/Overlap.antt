-- ===== src/Cache/Lock/Overlap.antt =====
-- cache/api_limit.go, LockWithRedis: a lock that outlives its entry.
use das_multi_device.Prelude.{
  ℕ, ◌+◌, ◌==◌, true, false, none, List, [], ◌∷◌, ◌≡◌, refl, ap, ◌∙◌, arith, select,
}
use das_multi_device.Outcome.{on_err, lift, ◌>>=◌}
use das_multi_device.Cache.{
  Redis, command, faulted, set_free, live_entry, put, without_key, set_nx, del_key, lock_with_redis,
  dereference,
}
use das_multi_device.Cache.Lock.{
  Holder, System, enter, leave, wait, Lock, key_of, admitted, step, run,
}
use das_multi_device.Cache.Entries.{live_entry-put_expired, live_entry-without_key}

-- The redis after a LockWithRedis that found the key free.
abbrev taken : Lock → ℕ → Redis → Redis
taken l now r = record r { entries = put now (key_of l) "" l.expiration r.entries }

enter-free :
    (l : Lock) (id : ℕ) (s : System)
    → s.redis.connected ≡ true
    → s.redis.faults ≡ []
    → live_entry s.now (key_of l) s.redis.entries ≡ none
    → step l (enter id) s ≡ record s {
      redis = taken l s.now s.redis;
      holders = record { id = id; since = s.now } ∷ s.holders;
    }
unfolding step lock_with_redis dereference set_nx set_free command faulted on_err lift ◌>>=◌ key_of
    admitted
enter-free l id s c f h = ground arith

step-wait : (l : Lock) (n : ℕ) (s : System) → step l (wait n) s ≡ record s { now = s.now + n }
unfolding step
step-wait l n s = refl

leave-first :
    (l : Lock) (a b now since : ℕ) (r : Redis) (hs : List Holder)
    → r.faults ≡ []
    → hs ≡ []
    → (b == a) ≡ false
    → step l (leave a) (record {
      now = now;
      redis = r;
      holders = record { id = b; since = now } ∷ record { id = a; since = since } ∷ hs;
    })
      ≡ record {
        now = now;
        redis = record r { entries = without_key (key_of l) r.entries };
        holders = record { id = b; since = now } ∷ [];
      }
unfolding step del_key command faulted select
leave-first l a b now since r [] f no_more differ = ground arith
leave-first l a b now since r (h ∷ hs) f some_hold differ = ground arith

-- A request that holds the lock longer than redis keeps it deletes, when it ends, the lock of the
-- request that took it in the meantime, so that a third one takes it beside that one.
pub late_release_overlaps :
    (l : Lock) (a b c : ℕ) (s : System)
    → s.redis.connected ≡ true
    → s.redis.faults ≡ []
    → s.holders ≡ []
    → live_entry s.now (key_of l) s.redis.entries ≡ none
    → (b == a) ≡ false
    → (run l (enter a ∷ wait l.expiration ∷ enter b ∷ leave a ∷ enter c ∷ []) s).holders
      ≡ record { id = c; since = s.now + l.expiration }
        ∷ record { id = b; since = s.now + l.expiration }
        ∷ []
unfolding run
late_release_overlaps l a b c s conn f none_holds free differ =
    let now = s.now + l.expiration in
    let s₁ = record s {
      redis = taken l s.now s.redis;
      holders = record { id = a; since = s.now } ∷ s.holders;
    } in
    let s₂ = record s₁ { now = now } in
    let s₃ = record s₂ {
      redis = taken l now s₁.redis;
      holders = record { id = b; since = now } ∷ s₁.holders;
    } in
    let s₄ = record s₃ {
      redis = record s₃.redis { entries = without_key (key_of l) s₃.redis.entries };
      holders = record { id = b; since = now } ∷ [];
    } in
    ap (λ t. (run l (wait l.expiration ∷ enter b ∷ leave a ∷ enter c ∷ []) t).holders)
      (enter-free l a s conn f free)
    ∙ ap (λ t. (run l (enter b ∷ leave a ∷ enter c ∷ []) t).holders) (step-wait l l.expiration s₁)
    ∙ ap (λ t. (run l (leave a ∷ enter c ∷ []) t).holders)
        (enter-free l b s₂ conn f (
          live_entry-put_expired s.now (key_of l) "" l.expiration now s.redis.entries
            (omega arith)))
    ∙ ap (λ t. (run l (enter c ∷ []) t).holders)
        (leave-first l a b now s.now s₃.redis s.holders f none_holds differ)
    ∙ ap (λ (t : System). t.holders)
        (enter-free l c s₄ conn f (live_entry-without_key now (key_of l) s₃.redis.entries))
