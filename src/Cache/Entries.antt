-- ===== src/Cache/Entries.antt =====
-- cache/*.go: which entry of redis is found after a SET and a DEL.
use das_multi_device.Prelude.{
  ℕ, ◌+◌, ◌≤◌, ◌<◌, String, false, none, some, List, [], ◌∷◌, ◌≡◌, refl, arith, str_eq, eq_iff,
  select, find_first,
}
use das_multi_device.Cache.{Entry, live_entry, put, without_key}

pub live_entry-later :
    (now later : ℕ) (key : String) (es : List Entry) (e : Entry)
    → live_entry now key es ≡ some e
    → now ≤ later
    → later < e.expires
    → live_entry later key es ≡ some e
unfolding live_entry find_first
live_entry-later now later key [] e h le lt = ground arith
live_entry-later now later key (x ∷ es) e h le lt =
    ground (arith, live_entry-later now later key es e)

pub live_entry-put_own :
    (now : ℕ) (key value : String) (ttl t : ℕ) (es : List Entry)
    → t < now + ttl
    → live_entry t key (put now key value ttl es)
      ≡ some (record { key = key; value = value; expires = now + ttl })
unfolding live_entry put find_first
live_entry-put_own now key value ttl t es h = ground (arith, eq_iff key key)

pub live_entry-without_key :
    (now : ℕ) (key : String) (es : List Entry) → live_entry now key (without_key key es) ≡ none
unfolding live_entry without_key find_first select
live_entry-without_key now key [] = refl
live_entry-without_key now key (e ∷ es) =
    let ih = live_entry-without_key now key es in ground (arith, ih)

pub live_entry-put_expired :
    (now : ℕ) (key value : String) (ttl t : ℕ) (es : List Entry)
    → now + ttl ≤ t
    → live_entry t key (put now key value ttl es) ≡ none
unfolding live_entry put find_first
live_entry-put_expired now key value ttl t es h = ground (arith, live_entry-without_key t key es)

pub live_entry-without_other :
    (now : ℕ) (key other : String) (es : List Entry)
    → str_eq other key ≡ false
    → live_entry now key (without_key other es) ≡ live_entry now key es
unfolding live_entry find_first without_key select
live_entry-without_other now key other [] h = refl
live_entry-without_other now key other (x ∷ es) h =
    ground (arith, eq_iff x.key other, live_entry-without_other now key other es h)

pub live_entry-put_other :
    (now : ℕ) (key other value : String) (ttl t : ℕ) (es : List Entry)
    → str_eq other key ≡ false
    → live_entry t key (put now other value ttl es) ≡ live_entry t key es
unfolding live_entry put find_first
live_entry-put_other now key other value ttl t es h =
    ground (arith, live_entry-without_other t key other es h)
