-- ===== src/Cache/Examples.antt =====
-- cache/*.go: the lock and a limit by concrete requests.
use das_multi_device.Prelude.{◌≤◌, ◌*◌, true, [], ◌∷◌, ◌≡◌, refl, arith, length, find_first}
use das_multi_device.Outcome.{◌>>=◌}
use das_multi_device.Cache.{
  get_search_limit_key, lock_with_redis, set_nx, set_free, command, faulted, live_entry,
  dereference,
}
use das_multi_device.Cache.Lock.{
  System, enter, leave, wait, Lock, step, is_timely, all_before, admitted, start, later, run,
}
use das_multi_device.Cache.Lock.Exclusion.{mutual_exclusion}
use das_multi_device.Cache.Lock.Overlap.{late_release_overlaps}

abbrev lock : Lock
lock = record {
  fmt = record { decimal = λ _. "8"; to_lower = λ s. s };
  chain_type = 8;
  address = "0xb1";
  action = "createKeyListConfigCell";
  expiration = 4 * 60;
}

abbrev idle : System
idle = record {
  now = 1_000;
  redis = record { connected = true; entries = []; faults = [] };
  holders = [];
}

-- Two requests want the lock, time passes, and the first one ends.
abbrev served : System
served = step lock (enter 2) (step lock (wait 60) (step lock (enter 1) idle))

mutual_exclusion_example : length served.holders ≤ 1
unfolding is_timely all_before step admitted lock_with_redis set_nx set_free command faulted
    live_entry get_search_limit_key dereference ◌>>=◌ find_first
mutual_exclusion_example =
    mutual_exclusion lock {s = idle} {t = served} (omega arith) refl
      (later (later (later start (enter 1) refl) (wait 60) refl) (enter 2) refl)

late_release_overlaps_example :
    (run lock (enter 1 ∷ wait (4 * 60) ∷ enter 2 ∷ leave 1 ∷ enter 3 ∷ []) idle).holders
    ≡ record { id = 3; since = 1_240 } ∷ record { id = 2; since = 1_240 } ∷ []
unfolding live_entry find_first
late_release_overlaps_example = late_release_overlaps lock 1 2 3 idle refl refl refl refl refl
