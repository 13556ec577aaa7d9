-- ===== src/Timer/Examples.antt =====
-- timer/rejected.go: checkRejected at concrete rows.
use das_multi_device.Prelude.{
  ℕ, String, true, none, some, [], ◌∷◌, ◌≡◌, refl, map, str_eq, select, if◌then◌else◌, arith,
}
use das_multi_device.Outcome.{ok}
use das_multi_device.Dao.{PendingInfo, Db, pending}
use das_multi_device.Dao.Pendings.{maybe_rejected}
use das_multi_device.Timer.{
  TxView, Env, committed, unknown, check_rejected, deadline, is_latest_block_number,
}
use das_multi_device.Timer.Rejects.{
  check_rejected-settle_own, check_rejected-unseen, every_gone, settle_own, reject_if,
}

abbrev row : ℕ → String → PendingInfo
row id outpoint = record {
  id = id;
  block_number = 0;
  action = "update_device_key_list";
  chain_type = 8;
  address = "0xb1";
  capacity = 0;
  outpoint = outpoint;
  block_timestamp = 1;
  status = pending;
}

abbrev two_rows : Db
two_rows = record {
  block_infos = [];
  pendings = row 1 "0xaa-0" ∷ row 2 "0xbb-0" ∷ [];
  next_pending_id = 3;
  avatar_notes = [];
  cid_infos = [];
  cid_pks = [];
  authorizes = [];
  accounts = [];
  faults = [];
}

-- The node knows the transaction of the second row, or none.
abbrev view : String → TxView
view o =
    if str_eq o "0xbb-0"
    then record { status = committed; block = some (7, 70) }
    else record { status = unknown; block = none }

abbrev nothing : String → TxView
nothing o = record { status = unknown; block = none }

abbrev node : (String → TxView) → Env
node v = record {
  parser_url = "http://parser";
  post = λ _. some true;
  now = 1_000_000_000_000;
  get_transaction = λ o. ok (v o);
}

check_rejected-settle_own_example :
    (check_rejected (node view) two_rows).1.pendings
    ≡ map (settle_own view (deadline 1_000_000_000_000)) two_rows.pendings
unfolding select maybe_rejected every_gone is_latest_block_number
check_rejected-settle_own_example =
    check_rejected-settle_own view (node view) (λ o. refl) two_rows refl refl (omega arith)
      ((refl, tt), (tt, tt))

check_rejected-unseen_example :
    (check_rejected (node nothing) two_rows).1.pendings
    ≡ map (reject_if (deadline 1_000_000_000_000)) two_rows.pendings
unfolding select maybe_rejected every_gone is_latest_block_number
check_rejected-unseen_example =
    check_rejected-unseen nothing (node nothing) (λ o. refl) two_rows refl refl (omega arith) refl
