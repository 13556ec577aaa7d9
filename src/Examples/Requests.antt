-- ===== src/Examples/Requests.antt =====
-- http_server/handle/*.go: the handlers at concrete requests, with a node and a database that answer.
use das_multi_device.Prelude.{
  ℕ, ◌+◌, ◌*◌, ◌≤◌, ◌<◌, ◌^◌, String, true, none, List, [], ◌∷◌, ◌≡◌, refl, arith, ltb, select,
  if◌then◌else◌,
}
use das_multi_device.Outcome.{Error, Result, ok}
use das_multi_device.Api.{respond_ok, untouched}
use das_multi_device.Dao.{CidPk, on}
use das_multi_device.Dao.CidInfos.{find_cid}
use das_multi_device.Dao.ParserTables.{get_cid_pk}
use das_multi_device.KeyList.{OutPoint, CellOutput, TxParams, WebauthnKey, split_at}
use das_multi_device.Service.{AddressHex, Env, World}
use das_multi_device.KeyListCell.{
  build_create_key_list_cfg_tx, create_key_list_cfg_cell, create_locked, release_after,
}
use das_multi_device.KeyListCell.Fees.{last_capacity, paid_of, total-create_key_list_cfg_cell}
use das_multi_device.KeyListCell.Balance.{total, input_total, first_capacity}
use das_multi_device.AuthorizeInfo.{Devices, is_master, notes_of, device_of, do_authorize_info}
use das_multi_device.AuthorizeInfo.Lists.{do_authorize_info-backups}
use das_multi_device.OldCid.{CidFile, has_uncovered, is_uncovered}
use das_multi_device.OldCid.Interleaved.{begin, finish, turns, cover_lost}
use das_multi_device.KeyList.{add, update_keys, add_key, has_key, build_update_authorize_tx}
use das_multi_device.Cache.{
  set_sign_tx_cache, set_key, lock_with_redis, set_nx, live_entry, get_search_limit_key,
}
use das_multi_device.Service.{SignInfo, BuiltTx}
use das_multi_device.Authorize.{
  ReqAuthorize, authorize_body, with_master, master_of, search_cid_pk, with_cell, key_list_cell,
  not_enabled, choose_key_list_cell, build_and_cache, build_webauthn_tx, cache_for_signing,
}
use das_multi_device.Transaction.{send_body, parse_and_send}
use das_multi_device.Transaction.Cached.{HandsOut, less_fee, to_cache, send_body-authorize_body}
use das_multi_device.Examples.{send_env, signed, env, world, db, old, down}

-- One cell of 1000 CKB pays, and the change comes back in one cell.
abbrev server_cell : OutPoint
server_cell = record { tx_hash = "0x51"; index = 0 }

abbrev pub server_output : CellOutput
server_output = record { capacity = 16_200_000_000; scripts = "s" }

abbrev split : ℕ → ℕ → Result Error (List CellOutput)
split change size = ok (record { capacity = change; scripts = "" } ∷ [])

abbrev creating : Env
creating = record env {
  tx_env = record env.tx_env { dispatch_contract = ok "d"; config_contract = ok "c" };
  key_list_contract = ok "k";
  hex_to_bytes = λ _. 1 ∷ 2 ∷ 3 ∷ 4 ∷ 5 ∷ 6 ∷ 7 ∷ 8 ∷ 9 ∷ 10 ∷ 11 ∷ [];
  byte10 = λ _. ok "b";
  refund_lock = ok "r";
  occupied = λ _. 162;
  key_list_scripts = λ _. ok "s";
  server_cells =
      λ need. if ltb 100_000_000_000 need then down else ok (server_cell ∷ [], 100_000_000_000);
  split_output_cell = split;
  create_action_witness = ok "w";
}

abbrev created : TxParams
created = record {
  cell_deps = "d" ∷ "c" ∷ "k" ∷ [];
  inputs = server_cell ∷ [];
  outputs =
      record { capacity = 16_200_000_000; scripts = "s" }
      ∷ record { capacity = 83_799_990_000; scripts = "" }
      ∷ [];
  outputs_data = "" ∷ "" ∷ [];
  witnesses = "w" ∷ "" ∷ [];
}

created-built : (build_create_key_list_cfg_tx creating "0xb1" world).0 ≡ ok created
unfolding build_create_key_list_cfg_tx split_at
created-built = refl

abbrev capacity_of : OutPoint → ℕ
capacity_of o = 100_000_000_000

enough :
    (need : ℕ) (cells : List OutPoint × ℕ)
    → creating.server_cells need ≡ ok cells
    → (input_total capacity_of cells.0 ≡ cells.1) × (need ≤ cells.1) × (cells.1 < 2 ^ 64)
unfolding input_total
enough need cells h = ground arith

splits : (change size : ℕ) (os : List CellOutput) → split change size ≡ ok os → total os ≡ change
unfolding total
splits change size os h = ground arith

-- The builder keeps the outputs, and the node takes the transaction.
abbrev spending : Env
spending = record creating {
  build_transaction = λ _ params. ok (record { outputs = params.outputs; body = "tx" });
  send_transaction = λ _. ok "0xdd";
}

abbrev made : Result Error (String × CellOutput) × World
made = create_key_list_cfg_cell spending "0xb1" world

total-create_key_list_cfg_cell_example :
    (params : TxParams) × (tx : BuiltTx) × (spending.build_transaction none params ≡ ok tx)
    × (made.1.sent ≡ paid_of spending tx ∷ world.sent)
    × (161 * spending.one_ckb ≤ first_capacity params.outputs)
    × (spending.size_in_block tx + 1000 ≤ last_capacity tx.outputs
        → last_capacity tx.outputs < 2 ^ 64
        → total (paid_of spending tx).outputs + (spending.size_in_block tx + 11_000)
          ≡ input_total capacity_of params.inputs)
unfolding create_key_list_cfg_cell lock_with_redis set_nx live_entry get_search_limit_key
    release_after create_locked build_create_key_list_cfg_tx split_at
total-create_key_list_cfg_cell_example =
    total-create_key_list_cfg_cell spending capacity_of enough splits (λ _. omega arith)
      (λ params tx h. ground arith) "0xb1" world made.1
      (spending.out_point_string "0xdd" 0, record { capacity = 16_200_000_000; scripts = "s" }) refl

-- A master with backup enabled, whose key list holds itself and another device.
abbrev pub own_key : WebauthnKey
own_key = record { min_alg_id = 8; sub_alg_id = 7; cid = "b1"; pub_key = "p1" }

abbrev other_key : WebauthnKey
other_key = record { min_alg_id = 8; sub_alg_id = 7; cid = "b2"; pub_key = "p2" }

abbrev pub enabled : CidPk
enabled = record {
  cid = "b1";
  pk = "p1";
  origin_pk = "";
  enable_authorize = on;
  outpoint = "0xcc-0";
}

abbrev pub authorized_world : World
authorized_world = record world { db = record db { cid_pks = enabled ∷ [] } }

abbrev devices : Devices
devices = record {
  fetch_transaction = λ o. ok o;
  keys_of = λ _. ok (own_key ∷ other_key ∷ []);
  payload_of = λ k. k.cid;
  hex_to_normal = λ _ _ p. ok p;
}

abbrev pub master : AddressHex
master = record {
  address_hex = "b1";
  address_payload = 1 ∷ 2 ∷ 3 ∷ 4 ∷ 5 ∷ 6 ∷ 7 ∷ 8 ∷ 9 ∷ 10 ∷ 11 ∷ [];
  sub_algorithm_id = 7;
}

abbrev pub info_env : Env
info_env = record env { normal_to_hex = λ _. ok master }

do_authorize_info-backups_example : do_authorize_info info_env devices "ckb1" authorized_world ≡ (
  respond_ok (record {
    can_authorize = 1;
    master_notes = "mine";
    master_device = "phone";
    ckb_address = record { address = "b2"; device = ""; notes = "" } ∷ [];
  }),
  authorized_world,
)
unfolding is_master notes_of device_of find_cid get_cid_pk split_at select
do_authorize_info-backups_example =
    do_authorize_info-backups devices (λ k. k.cid) info_env "ckb1" authorized_world master
      (1 ∷ 2 ∷ 3 ∷ 4 ∷ 5 ∷ 6 ∷ 7 ∷ 8 ∷ 9 ∷ 10 ∷ [], 11 ∷ []) enabled "0xcc-0"
      (own_key ∷ other_key ∷ []) refl refl refl refl refl refl refl refl
      (λ _. refl, (λ _. refl, tt))

-- Two old cids.
abbrev two_cids : CidFile
two_cids = record { old_cids = old ∷ record old { cid = "a2" } ∷ []; write_fault = none }

cover_lost_example :
    (has_uncovered "a1"
        (turns
          (begin "a1" ∷ begin "a2" ∷ finish "a1" ∷ finish "a2" ∷ [])
          (record { file = two_cids; reads = []; answers = [] })).file.old_cids
      ≡ true)
    × ((turns
          (begin "a1" ∷ begin "a2" ∷ finish "a1" ∷ finish "a2" ∷ [])
          (record { file = two_cids; reads = []; answers = [] })).answers
        ≡ ("a2", untouched none) ∷ ("a1", untouched none) ∷ [])
unfolding has_uncovered is_uncovered
cover_lost_example = cover_lost "a1" "a2" two_cids refl refl refl refl

-- A node that builds the transaction which adds a device to the list, and lets it be signed.
abbrev pub signing : Env
signing = record info_env {
  tx_env = record info_env.tx_env {
    dispatch_contract = ok "d";
    config_contract = ok "c";
    update_action_witness = ok "w";
    get_transaction = λ _. ok (record { outputs = server_output ∷ []; keys = ok (own_key ∷ []) });
  };
  build_transaction = λ _ params. ok (record { outputs = params.outputs; body = "tx" });
  digest_list = λ _. ok [];
}

abbrev pub add_device : ReqAuthorize
add_device = record { master_ckb_address = "ckb1"; slave_ckb_address = "ckb2"; operation = add }

abbrev pub to_sign : SignInfo
to_sign = record { sign_key = "k"; sign_address = ""; sign_list = [] }

abbrev handed_out : World
handed_out = (authorize_body signing add_device authorized_world).1

send_body-authorize_body_example :
    (run : HandsOut signing add_device to_sign authorized_world handed_out) × (send_body send_env
        signed handed_out
      ≡ parse_and_send send_env signed
          (signing.json
            (to_cache signing "ckb1" run.out_point (less_fee signing run.tx run.first run.others)))
          handed_out)
unfolding authorize_body with_master master_of search_cid_pk get_cid_pk split_at with_cell
    key_list_cell not_enabled choose_key_list_cell build_and_cache build_update_authorize_tx
    update_keys add_key has_key build_webauthn_tx cache_for_signing set_sign_tx_cache set_key
send_body-authorize_body_example =
    send_body-authorize_body signing add_device to_sign send_env signed authorized_world handed_out
      refl refl refl (omega arith)
