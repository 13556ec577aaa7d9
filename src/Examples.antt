-- ===== src/Examples.antt =====
-- The handlers at concrete requests.
pub mod Requests
use das_multi_device.Prelude.{String, ◌≡◌, refl, true, false, none, some, [], ◌∷◌}
use das_multi_device.Outcome.{Error, plain, wrap, Result, ok, err, ◌>>=◌}
use das_multi_device.Api.{Handled, respond_ok}
use das_multi_device.Cache.{
  get_search_limit_key, err_distributed_lock_preemption, get_sign_tx_cache, get_key, live_entry,
  get_sign_tx_cache_key,
}
use das_multi_device.Dao.{Db}
use das_multi_device.Dao.CidInfos.{find_cid}
use das_multi_device.KeyListCell.Locking.{
  lock_key, create_key_list_cfg_cell-locked, live_entry-create_key_list_cfg_cell,
}
use das_multi_device.KeyList.{CellOutput}
use das_multi_device.Service.{AddressHex, BuiltTx, Env, SignInfo, SignInfoCache, World}
use das_multi_device.KeyListCell.{create_key_list_cfg_cell}
use das_multi_device.TxAction.{DasActions, format_tx_action, format_action_type}
use das_multi_device.TxAction.Laws.{format_action_type-format_tx_action}
use das_multi_device.Transaction.{
  SendEnv, send_body, read_cached, parse_and_send, parse_cached, check_and_send, indexed_sign_list,
  sign_and_send, add_signature, send_signed,
}
use das_multi_device.Transaction.Sending.{IsTruthful, send_body-IsTruthful}
use das_multi_device.CidNotes.{ReqAddCidInfo, CidEnv, do_add_cid_info}
use das_multi_device.CidNotes.Laws.{do_add_cid_info-keeps}
use das_multi_device.OldCid.{
  OldCid, CidFile, Codec, do_cover_cid, do_cid_info, has_uncovered, is_uncovered, run_silent,
  update_old_cid, cover, RepCidInfo,
}
use das_multi_device.OldCid.Laws.{has_uncovered-do_cover_cid, do_cid_info-do_cover_cid}
use das_multi_device.WebRtc.{Peers, find_conn, find_cid_of, join, close}
use das_multi_device.WebRtc.Laws.{find_conn-close_stale}

abbrev pub das_actions : DasActions
das_actions = record {
  withdraw_from_wallet = "withdraw_from_wallet";
  consolidate_income = "consolidate_income";
  start_account_sale = "start_account_sale";
  edit_account_sale = "edit_account_sale";
  cancel_account_sale = "cancel_account_sale";
  buy_account = "buy_account";
  transfer = "transfer";
  edit_records = "edit_records";
  transfer_account = "transfer_account";
  edit_manager = "edit_manager";
  renew_account = "renew_account";
  declare_reverse_record = "declare_reverse_record";
  redeclare_reverse_record = "redeclare_reverse_record";
  retract_reverse_record = "retract_reverse_record";
  make_offer = "make_offer";
  cancel_offer = "cancel_offer";
  accept_offer = "accept_offer";
  enable_sub_account = "enable_sub_account";
  create_sub_account = "create_sub_account";
  recycle_expired_account = "recycle_expired_account";
  force_recover_account_status = "force_recover_account_status";
  collect_sub_account_profit = "collect_sub_account_profit";
  update_key_list = "update_key_list";
}

format_action_type-format_tx_action_example :
    format_action_type das_actions (format_tx_action das_actions "make_offer") ≡ "make_offer"
unfolding format_tx_action
format_action_type-format_tx_action_example =
    format_action_type-format_tx_action das_actions "make_offer"

-- A file with one old cid.
abbrev pub old : OldCid
old = record { cid = "a1"; cid1 = "b1"; is_cover = false; is_test = false }

abbrev pub old_file : CidFile
old_file = record { old_cids = old ∷ []; write_fault = none }

old-covered : (do_cover_cid "a1" old_file).1.old_cids ≡ record old { is_cover = true } ∷ []
unfolding do_cover_cid run_silent has_uncovered is_uncovered update_old_cid cover
old-covered = refl

has_uncovered-do_cover_cid_example :
    has_uncovered "a1" (do_cover_cid "a1" old_file).1.old_cids ≡ false
unfolding has_uncovered is_uncovered
has_uncovered-do_cover_cid_example = has_uncovered-do_cover_cid "a1" "a1" old_file refl

abbrev pub db : Db
db = record {
  block_infos = [];
  pendings = [];
  next_pending_id = 1;
  avatar_notes = [];
  cid_infos = record { original_cid = "a1"; cid = "b1"; notes = "mine"; device = "phone" } ∷ [];
  cid_pks = [];
  authorizes = [];
  accounts = [];
  faults = [];
}

abbrev pub world : World
world = record {
  db = db;
  redis = record {
    connected = true;
    entries = record { key = "sign:tx:k"; value = "{}"; expires = 10 } ∷ [];
    faults = [];
  };
  sent = [];
}

abbrev pub master : AddressHex
master = record { address_hex = "0xb1"; address_payload = 1 ∷ []; sub_algorithm_id = 7 }

abbrev pub down : {A : Type 0} → Result Error A
down = err (plain "down")

-- A node that answers nothing.
abbrev pub env : Env
env = record {
  tx_env = record {
    dispatch_contract = down;
    config_contract = down;
    update_action_witness = down;
    out_point_struct = λ s. record { tx_hash = s; index = 0 };
    get_transaction = λ _. down;
    webauthn_algorithm = 8;
    es256_algorithm = 7;
    bytes_to_hex = λ _. "b1";
    gen_update_witness = λ _ _. record { witness = ""; cell_data = ""; error = none };
  };
  fmt = record { decimal = λ _. "8"; to_lower = λ s. s };
  now = 1;
  chain_type_webauthn = 8;
  action_update_key_list = "update_device_key_list";
  one_ckb = 100_000_000;
  split_ckb = 0;
  normal_to_hex = λ _. ok master;
  script_of = λ _. down;
  balance_of = λ _. down;
  key_list_contract = down;
  hex_to_bytes = λ _. [];
  byte10 = λ _. down;
  refund_lock = down;
  gen_create_witness = λ _ _ _. record { witness = ""; cell_data = ""; error = none };
  occupied = λ _. 0;
  key_list_scripts = λ _. down;
  server_cells = λ _. down;
  split_output_cell = λ _ _. down;
  create_action_witness = down;
  build_transaction = λ _ _. down;
  size_in_block = λ _. 0;
  digest_list = λ _. down;
  send_transaction = λ _. down;
  out_point_string = λ h _. h;
  sign_key = λ _. "k";
  json = λ _. "{}";
}

abbrev pub codec : Codec
codec = record {
  decode_hex = λ _. ok [];
  webauthn_payload = λ cid _ _. cid;
  hex_to_normal = λ payload. ok payload;
}

do_cid_info-do_cover_cid_example :
    ◌≡◌ {A = Handled RepCidInfo × World}
      (do_cid_info env codec (do_cover_cid "a1" old_file).1.old_cids "a1" "0x" "0y" world)
      (respond_ok (record { is_old_cid = false; has_account = false }), world)
do_cid_info-do_cover_cid_example =
    do_cid_info-do_cover_cid env codec "a1" "0x" "0y" old_file world refl

abbrev pub cid_env : CidEnv
cid_env = record {
  normal_to_hex = λ _. ok master;
  bytes_to_hex = λ _. "b1";
  cid1_of = λ _. "b1";
  byte_length = λ _. 4;
}

abbrev pub built : BuiltTx
built = record { outputs = []; body = "tx" }

abbrev pub cached : SignInfoCache
cached = record {
  chain_type = 8;
  address = "ckb1";
  action = "update_device_key_list";
  capacity = 0;
  key_list_cfg_cell_opt = "0xcc-0";
  builder_tx = built;
}

abbrev pub send_env : SendEnv
send_env = record {
  fmt = record { decimal = λ _. "8"; to_lower = λ s. s };
  now = 1;
  now_nano = 1_000_000_000;
  algorithm_webauthn = 8;
  parse_cache = λ _. ok cached;
  normal_to_hex = λ _. ok master;
  idx_of_key_list = λ _ _. ok (some 0);
  add_pk_index = λ s _. s;
  add_signature = λ tx _. ok tx;
  send_transaction = λ _. ok "0xdd";
  error_text = λ _. "";
  contains = λ _ _. false;
  out_point_string = λ h _. h;
}

abbrev pub signed : SignInfo
signed = record {
  sign_key = "k";
  sign_address = "ckb1";
  sign_list = record { sign_type = 8; sign_msg = "0x01" } ∷ [];
}

send_body-IsTruthful_example : IsTruthful send_env world (send_body send_env signed world)
send_body-IsTruthful_example = send_body-IsTruthful send_env signed world

signed-sent : (send_body send_env signed world).0 ≡ ok "0xdd"
unfolding send_body ◌>>=◌ read_cached get_sign_tx_cache get_key live_entry get_sign_tx_cache_key
    parse_and_send parse_cached check_and_send indexed_sign_list sign_and_send add_signature
    send_signed
signed-sent = refl

abbrev pub no_peers : Peers
no_peers = record { peers = []; cid_of = []; written = [] }

find_conn-close_stale_example :
    (find_conn "b1" (close 1 (join (λ _. true) 2 "b1" (join (λ _. true) 1 "b1" no_peers))).peers
      ≡ none)
    × (find_cid_of 2 (close 1 (join (λ _. true) 2 "b1" (join (λ _. true) 1 "b1" no_peers))).cid_of
        ≡ some "b1")
find_conn-close_stale_example = find_conn-close_stale (λ _. true) 1 2 "b1" no_peers refl

-- The lock of the payload 0xb1, held by another request.
abbrev held : World
held = record world {
  redis = record {
    connected = true;
    entries =
        record { key = "search:limit:createKeyListConfigCell:8:0xb1"; value = ""; expires = 241 }
        ∷ [];
    faults = [];
  };
}

create_key_list_cfg_cell-locked_example :
    ◌≡◌ {A = Result Error (String × CellOutput) × World}
      (create_key_list_cfg_cell env "0xb1" held)
      (err (wrap "createKeyListCfgCell LockWithRedis" err_distributed_lock_preemption), held)
unfolding live_entry get_search_limit_key
create_key_list_cfg_cell-locked_example =
    create_key_list_cfg_cell-locked env "0xb1" held
      (record { key = "search:limit:createKeyListConfigCell:8:0xb1"; value = ""; expires = 241 })
      refl refl refl

live_entry-create_key_list_cfg_cell_example :
    live_entry 2 (lock_key env "0xb1") (create_key_list_cfg_cell env "0xb1" world).1.redis.entries
    ≡ none
unfolding live_entry get_search_limit_key
live_entry-create_key_list_cfg_cell_example =
    live_entry-create_key_list_cfg_cell env "0xb1" world 2 refl refl refl
