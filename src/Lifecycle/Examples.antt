-- ===== src/Lifecycle/Examples.antt =====
-- The life of a transaction at a concrete request and a concrete block.
use Prim.Native.String.{◌++◌ as string_append}
use das_multi_device.Prelude.{
  ℕ, String, List, ◌++◌, ◌==◌, length, All, sym, ◌∙◌, str_eq, if◌then◌else◌, select, arith, ap,
  true, none, some, [], ◌∷◌, ◌≡◌, refl, find_first,
}
use das_multi_device.Outcome.{plain, ok, ◌>>=◌}
use das_multi_device.Cache.{get_sign_tx_cache, get_key, live_entry, get_sign_tx_cache_key}
use das_multi_device.Service.{World}
use das_multi_device.Transaction.{
  SendEnv, send_body, ReqTransactionStatus, do_transaction_status, read_cached, parse_and_send,
  parse_cached, check_and_send, indexed_sign_list, sign_and_send, add_signature, send_signed,
}
use das_multi_device.BlockParser
use das_multi_device.BlockParser.{Tx, Block, Parser, has_type, parsing_block_data}
use das_multi_device.BlockParser.Healthy.{Healthy}
use das_multi_device.Outcome.{Error, Result, err}
use das_multi_device.Api.{respond_ok}
use das_multi_device.Dao.{pending, confirm}
use das_multi_device.Dao.ParserTables.{get_cid_pk}
use das_multi_device.TxAction.{format_tx_action}
use das_multi_device.Dao.CidInfos.{find_cid}
use das_multi_device.AuthorizeInfo.{Devices, is_master, notes_of, device_of, do_authorize_info}
use das_multi_device.AuthorizeInfo.Lists.{HasAddress}
use das_multi_device.Lifecycle.Listing.{do_authorize_info-updated}
use das_multi_device.KeyList.{
  WebauthnKey, ChainTx, TxParams, add, split_at, build_update_authorize_tx, update_keys, add_key,
  has_key,
}
use das_multi_device.Cache.{set_sign_tx_cache, set_key, put}
use das_multi_device.Service.{BuiltTx, Env, SignInfoCache}
use das_multi_device.Authorize.{
  sign_info_cache, authorize_body, with_master, master_of, search_cid_pk, with_cell, key_list_cell,
  not_enabled, choose_key_list_cell, build_and_cache, build_webauthn_tx, cache_for_signing,
}
use das_multi_device.Transaction.Cached.{fee_paid}
use das_multi_device.Lifecycle.Backup.{ReadsBack, backup-confirmed}
use das_multi_device.Examples.Requests.{
  signing, add_device, to_sign, authorized_world, server_output, own_key, enabled as enabled_row,
  master as info_master,
}
use das_multi_device.Examples.{world, send_env, signed, das_actions}

abbrev sending : SendEnv
sending = record send_env { out_point_string = λ h _. string_append h "-0" }

-- The block holds the sent transaction between two others.
abbrev other_tx : Tx
other_tx = record { hash = "0xee"; outputs = none ∷ [] }

abbrev sent_tx : Tx
sent_tx = record { hash = "0xdd"; outputs = none ∷ some "keylist" ∷ [] }

abbrev block : Block
block = record {
  number = 7;
  timestamp = 70;
  hash = "b7";
  parent_hash = "b6";
  transactions = other_tx ∷ sent_tx ∷ other_tx ∷ [];
}

abbrev node : BlockParser.Env
node = record {
  get_tip = ok 9;
  get_block = λ _. ok block;
  action_of = λ _. ok "update_device_key_list";
  update_key_list = "update_device_key_list";
  key_list_contract = ok (λ _. true);
  out_point = λ h _. string_append h "-0";
}

abbrev healthy : Healthy node (λ _. block)
healthy = record { blocks = λ n. refl; same_type = λ _. true; contract = refl }

abbrev parser : Parser
parser = record {
  current_block_number = 7;
  concurrency_num = 1;
  confirm_num = 1;
  err_count_handle = 0;
  notified = [];
  db = world.db;
}

abbrev ask : ReqTransactionStatus
ask = record { chain_type = 8; address = ""; actions = []; tx_hash = "0xdd" }

-- The master device ckb1 asks for the transaction that adds a device. A transaction that was built is
-- always this one, so that its JSON needs only the out point.
abbrev built_tx : BuiltTx
built_tx = record { outputs = server_output ∷ []; body = "tx" }

abbrev backing : Env
backing = record signing {
  build_transaction = λ _ _. ok built_tx;
  json = λ s. s.key_list_cfg_cell_opt;
}

abbrev sending_back : SendEnv
sending_back = record sending {
  parse_cache = λ s. ok (sign_info_cache backing "ckb1" s (fee_paid backing built_tx));
}

reads_back : ReadsBack backing sending_back "ckb1"
reads_back new_cell params tx out_point built =
    let again : Result Error BuiltTx → Result Error SignInfoCache = λ r. elim r [
      | ok t ↦ ok (sign_info_cache backing "ckb1" out_point (fee_paid backing t))
      | err e ↦ err e
    ] in
    ap again built

abbrev enabled : World
enabled = (authorize_body backing add_device authorized_world).1

abbrev added : World
added = (send_body sending_back signed enabled).1

abbrev reader : Parser
reader = record parser { db = added.db }

backup-confirmed_example :
    ((do_transaction_status das_actions (λ s. s) ask added.db).0
      ≡ respond_ok (record {
        block_number = 0;
        hash = "0xdd-0";
        action = format_tx_action das_actions "update_device_key_list";
        status = pending;
      }))
    × ((do_transaction_status das_actions
          (λ s. s)
          ask
          (parsing_block_data node block reader).1.db).0
        ≡ respond_ok (record {
          block_number = 7;
          hash = "0xdd-0";
          action = format_tx_action das_actions "update_device_key_list";
          status = confirm;
        }))
unfolding send_body ◌>>=◌ read_cached get_sign_tx_cache get_key live_entry get_sign_tx_cache_key
    parse_and_send parse_cached check_and_send indexed_sign_list sign_and_send add_signature
    send_signed find_first has_type authorize_body with_master master_of search_cid_pk get_cid_pk
    split_at with_cell key_list_cell not_enabled choose_key_list_cell build_and_cache
    build_update_authorize_tx update_keys add_key has_key build_webauthn_tx cache_for_signing
    set_sign_tx_cache set_key put
backup-confirmed_example =
    backup-confirmed node (λ _. block) healthy backing sending_back das_actions (λ s. s) add_device
      to_sign signed ask authorized_world enabled added reader block (other_tx ∷ []) (other_tx ∷ [])
      sent_tx refl refl refl reads_back refl refl (omega arith) refl refl refl refl refl refl refl
      refl refl refl refl

-- The list of the master with the device that was added.
abbrev new_key : WebauthnKey
new_key = record { min_alg_id = 8; sub_alg_id = 7; cid = "b1"; pub_key = "b1" }

abbrev own_only : ChainTx
own_only = record { outputs = server_output ∷ []; keys = ok (own_key ∷ []) }

-- A list is written as its length; the list of two is the one that is read.
abbrev word_of : List WebauthnKey → String
word_of keys = if length keys == 2 then "two" else "other"

abbrev keys_in : String → Result Error (List WebauthnKey)
keys_in v = if str_eq v "two" then ok (own_key ∷ new_key ∷ []) else err (plain "no key list")

abbrev writing : Env
writing = record signing {
  tx_env = record signing.tx_env {
    gen_update_witness = λ _ keys. record { witness = word_of keys; cell_data = ""; error = none };
  };
}

abbrev updated_devices : Devices
updated_devices = record {
  fetch_transaction = λ _. ok "two";
  keys_of = keys_in;
  payload_of = λ k. if str_eq k.pub_key "p1" then "b1" else "b2";
  hex_to_normal = λ _ _ p. ok p;
}

abbrev ten_bytes : List ℕ
ten_bytes = 1 ∷ 2 ∷ 3 ∷ 4 ∷ 5 ∷ 6 ∷ 7 ∷ 8 ∷ 9 ∷ 10 ∷ []

abbrev added_params : TxParams
added_params = record {
  cell_deps = "d" ∷ "c" ∷ [];
  inputs = record { tx_hash = "0xcc-0"; index = 0 } ∷ [];
  outputs = server_output ∷ [];
  outputs_data = "" ∷ [];
  witnesses = "w" ∷ "two" ∷ [];
}

reads_back_list :
    (keys' : List WebauthnKey)
    → ◌≡◌ {A = Result Error (List WebauthnKey)} (ok (own_key ∷ new_key ∷ [])) (ok keys')
    → keys_in (word_of keys') ≡ ok keys'
reads_back_list keys' u =
    let again : Result Error (List WebauthnKey) → Result Error (List WebauthnKey) =
      λ r. elim r [ ok ks ↦ keys_in (word_of ks) | err e ↦ err e ] in
    sym (ap again u) ∙ u

all-HasAddress :
    (keys : List WebauthnKey)
    → All (HasAddress updated_devices (λ k. updated_devices.payload_of k) info_master) keys
all-HasAddress [] = tt
all-HasAddress (k ∷ keys) = (λ _. refl, all-HasAddress keys)

do_authorize_info-updated_example :
    do_authorize_info writing updated_devices "ckb1" authorized_world ≡ (
      respond_ok (record {
        can_authorize = 1;
        master_notes = "mine";
        master_device = "phone";
        ckb_address = record { address = "b2"; device = "phone"; notes = "mine" } ∷ [];
      }),
      authorized_world,
    )
unfolding build_update_authorize_tx split_at update_keys add_key has_key get_cid_pk is_master
    notes_of device_of find_cid select
do_authorize_info-updated_example =
    do_authorize_info-updated writing updated_devices (λ k. updated_devices.payload_of k) add
      "0xcc-0" (ten_bytes ++ 11 ∷ []) (ten_bytes, 11 ∷ []) own_only (own_key ∷ []) added_params
      "ckb1" authorized_world info_master (ten_bytes, 11 ∷ []) enabled_row "two" keys_in refl refl
      refl refl (λ v w. ap (λ o. elim o [ none ↦ keys_in "two" | some v ↦ keys_in v ]) w)
      reads_back_list (λ keys' u. all-HasAddress keys') refl refl refl refl refl refl refl
