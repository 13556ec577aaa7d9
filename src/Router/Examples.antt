-- ===== src/Router/Examples.antt =====
-- The endpoints, and what the handlers do to each other's state, at concrete requests.
use das_multi_device.Prelude.{String, true, false, some, refl, List, [], ◌∷◌, ◌≡◌}
use das_multi_device.Outcome.{ok}
use das_multi_device.Dao.{Db}
use das_multi_device.Dao.CidInfos.{find_cid, get_cid_info, create_cid_info}
use das_multi_device.KeyList.{split_at}
use das_multi_device.CidNotes.{ReqAddCidInfo, CidEnv, check_request, add_row, add_cid_info_body}
use das_multi_device.Router.Notes.{first_notes_stay}
use das_multi_device.Examples.{
  das_actions, old_file, world, master, down, env, codec, cid_env, send_env, signed, no_peers,
}
use das_multi_device.Endpoints.{Server, Binders, Answers}
use das_multi_device.Router.{Request, Site, post, find_route, routes, serve_requests}
use das_multi_device.Router.Requests.{any_reaches, serve_requests-OnlyChanges}
use das_multi_device.Router.Frame.{OnlyChanges}
use das_multi_device.WebRtc.{Event, receives, closes, MsgData, joiner}
use das_multi_device.WebRtc.Refines.{serve_all, registry, track_all, registry-serve_all}

-- Only the requests to send are decoded.
abbrev binders : Binders
binders = record {
  bind_authorize = λ _. down;
  bind_address = λ _. down;
  bind_send = λ _. ok signed;
  bind_status = λ _. down;
  bind_cid = λ _. down;
  bind_cid_key = λ _. down;
  bind_account = λ _. down;
  bind_add_cid_info = λ _. down;
  bind_ecrecover = λ _. down;
  bind_verify = λ _. down;
}

abbrev answers : Answers
answers = record {
  binders = binders;
  env = env;
  devices = record {
    fetch_transaction = λ _. down;
    keys_of = λ _. down;
    payload_of = λ _. "b1";
    hex_to_normal = λ _ _ _. down;
  };
  send_env = send_env;
  das_actions = das_actions;
  hash_of = λ s. s;
  codec = codec;
  cids = record { cid1_of = λ s. s; payload_of = λ s _. s };
  hex_cid1 = λ s. s;
  cid_env = cid_env;
  crypto = record {
    decode_hex = λ _. down;
    sha256 = λ l. l;
    unmarshal_signature = λ _. down;
    ecdsa_recover = λ _ _. down;
    webauthn_payload = λ s _. s;
    hex_to_normal = λ _. down;
  };
  verifier = record {
    normal_to_hex = λ _. ok master;
    idx_of_key_list = λ _ _. down;
    add_pk_index = λ s _. s;
    verify_signature = λ _ _ _. down;
  };
  chain_type_webauthn = 8;
  prefix20 = λ s. some s;
}

abbrev server : Server
server = record { world = world; file = old_file }

abbrev post_request : String → Request
post_request path = record { answers = answers; method = post; path = path; body = "{}" }

abbrev site : Site
site = record { server = server; observations = [] }

serve_requests-OnlyChanges_example :
    OnlyChanges true true false false server
      (serve_requests
        (post_request "/v1/transaction/send" ∷ post_request "/v1/webauthn/cid-info" ∷ [])
        site).server
unfolding any_reaches find_route routes
serve_requests-OnlyChanges_example =
    serve_requests-OnlyChanges
      (post_request "/v1/transaction/send" ∷ post_request "/v1/webauthn/cid-info" ∷ []) site

abbrev message : String → MsgData
message cid = record { from = cid; to = ""; answer = false; kind = "join"; content = joiner cid }

-- Two devices join, the first one leaves.
abbrev events : List Event
events = receives 1 (message "b1") ∷ receives 2 (message "b2") ∷ closes 1 ∷ []

registry-serve_all_example :
    registry (serve_all (λ _. true) events no_peers) ≡ track_all events (registry no_peers)
registry-serve_all_example = registry-serve_all (λ _. true) events no_peers

-- A payload of ten bytes and one, whose cid is known to be b1.
abbrev device_env : CidEnv
device_env = record cid_env {
  normal_to_hex = λ _. ok (record {
    address_hex = "0xb1";
    address_payload = 1 ∷ 2 ∷ 3 ∷ 4 ∷ 5 ∷ 6 ∷ 7 ∷ 8 ∷ 9 ∷ 10 ∷ 11 ∷ [];
    sub_algorithm_id = 7;
  });
}

abbrev my_notes : ReqAddCidInfo
my_notes = record { ckb_addr = "ckb1"; cid = "a1"; notes = "mine"; device = "phone" }

abbrev without_notes : Db
without_notes = record world.db { cid_infos = [] }

abbrev noted : Db
noted = (add_cid_info_body device_env my_notes without_notes).1

abbrev noted_site : Site
noted_site = record {
  server = record { world = record world { db = noted }; file = old_file };
  observations = [];
}

-- A second request for the same cid, with other notes.
abbrev again : Request
again = record {
  answers = record answers {
    binders = record binders { bind_add_cid_info = λ _. ok (record my_notes { notes = "other" }) };
    cid_env = device_env;
  };
  method = post;
  path = "/v1/webauthn/add-cid-info";
  body = "{}";
}

first_notes_stay_example :
    (cid1 : String) × (check_request device_env my_notes ≡ ok cid1)
    × (find_cid cid1 (serve_requests (again ∷ []) noted_site).server.world.db.cid_infos
        ≡ some (record { original_cid = "a1"; cid = cid1; notes = "mine"; device = "phone" }))
unfolding add_cid_info_body check_request split_at add_row get_cid_info find_cid create_cid_info
first_notes_stay_example =
    first_notes_stay device_env my_notes without_notes noted true refl (again ∷ []) noted_site refl
