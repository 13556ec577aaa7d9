-- ===== src/Router/Frame.antt =====
-- http_server/router.go: which part of the server a request of each endpoint can change.
use das_multi_device.Prelude.{String, Bool, true, false, not, ◌≡◌, refl}
use das_multi_device.Outcome.{Error, Result, ok, err}
use das_multi_device.Api.{Handled}
use das_multi_device.Dao.{Db}
use das_multi_device.Service.{World}
use das_multi_device.Service.Tables.{SameTables, SameWorld, UnchangedUnless}
use das_multi_device.OldCid.{CidFile, do_add_test_cid, do_cover_cid}
use das_multi_device.Authorize.{is_delete}
use das_multi_device.Authorize.Effects.{do_authorize-SameWorld}
use das_multi_device.AuthorizeInfo.Effects.{do_authorize_info-SameWorld}
use das_multi_device.MasterAddr.Effects.{do_get_masters-SameTables, do_get_original_pk-SameTables}
use das_multi_device.OldCid.Effects.{do_cid_info-SameWorld, do_query_cid-SameTables}
use das_multi_device.Transaction.Effects.{
  do_transaction_send-cid_infos, do_transaction_status-SameTables,
}
use das_multi_device.CidNotes.Laws.{do_add_cid_info-pendings}
use das_multi_device.Authorize.{do_authorize}
use das_multi_device.AuthorizeInfo.{do_authorize_info}
use das_multi_device.Transaction.{do_transaction_send, do_transaction_status}
use das_multi_device.OldCid.{do_cid_info, do_query_cid}
use das_multi_device.CidNotes.{do_add_cid_info}
use das_multi_device.MasterAddr.{do_get_masters, do_get_original_pk}
use das_multi_device.Ecdsa.{do_ecrecover, do_verify_webauthn_sign}
use das_multi_device.Endpoints
use das_multi_device.Endpoints.{
  Server, Answers, serve_bound, serve_json, in_world, in_db, in_file, reads,
}
use das_multi_device.Router.{
  Endpoint, ecrecover, get_masters, get_original_pk, authorize, authorize_info, transaction_send,
  transaction_status, query_cid, add_cid_info, cid_info, add_test_cid, cover_cid,
  verify_webauthn_sign, webrtc_page, webrtc_socket, version, serve_endpoint,
}

abbrev pub may_send : Endpoint → Bool
may_send authorize = true
may_send transaction_send = true
may_send _ = false

abbrev pub writes_pendings : Endpoint → Bool
writes_pendings transaction_send = true
writes_pendings _ = false

abbrev pub writes_notes : Endpoint → Bool
writes_notes add_cid_info = true
writes_notes _ = false

abbrev pub writes_file : Endpoint → Bool
writes_file add_test_cid = true
writes_file cover_cid = true
writes_file _ = false

-- What may differ between two states of the server.
pub record OnlyChanges (sends pendings notes file : Bool) (s t : Server) : Type 0 where
  pub same_sent : UnchangedUnless sends s.world.sent t.world.sent
  pub same_pendings : UnchangedUnless pendings s.world.db.pendings t.world.db.pendings
  pub same_notes : UnchangedUnless notes s.world.db.cid_infos t.world.db.cid_infos
  pub same_file : UnchangedUnless file s.file t.file

pub unchanged : {A : Type 0} (b : Bool) (x : A) → UnchangedUnless b x x
unchanged true x = tt
unchanged false x = refl

weaken : {A : Type 0} (b : Bool) {x y : A} → y ≡ x → UnchangedUnless b x y
weaken true h = tt
weaken false h = h

module _ {Req D : Type 0} (P : Server → Type 0) where
  serve_bound-keeps :
      (r : Result Error Req) (handler : Req → Server → Handled D × Server) (s : Server)
      → P s
      → ((req : Req) → P (handler req s).1)
      → P (serve_bound r handler s).1
  unfolding serve_bound
  serve_bound-keeps (ok req) handler s h k = k req
  serve_bound-keeps (err e) handler s h k = h

  pub serve_json-keeps :
      (bind : String → Result Error Req) (handler : Req → Server → Handled D × Server)
      (body : String) (s : Server)
      → P s
      → ((req : Req) → P (handler req s).1)
      → P (serve_json bind handler body s).1
  unfolding serve_json
  serve_json-keeps bind handler body s h k = serve_bound-keeps (bind body) handler s h k

pub OnlyChanges-refl : (b₁ b₂ b₃ b₄ : Bool) (s : Server) → OnlyChanges b₁ b₂ b₃ b₄ s s
OnlyChanges-refl b₁ b₂ b₃ b₄ s = record {
  same_sent = unchanged b₁ s.world.sent;
  same_pendings = unchanged b₂ s.world.db.pendings;
  same_notes = unchanged b₃ s.world.db.cid_infos;
  same_file = unchanged b₄ s.file;
}

served :
    {Req D : Type 0} (b₁ b₂ b₃ b₄ : Bool) (bind : String → Result Error Req)
    (handler : Req → Server → Handled D × Server) (body : String) (s : Server)
    → ((req : Req) → OnlyChanges b₁ b₂ b₃ b₄ s (handler req s).1)
    → OnlyChanges b₁ b₂ b₃ b₄ s (serve_json bind handler body s).1
served b₁ b₂ b₃ b₄ bind handler body s k =
    serve_json-keeps (OnlyChanges b₁ b₂ b₃ b₄ s) bind handler body s
      (OnlyChanges-refl b₁ b₂ b₃ b₄ s) k

-- A handler of the world, or of the database, that leaves the tables as they are.
in_world-OnlyChanges :
    {D : Type 0} (b : Bool) (m : World → Handled D × World) (s : Server)
    → SameWorld b s.world (m s.world).1
    → OnlyChanges b false false false s (in_world m s).1
unfolding in_world
in_world-OnlyChanges b m s ((p, n), sent) = record {
  same_sent = sent;
  same_pendings = p;
  same_notes = n;
  same_file = refl;
}

in_db-OnlyChanges :
    {D : Type 0} (m : Db → Handled D × Db) (s : Server)
    → SameTables s.world.db (m s.world.db).1
    → OnlyChanges false false false false s (in_db m s).1
unfolding in_db
in_db-OnlyChanges m s (p, n) = record {
  same_sent = refl;
  same_pendings = p;
  same_notes = n;
  same_file = refl;
}

in_file-OnlyChanges :
    {D : Type 0} (m : CidFile → Handled D × CidFile) (s : Server)
    → OnlyChanges false false false true s (in_file m s).1
unfolding in_file
in_file-OnlyChanges m s = record {
  same_sent = refl;
  same_pendings = refl;
  same_notes = refl;
  same_file = tt;
}

send-OnlyChanges :
    {D : Type 0} (m : World → Handled D × World) (s : Server)
    → (m s.world).1.db.cid_infos ≡ s.world.db.cid_infos
    → OnlyChanges true true false false s (in_world m s).1
unfolding in_world
send-OnlyChanges m s h = record {
  same_sent = tt;
  same_pendings = tt;
  same_notes = h;
  same_file = refl;
}

notes-OnlyChanges :
    {D : Type 0} (m : Db → Handled D × Db) (s : Server)
    → (m s.world.db).1.pendings ≡ s.world.db.pendings
    → OnlyChanges false false true false s (in_db m s).1
unfolding in_db
notes-OnlyChanges m s h = record {
  same_sent = refl;
  same_pendings = h;
  same_notes = tt;
  same_file = refl;
}

may_send_more :
    (b : Bool) (s t : Server)
    → OnlyChanges b false false false s t
    → OnlyChanges true false false false s t
may_send_more b s t o = record {
  same_sent = tt;
  same_pendings = o.same_pendings;
  same_notes = o.same_notes;
  same_file = o.same_file;
}

pub serve_endpoint-OnlyChanges :
    (a : Answers) (e : Endpoint) (body : String) (s : Server)
    → OnlyChanges
        (may_send e)
        (writes_pendings e)
        (writes_notes e)
        (writes_file e)
        s
        (serve_endpoint a e body s).1
unfolding serve_endpoint Endpoints.authorize Endpoints.authorize_info Endpoints.transaction_send
    Endpoints.transaction_status Endpoints.cid_info Endpoints.query_cid Endpoints.add_test_cid
    Endpoints.cover_cid Endpoints.add_cid_info Endpoints.get_masters_addr Endpoints.get_original_pk
    Endpoints.ecdsa_ecrecover Endpoints.verify in_world in_db in_file
serve_endpoint-OnlyChanges a ecrecover body s =
    served false false false false a.binders.bind_ecrecover
      (λ req. reads (do_ecrecover a.crypto req.0 req.1)) body s
      (λ req. OnlyChanges-refl false false false false s)
serve_endpoint-OnlyChanges a get_masters body s =
    served false false false false a.binders.bind_cid
      (λ req. in_db (do_get_masters a.codec a.cids req)) body s
      (λ req.
        in_db-OnlyChanges (do_get_masters a.codec a.cids req) s
          (do_get_masters-SameTables a.codec a.cids req s.world.db))
serve_endpoint-OnlyChanges a get_original_pk body s =
    served false false false false a.binders.bind_cid (λ req. in_db (do_get_original_pk a.cids req))
      body s
      (λ req.
        in_db-OnlyChanges (do_get_original_pk a.cids req) s
          (do_get_original_pk-SameTables a.cids req s.world.db))
serve_endpoint-OnlyChanges a authorize body s =
    served true false false false a.binders.bind_authorize
      (λ req. in_world (do_authorize a.env req)) body s
      (λ req.
        may_send_more (not (is_delete req.operation)) s (in_world (do_authorize a.env req) s).1 (
          in_world-OnlyChanges (not (is_delete req.operation)) (do_authorize a.env req) s
            (do_authorize-SameWorld a.env req s.world)))
serve_endpoint-OnlyChanges a authorize_info body s =
    served false false false false a.binders.bind_address
      (λ req. in_world (do_authorize_info a.env a.devices req)) body s
      (λ req.
        in_world-OnlyChanges false (do_authorize_info a.env a.devices req) s
          (do_authorize_info-SameWorld a.env a.devices req s.world))
serve_endpoint-OnlyChanges a transaction_send body s =
    served true true false false a.binders.bind_send
      (λ req. in_world (do_transaction_send a.send_env req)) body s
      (λ req.
        send-OnlyChanges (do_transaction_send a.send_env req) s
          (do_transaction_send-cid_infos a.send_env req s.world))
serve_endpoint-OnlyChanges a transaction_status body s =
    served false false false false a.binders.bind_status
      (λ req. in_db (do_transaction_status a.das_actions a.hash_of req)) body s
      (λ req.
        in_db-OnlyChanges (do_transaction_status a.das_actions a.hash_of req) s
          (do_transaction_status-SameTables a.das_actions a.hash_of req s.world.db))
serve_endpoint-OnlyChanges a query_cid body s =
    served false false false false a.binders.bind_account
      (λ req t. in_db (do_query_cid a.chain_type_webauthn a.prefix20 t.file.old_cids req) t) body s
      (λ req.
        in_db-OnlyChanges (do_query_cid a.chain_type_webauthn a.prefix20 s.file.old_cids req) s
          (do_query_cid-SameTables a.chain_type_webauthn a.prefix20 s.file.old_cids req s.world.db))
serve_endpoint-OnlyChanges a add_cid_info body s =
    served false false true false a.binders.bind_add_cid_info
      (λ req. in_db (do_add_cid_info a.cid_env req)) body s
      (λ req.
        notes-OnlyChanges (do_add_cid_info a.cid_env req) s
          (do_add_cid_info-pendings a.cid_env req s.world.db))
serve_endpoint-OnlyChanges a cid_info body s =
    served false false false false a.binders.bind_cid_key
      (λ req t. in_world (do_cid_info a.env a.codec t.file.old_cids req.0 req.1 req.2) t) body s
      (λ req.
        in_world-OnlyChanges false (do_cid_info a.env a.codec s.file.old_cids req.0 req.1 req.2) s
          (do_cid_info-SameWorld a.env a.codec req.0 req.1 req.2 s.file.old_cids s.world))
serve_endpoint-OnlyChanges a add_test_cid body s =
    served false false false true a.binders.bind_cid
      (λ req. in_file (do_add_test_cid a.hex_cid1 req)) body s
      (λ req. in_file-OnlyChanges (do_add_test_cid a.hex_cid1 req) s)
serve_endpoint-OnlyChanges a cover_cid body s =
    served false false false true a.binders.bind_cid (λ req. in_file (do_cover_cid req)) body s
      (λ req. in_file-OnlyChanges (do_cover_cid req) s)
serve_endpoint-OnlyChanges a verify_webauthn_sign body s =
    served false false false false a.binders.bind_verify
      (λ req. reads (do_verify_webauthn_sign a.verifier req)) body s
      (λ req. OnlyChanges-refl false false false false s)
serve_endpoint-OnlyChanges a webrtc_page body s = OnlyChanges-refl false false false false s
serve_endpoint-OnlyChanges a webrtc_socket body s = OnlyChanges-refl false false false false s
serve_endpoint-OnlyChanges a version body s = OnlyChanges-refl false false false false s
