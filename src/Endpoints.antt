-- ===== src/Endpoints.antt =====
-- http_server/handle/*.go, the methods that serve a request, and http_server/router.go: a request is
-- routed to an endpoint, its body is bound, the handler runs, and its response is written with the
-- status 200 whatever it says.
--
-- `Server` is what the requests share: the world of the handlers and the file of old cids.
use das_multi_device.Prelude.{ℕ, String, Bool, Option, none, some, List, [], ◌∷◌}
use das_multi_device.Outcome.{Error, panic, Result, ok, err}
use das_multi_device.Api.{params_invalid, ApiResp, Handled, refuse}
use das_multi_device.Dao.{Db}
use das_multi_device.Service.{Env, World, SignInfo}
use das_multi_device.TxAction.{DasActions}
use das_multi_device.Authorize.{ReqAuthorize, do_authorize}
use das_multi_device.AuthorizeInfo.{Devices, RespAuthorizeInfo, do_authorize_info}
use das_multi_device.Transaction.{
  SendEnv, do_transaction_send, ReqTransactionStatus, RespTransactionStatus, do_transaction_status,
}
use das_multi_device.OldCid.{
  CidFile, Codec, RepCidInfo, do_cid_info, do_query_cid, do_add_test_cid, do_cover_cid,
}
use das_multi_device.CidNotes.{ReqAddCidInfo, CidEnv, do_add_cid_info}
use das_multi_device.MasterAddr.{Cids, do_get_masters, do_get_original_pk, do_calculate_ckb_addr}
use das_multi_device.Ecdsa.{
  WebauthnSignData, Crypto, do_ecrecover, ReqVerify, Verifier, do_verify_webauthn_sign,
}

pub record Server : Type 0 where
  pub world : World
  pub file : CidFile

-- ctx.ShouldBindJSON of each request type
pub record Binders : Type 0 where
  pub bind_authorize : String → Result Error ReqAuthorize
  pub bind_address : String → Result Error String
  pub bind_send : String → Result Error SignInfo
  pub bind_status : String → Result Error ReqTransactionStatus
  pub bind_cid : String → Result Error String
  pub bind_cid_key : String → Result Error (String × String × String)
  pub bind_account : String → Result Error String
  pub bind_add_cid_info : String → Result Error ReqAddCidInfo
  pub bind_ecrecover : String → Result Error (String × List WebauthnSignData)
  pub bind_verify : String → Result Error ReqVerify

-- What the handlers ask of the node and the libraries while the request is served.
pub record Answers : Type 0 where
  pub binders : Binders
  pub env : Env
  pub devices : Devices
  pub send_env : SendEnv
  pub das_actions : DasActions
  pub hash_of : String → String
  pub codec : Codec
  pub cids : Cids
  -- hex.EncodeToString of CalculateCid1
  pub hex_cid1 : String → String
  pub cid_env : CidEnv
  pub crypto : Crypto
  pub verifier : Verifier
  pub chain_type_webauthn : ℕ
  pub prefix20 : String → Option String

-- ctx.JSON(http.StatusOK, apiResp); a panic of the handler goes on through gin, whose connection
-- then ends without a response.
unfoldable pub write_response : {D : Type 0} → Handled D → Option (ApiResp D)
write_response h = elim h.error [ some (panic s) ↦ none | _ ↦ some h.resp ]

-- The body of every method: bind, or answer that the parameters are invalid.
unfoldable pub serve_bound :
    {Req D S : Type 0} → Result Error Req → (Req → S → Handled D × S) → S → Option (ApiResp D) × S
serve_bound (err e) handler s = (write_response (refuse params_invalid "params invalid"), s)
serve_bound (ok req) handler s = (write_response (handler req s).0, (handler req s).1)

unfoldable pub serve_json :
    {Req D S : Type 0}
    → (String → Result Error Req)
    → (Req → S → Handled D × S)
    → String
    → S
    → Option (ApiResp D) × S
unfolding serve_bound
serve_json bind handler body s = serve_bound (bind body) handler s

-- A handler of a part of the server.
unfoldable pub in_world : {D : Type 0} → (World → Handled D × World) → Server → Handled D × Server
in_world m s = ((m s.world).0, record s { world = (m s.world).1 })

unfoldable pub in_db : {D : Type 0} → (Db → Handled D × Db) → Server → Handled D × Server
in_db m s = ((m s.world.db).0, record s { world = record s.world { db = (m s.world.db).1 } })

unfoldable pub in_file :
    {D : Type 0} → (CidFile → Handled D × CidFile) → Server → Handled D × Server
in_file m s = ((m s.file).0, record s { file = (m s.file).1 })

abbrev pub reads : {D : Type 0} → Handled D → Server → Handled D × Server
reads h s = (h, s)

module _ (a : Answers) (body : String) where
  -- Authorize, AuthorizeInfo
  unfoldable pub authorize : Server → Option (ApiResp SignInfo) × Server
  unfolding serve_json in_world
  authorize = serve_json a.binders.bind_authorize (λ req. in_world (do_authorize a.env req)) body

  unfoldable pub authorize_info : Server → Option (ApiResp RespAuthorizeInfo) × Server
  unfolding serve_json in_world
  authorize_info =
      serve_json a.binders.bind_address (λ req. in_world (do_authorize_info a.env a.devices req))
        body

  -- TransactionSend, TransactionStatus
  unfoldable pub transaction_send : Server → Option (ApiResp String) × Server
  unfolding serve_json in_world
  transaction_send =
      serve_json a.binders.bind_send (λ req. in_world (do_transaction_send a.send_env req)) body

  unfoldable pub transaction_status : Server → Option (ApiResp RespTransactionStatus) × Server
  unfolding serve_json in_db
  transaction_status =
      serve_json a.binders.bind_status
        (λ req. in_db (do_transaction_status a.das_actions a.hash_of req)) body

  -- CidInfo, QueryCid, AddTestCid, CoverCid, AddCidInfo
  unfoldable pub cid_info : Server → Option (ApiResp RepCidInfo) × Server
  unfolding serve_json in_world
  cid_info =
      serve_json a.binders.bind_cid_key
        (λ req s. in_world (do_cid_info a.env a.codec s.file.old_cids req.0 req.1 req.2) s) body

  unfoldable pub query_cid : Server → Option (ApiResp String) × Server
  unfolding serve_json in_db
  query_cid =
      serve_json a.binders.bind_account
        (λ req s. in_db (do_query_cid a.chain_type_webauthn a.prefix20 s.file.old_cids req) s) body

  unfoldable pub add_test_cid : Server → Option (ApiResp Unit) × Server
  unfolding serve_json in_file
  add_test_cid =
      serve_json a.binders.bind_cid (λ req. in_file (do_add_test_cid a.hex_cid1 req)) body

  unfoldable pub cover_cid : Server → Option (ApiResp Unit) × Server
  unfolding serve_json in_file
  cover_cid = serve_json a.binders.bind_cid (λ req. in_file (do_cover_cid req)) body

  unfoldable pub add_cid_info : Server → Option (ApiResp Bool) × Server
  unfolding serve_json in_db
  add_cid_info =
      serve_json a.binders.bind_add_cid_info (λ req. in_db (do_add_cid_info a.cid_env req)) body

  -- GetMasters, GetOriginalPk
  unfoldable pub get_masters_addr : Server → Option (ApiResp (List String)) × Server
  unfolding serve_json in_db
  get_masters_addr =
      serve_json a.binders.bind_cid (λ req. in_db (do_get_masters a.codec a.cids req)) body

  unfoldable pub get_original_pk : Server → Option (ApiResp String) × Server
  unfolding serve_json in_db
  get_original_pk =
      serve_json a.binders.bind_cid (λ req. in_db (do_get_original_pk a.cids req)) body

  -- CalculateCkbaddr, which no route reaches
  unfoldable pub calculate_ckbaddr : Server → Option (ApiResp String) × Server
  unfolding serve_json
  calculate_ckbaddr =
      serve_json a.binders.bind_cid_key
        (λ req. reads (do_calculate_ckb_addr a.codec req.0 req.1 req.2)) body

  -- Ecrecover, VerifyWebauthnSign
  unfoldable pub ecdsa_ecrecover : Server → Option (ApiResp String) × Server
  unfolding serve_json
  ecdsa_ecrecover =
      serve_json a.binders.bind_ecrecover (λ req. reads (do_ecrecover a.crypto req.0 req.1)) body

  unfoldable pub verify : Server → Option (ApiResp Bool) × Server
  unfolding serve_json
  verify =
      serve_json a.binders.bind_verify (λ req. reads (do_verify_webauthn_sign a.verifier req)) body

-- RpcTransactionSend takes a list of requests and serves the first; `bind` is json.Unmarshal.
first_request : List SignInfo → SendEnv → World → Handled String × World
first_request [] env w = (refuse params_invalid "params invalid", w)
first_request (req ∷ reqs) env w = do_transaction_send env req w

unfoldable pub rpc_transaction_send :
    (String → Result Error (List SignInfo)) → SendEnv → String → World → Handled String × World
unfolding first_request
rpc_transaction_send bind env p w = elim (bind p) [
  | err e ↦ (refuse params_invalid "params invalid", w)
  | ok reqs ↦ first_request reqs env w
]
