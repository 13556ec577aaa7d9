-- ===== src/Router.antt =====
-- http_server/router.go: the routes of the service, under the group v1, with the label under which
-- http_server/api_code/monitor.go counts the requests of each.
--
-- json.Unmarshal gives back the code and the text of the response that ctx.JSON wrote. What gin does with
-- a request that no route takes, a 404 or a redirect, changes nothing here.
pub mod Frame
pub mod Requests
pub mod Rows
pub mod Notes
pub mod Examples
use text.Mathlib.Text.{starts_with}
use das_multi_device.Prelude.{
  ℕ, String, Bool, true, false, ◌&&◌, Option, none, some, List, [], ◌∷◌, str_eq, if◌then◌else◌,
}
use das_multi_device.Outcome.{Error}
use das_multi_device.Api.{ApiCode, success, ApiResp}
use das_multi_device.Endpoints
use das_multi_device.Endpoints.{Server, Answers}

-- The methods of HttpHandle that routes reach, the static page of WebRTC, its socket, and the answer
-- with the version.
pub data Endpoint : Type 0 where
  ecrecover get_masters get_original_pk authorize authorize_info : Endpoint
  transaction_send transaction_status query_cid add_cid_info : Endpoint
  cid_info add_test_cid cover_cid verify_webauthn_sign : Endpoint
  webrtc_page webrtc_socket version : Endpoint

pub data Method : Type 0 where
  get post head : Method

-- A path, or all paths that begin with a prefix: StaticFS registers "/*filepath".
pub data Pattern : Type 0 where
  exactly below : String → Pattern

pub record Route : Type 0 where
  pub method : Method
  pub path : Pattern
  pub label : Option String
  pub endpoint : Endpoint

abbrev monitored : String → String → Endpoint → Route
monitored path label endpoint = record {
  method = post;
  path = exactly path;
  label = some label;
  endpoint = endpoint;
}

abbrev plain_route : Method → Pattern → Endpoint → Route
plain_route method path endpoint = record {
  method = method;
  path = path;
  label = none;
  endpoint = endpoint;
}

-- initRouter
unfoldable pub routes : List Route
routes =
    monitored "/v1/webauthn/ecdsa-ecrecover" "ecdsa-ecrecover" ecrecover
    ∷ monitored "/v1/webauthn/get-masters-addr" "get-masters-addr" get_masters
    ∷ monitored "/v1/webauthn/get-original-pk" "get-original-pk" get_original_pk
    ∷ monitored "/v1/webauthn/authorize" "authorize" authorize
    ∷ monitored "/v1/webauthn/authorize-info" "authorize-info" authorize_info
    ∷ monitored "/v1/transaction/send" "transaction-send" transaction_send
    ∷ monitored "/v1/transaction/status" "transaction-status" transaction_status
    ∷ monitored "/v1/webauthn/query-cid" "query-cid" query_cid
    ∷ monitored "/v1/webauthn/add-cid-info" "add-cid-info" add_cid_info
    ∷ monitored "/v1/webauthn/cid-info" "cid-info" cid_info
    ∷ monitored "/v1/webauthn/add-test-cid" "add-test-cid" add_test_cid
    ∷ monitored "/v1/webauthn/cover-cid" "cover-cid" cover_cid
    ∷ monitored "/v1/webauthn/verify" "cid-info" verify_webauthn_sign
    ∷ plain_route get (below "/v1/webrtc/chatroom/") webrtc_page
    ∷ plain_route head (below "/v1/webrtc/chatroom/") webrtc_page
    ∷ plain_route get (exactly "/v1/webrtc/socket") webrtc_socket
    ∷ plain_route get (exactly "/v1/test/jenkins") version
    ∷ []

same_method : Method → Method → Bool
same_method get get = true
same_method post post = true
same_method head head = true
same_method _ _ = false

matches : Pattern → String → Bool
matches (exactly p) path = str_eq p path
matches (below prefix) path = starts_with path prefix

-- gin's choice among these routes, none of which overlap.
unfoldable pub find_route : Method → String → List Route → Option Route
unfolding same_method matches
find_route method path [] = none
find_route method path (r ∷ rs) =
    let rest = find_route method path rs in
    if same_method r.method method && matches r.path path then some r else rest

-- What is written: an ApiResp, of which the code and the text count, something else, or nothing
-- because the handler panicked.
pub data Reply : Type 0 where
  api : ApiCode → String → Reply
  other panicked : Reply

unfoldable pub reply_of : {D : Type 0} → Option (ApiResp D) → Reply
reply_of (some r) = api r.err_no r.err_msg
reply_of none = panicked

abbrev replied : {D : Type 0} → Option (ApiResp D) × Server → Reply × Server
replied o = (reply_of o.0, o.1)

-- The socket's maps are of WebRtc, and the page and the version have no state.
unfoldable pub serve_endpoint : Answers → Endpoint → String → Server → Reply × Server
serve_endpoint a ecrecover body s = replied (Endpoints.ecdsa_ecrecover a body s)
serve_endpoint a get_masters body s = replied (Endpoints.get_masters_addr a body s)
serve_endpoint a get_original_pk body s = replied (Endpoints.get_original_pk a body s)
serve_endpoint a authorize body s = replied (Endpoints.authorize a body s)
serve_endpoint a authorize_info body s = replied (Endpoints.authorize_info a body s)
serve_endpoint a transaction_send body s = replied (Endpoints.transaction_send a body s)
serve_endpoint a transaction_status body s = replied (Endpoints.transaction_status a body s)
serve_endpoint a query_cid body s = replied (Endpoints.query_cid a body s)
serve_endpoint a add_cid_info body s = replied (Endpoints.add_cid_info a body s)
serve_endpoint a cid_info body s = replied (Endpoints.cid_info a body s)
serve_endpoint a add_test_cid body s = replied (Endpoints.add_test_cid a body s)
serve_endpoint a cover_cid body s = replied (Endpoints.cover_cid a body s)
serve_endpoint a verify_webauthn_sign body s = replied (Endpoints.verify a body s)
serve_endpoint a webrtc_page body s = (other, s)
serve_endpoint a webrtc_socket body s = (other, s)
serve_endpoint a version body s = (other, s)

-- The labels of an observation of Metrics.Api(), less the time that it observes.
pub record Observation : Type 0 where
  pub method : String
  pub http_status : ℕ
  pub err_no : ApiCode
  pub err_msg : String

abbrev observation : String → ApiCode → String → Observation
observation label code msg = record {
  method = label;
  http_status = 200;
  err_no = code;
  err_msg = msg;
}

-- DoMonitorLog, after ctx.Next(). A panic of the handler passes it by.
unfoldable pub do_monitor_log : String → Reply → List Observation → List Observation
do_monitor_log label (api code msg) os = observation label code msg ∷ os
do_monitor_log label other os = observation label success "" ∷ os
do_monitor_log label panicked os = os

observed : Option String → Reply → List Observation → List Observation
unfolding do_monitor_log
observed none reply os = os
observed (some label) reply os = do_monitor_log label reply os

-- respHandle, which nothing calls: an error, the JSON of a response, or nothing is written.
pub data Aborted : Type 0 where
  with_error : String → Aborted
  with_json : String → Aborted
  with_nothing : Aborted

resp_handle : (Error → String) → String → Option Error → Aborted
resp_handle error_text res (some e) = with_error (error_text e)
resp_handle error_text res none = if str_eq res "" then with_nothing else with_json res

-- The server with its metrics.
pub record Site : Type 0 where
  pub server : Server
  pub observations : List Observation

serve_found : Answers → Option Route → String → Site → Site
unfolding serve_endpoint observed
serve_found a none body s = s
serve_found a (some r) body s = record {
  server = (serve_endpoint a r.endpoint body s.server).1;
  observations = observed r.label (serve_endpoint a r.endpoint body s.server).0 s.observations;
}

pub record Request : Type 0 where
  pub answers : Answers
  pub method : Method
  pub path : String
  pub body : String

unfoldable pub serve_request : Request → Site → Site
unfolding serve_found find_route routes
serve_request q s = serve_found q.answers (find_route q.method q.path routes) q.body s

-- Requests one after another.
unfoldable pub serve_requests : List Request → Site → Site
unfolding serve_request
serve_requests [] s = s
serve_requests (q ∷ qs) s = serve_requests qs (serve_request q s)
