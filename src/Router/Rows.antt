-- ===== src/Router/Rows.antt =====
-- What a request makes of the pending rows.
use das_multi_device.Prelude.{
  String, Bool, true, false, ◌≡◌, refl, sym, subst, Option, none, some, List,
}
use das_multi_device.Dao.{PendingInfo}
use das_multi_device.Dao.Pendings.Evolves.{
  Evolves, EvolvesFrom, Evolves-refl, create_pending-EvolvesFrom,
}
use das_multi_device.Service.Tables.{UnchangedUnless}
use das_multi_device.Transaction.{do_transaction_send}
use das_multi_device.Transaction.Effects.{do_transaction_send-Holds}
use das_multi_device.Endpoints
use das_multi_device.Endpoints.{Server, Answers, in_world}
use das_multi_device.Router.{
  Endpoint, transaction_send, serve_endpoint, Route, Request, Site, find_route, routes, serve_found,
  serve_request,
}
use das_multi_device.Router.Frame.{serve_json-keeps, serve_endpoint-OnlyChanges, writes_pendings}

abbrev pub rows_of : Server → List PendingInfo
rows_of s = s.world.db.pendings

only_sending : (e : Endpoint) → writes_pendings e ≡ true → e ≡ transaction_send
only_sending transaction_send h = refl
only_sending _ h = cc

unchanged-Evolves :
    (b : Bool) (rows rows' : List PendingInfo)
    → UnchangedUnless b rows rows'
    → (b ≡ true → Evolves rows rows')
    → Evolves rows rows'
unchanged-Evolves true rows rows' same k = k refl
unchanged-Evolves false rows rows' same k = subst (Evolves rows) (sym same) (Evolves-refl rows)

send-Evolves :
    (a : Answers) (body : String) (s : Server)
    → Evolves (rows_of s) (rows_of (serve_endpoint a transaction_send body s).1)
unfolding serve_endpoint Endpoints.transaction_send in_world
send-Evolves a body s =
    serve_json-keeps (λ t. Evolves (rows_of s) (rows_of t)) a.binders.bind_send
      (λ req. in_world (do_transaction_send a.send_env req)) body s (Evolves-refl (rows_of s))
      (λ req.
        do_transaction_send-Holds a.send_env (EvolvesFrom (rows_of s))
          (λ row. (create_pending-EvolvesFrom (rows_of s) row).at) req s.world
          (Evolves-refl (rows_of s)))

serve_endpoint-Evolves :
    (a : Answers) (e : Endpoint) (body : String) (s : Server)
    → Evolves (rows_of s) (rows_of (serve_endpoint a e body s).1)
serve_endpoint-Evolves a e body s =
    unchanged-Evolves (writes_pendings e) _ _ (serve_endpoint-OnlyChanges a e body s).same_pendings
      (λ h.
        subst (λ e'. Evolves (rows_of s) (rows_of (serve_endpoint a e' body s).1))
          (sym (only_sending e h)) (send-Evolves a body s))

serve_found-Evolves :
    (a : Answers) (found : Option Route) (body : String) (s : Site)
    → Evolves (rows_of s.server) (rows_of (serve_found a found body s).server)
unfolding serve_found
serve_found-Evolves a none body s = Evolves-refl (rows_of s.server)
serve_found-Evolves a (some r) body s = serve_endpoint-Evolves a r.endpoint body s.server

pub serve_request-Evolves :
    (q : Request) (s : Site) → Evolves (rows_of s.server) (rows_of (serve_request q s).server)
unfolding serve_request
serve_request-Evolves q s =
    serve_found-Evolves q.answers (find_route q.method q.path routes) q.body s
