-- ===== src/Router/Requests.antt =====
-- http_server/router.go: what a sequence of requests can change.
use das_multi_device.Prelude.{Bool, true, false, ◌||◌, Option, none, some, List, [], ◌∷◌, ◌∙◌}
use das_multi_device.Service.Tables.{UnchangedUnless}
use das_multi_device.Endpoints.{Server}
use das_multi_device.Router.{
  Endpoint, Route, Request, Site, find_route, routes, serve_found, serve_request, serve_requests,
}
use das_multi_device.Router.Frame.{
  OnlyChanges, OnlyChanges-refl, may_send, writes_pendings, writes_notes, writes_file,
  serve_endpoint-OnlyChanges,
}

-- Whether the endpoint of a request, if a route takes it, has a property.
abbrev pub route_of : Request → Option Route
route_of q = find_route q.method q.path routes

abbrev pub reaches : (Endpoint → Bool) → Option Route → Bool
reaches f none = false
reaches f (some r) = f r.endpoint

unfoldable pub any_reaches : (Endpoint → Bool) → List Request → Bool
any_reaches f [] = false
any_reaches f (q ∷ qs) = reaches f (route_of q) || any_reaches f qs

then_unchanged :
    {A : Type 0} (b c : Bool) (x y z : A)
    → UnchangedUnless b x y
    → UnchangedUnless c y z
    → UnchangedUnless (b || c) x z
then_unchanged true c x y z h k = tt
then_unchanged false true x y z h k = tt
then_unchanged false false x y z h k = k ∙ h

module _ (b₁ b₂ b₃ b₄ c₁ c₂ c₃ c₄ : Bool) where
  OnlyChanges-trans :
      {s t u : Server}
      → OnlyChanges b₁ b₂ b₃ b₄ s t
      → OnlyChanges c₁ c₂ c₃ c₄ t u
      → OnlyChanges (b₁ || c₁) (b₂ || c₂) (b₃ || c₃) (b₄ || c₄) s u
  OnlyChanges-trans o p = record {
    same_sent = then_unchanged b₁ c₁ _ _ _ o.same_sent p.same_sent;
    same_pendings = then_unchanged b₂ c₂ _ _ _ o.same_pendings p.same_pendings;
    same_notes = then_unchanged b₃ c₃ _ _ _ o.same_notes p.same_notes;
    same_file = then_unchanged b₄ c₄ _ _ _ o.same_file p.same_file;
  }

serve_found-OnlyChanges :
    (q : Request) (found : Option Route) (s : Site)
    → OnlyChanges
        (reaches may_send found)
        (reaches writes_pendings found)
        (reaches writes_notes found)
        (reaches writes_file found)
        s.server
        (serve_found q.answers found q.body s).server
unfolding serve_found
serve_found-OnlyChanges q none s = OnlyChanges-refl false false false false s.server
serve_found-OnlyChanges q (some r) s =
    serve_endpoint-OnlyChanges q.answers r.endpoint q.body s.server

-- Whatever the bodies, the node, the libraries, the database and redis say, a sequence of requests
-- changes only what the endpoints that it reaches are for: the list of sent transactions changes
-- only if a request reaches authorize or transaction/send, the pending rows only if one reaches
-- transaction/send, the notes of cids only if one reaches add-cid-info, and the file of old cids
-- only if one reaches add-test-cid or cover-cid.
pub serve_requests-OnlyChanges :
    (qs : List Request) (s : Site)
    → OnlyChanges
        (any_reaches may_send qs)
        (any_reaches writes_pendings qs)
        (any_reaches writes_notes qs)
        (any_reaches writes_file qs)
        s.server
        (serve_requests qs s).server
unfolding serve_requests any_reaches serve_request
serve_requests-OnlyChanges [] s = OnlyChanges-refl false false false false s.server
serve_requests-OnlyChanges (q ∷ qs) s =
    OnlyChanges-trans (reaches may_send (route_of q)) (reaches writes_pendings (route_of q))
      (reaches writes_notes (route_of q)) (reaches writes_file (route_of q))
      (any_reaches may_send qs) (any_reaches writes_pendings qs) (any_reaches writes_notes qs)
      (any_reaches writes_file qs) (serve_found-OnlyChanges q (route_of q) s)
      (serve_requests-OnlyChanges qs (serve_request q s))
