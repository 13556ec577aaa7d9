-- ===== src/Router/Notes.antt =====
-- What requests make of the notes of a cid.
use das_multi_device.Prelude.{
  String, Bool, true, false, ◌≡◌, refl, ap, ◌∙◌, subst, sym, Option, none, some, List, [], ◌∷◌,
}
use das_multi_device.Outcome.{ok}
use das_multi_device.Dao.{Db, CidInfo}
use das_multi_device.Dao.CidInfos.{find_cid}
use das_multi_device.CidNotes.{
  ReqAddCidInfo, CidEnv, cid_info_of, check_request, add_cid_info_body, do_add_cid_info,
}
use das_multi_device.CidNotes.Laws.{do_add_cid_info-keeps, add_cid_info_body-found}
use das_multi_device.Service.Tables.{UnchangedUnless}
use das_multi_device.Endpoints
use das_multi_device.Endpoints.{Server, Answers, in_db}
use das_multi_device.Router.{
  Endpoint, add_cid_info, serve_endpoint, Route, Request, Site, find_route, routes, serve_found,
  serve_request, serve_requests,
}
use das_multi_device.Router.Frame.{serve_json-keeps, serve_endpoint-OnlyChanges, writes_notes}

module _ (cid : String) (row : CidInfo) where
  abbrev HasNotes : Server → Type 0
  HasNotes s = find_cid cid s.world.db.cid_infos ≡ some row

  only_adding : (e : Endpoint) → writes_notes e ≡ true → e ≡ add_cid_info
  only_adding add_cid_info h = refl
  only_adding _ h = cc

  unchanged-HasNotes :
      (b : Bool) (s t : Server)
      → UnchangedUnless b s.world.db.cid_infos t.world.db.cid_infos
      → (b ≡ true → HasNotes t)
      → HasNotes s
      → HasNotes t
  unchanged-HasNotes true s t same k h = k refl
  unchanged-HasNotes false s t same k h = ap (find_cid cid) same ∙ h

  add-HasNotes :
      (a : Answers) (body : String) (s : Server)
      → HasNotes s
      → HasNotes (serve_endpoint a add_cid_info body s).1
  unfolding serve_endpoint Endpoints.add_cid_info in_db
  add-HasNotes a body s h =
      serve_json-keeps HasNotes a.binders.bind_add_cid_info
        (λ req. in_db (do_add_cid_info a.cid_env req)) body s h
        (λ req. do_add_cid_info-keeps a.cid_env req s.world.db cid row h)

  serve_endpoint-HasNotes :
      (a : Answers) (e : Endpoint) (body : String) (s : Server)
      → HasNotes s
      → HasNotes (serve_endpoint a e body s).1
  serve_endpoint-HasNotes a e body s h =
      unchanged-HasNotes (writes_notes e) s (serve_endpoint a e body s).1
        (serve_endpoint-OnlyChanges a e body s).same_notes
        (λ w.
          subst (λ e'. HasNotes (serve_endpoint a e' body s).1) (sym (only_adding e w))
            (add-HasNotes a body s h))
        h

  serve_found-HasNotes :
      (a : Answers) (found : Option Route) (body : String) (s : Site)
      → HasNotes s.server
      → HasNotes (serve_found a found body s).server
  unfolding serve_found
  serve_found-HasNotes a none body s h = h
  serve_found-HasNotes a (some r) body s h = serve_endpoint-HasNotes a r.endpoint body s.server h

  serve_requests-HasNotes :
      (qs : List Request) (s : Site) → HasNotes s.server → HasNotes (serve_requests qs s).server
  unfolding serve_requests serve_request
  serve_requests-HasNotes [] s h = h
  serve_requests-HasNotes (q ∷ qs) s h =
      serve_requests-HasNotes qs (serve_request q s)
        (serve_found-HasNotes q.answers (find_route q.method q.path routes) q.body s h)

-- When the body of doAddCidInfo has succeeded, the notes and the device of the request's cid are those
-- of the request, and stay so after any sequence of requests, whatever these say and whatever the
-- database answers.
pub first_notes_stay :
    (env : CidEnv) (req : ReqAddCidInfo) (db db' : Db) (b : Bool)
    → add_cid_info_body env req db ≡ (ok b, db')
    → (qs : List Request) (s : Site) → s.server.world.db ≡ db'
    → (cid1 : String) × (check_request env req ≡ ok cid1)
      × (find_cid cid1 (serve_requests qs s).server.world.db.cid_infos
          ≡ some (record {
            original_cid = req.cid;
            cid = cid1;
            notes = req.notes;
            device = req.device;
          }))
first_notes_stay env req db db' b h qs s same =
    let (cid1, checked, found) = add_cid_info_body-found env req db db' b h in
    (
      cid1,
      checked,
      serve_requests-HasNotes cid1 (cid_info_of req cid1) qs s
          (ap (λ (d : Db). find_cid cid1 d.cid_infos) same ∙ found),
    )
