-- ===== src/CidNotes/Laws.antt =====
-- http_server/handle/cid_info.go: what a request can do to the table of cids.
use das_multi_device.Prelude.{
  String, Bool, true, Option, none, ap, subst, sym, ◌∙◌, some, List, [], ◌∷◌, ◌++◌, ◌≡◌, refl,
  arith, find_first, eq_iff,
}
use das_multi_device.Outcome.{Result, Exec, ok, err, wrap, ◌>>=◌, ◌>>◌, guard, on_err, lift, pure}
use das_multi_device.Outcome.Keeps.{bind-ok, on_err-ok}
use das_multi_device.Api.{Handled, handled, fail, refuse, db_error, params_invalid}
use das_multi_device.Dao.{CidInfo, Db, statement, query}
use das_multi_device.Dao.CidInfos.{find_cid, create_cid_info, get_cid_info, insert_row}
use das_multi_device.CidNotes.{
  ReqAddCidInfo, CidEnv, cid_info_of, is_free, check_request, add_row, add_cid_info_body,
  do_add_cid_info,
}

find_cid-append :
    (cid : String) (rows : List CidInfo) (row new : CidInfo)
    → find_cid cid rows ≡ some row
    → find_cid cid (rows ++ new ∷ []) ≡ some row
unfolding find_cid find_first
find_cid-append cid [] row new h = ground arith
find_cid-append cid (r ∷ rows) row new h =
    let ih = find_cid-append cid rows row new in ground (arith, ih)

abbrev HasRow : String → CidInfo → Db → Type 0
HasRow cid row db = find_cid cid db.cid_infos ≡ some row

create_keeps :
    (cid : String) (row new : CidInfo) (db : Db)
    → HasRow cid row db
    → HasRow cid row (create_cid_info new db).1
unfolding create_cid_info statement
create_keeps cid row new db h = ground (arith, find_cid-append cid db.cid_infos row new h)

get_keeps :
    (cid c : String) (row : CidInfo) (db : Db)
    → HasRow cid row db
    → HasRow cid row (get_cid_info c db).1
unfolding get_cid_info query statement
get_keeps cid c row db h = ground arith

add_row-keeps :
    (req : ReqAddCidInfo) (cid1 cid : String) (row : CidInfo) (db : Db)
    → HasRow cid row db
    → HasRow cid row (add_row req cid1 db).1
unfolding add_row ◌>>=◌ on_err
add_row-keeps req cid1 cid row db h = ground (
  arith,
  get_keeps cid cid1 row db h,
  create_keeps cid row (cid_info_of req cid1) (get_cid_info cid1 db).1,
)

checked-keeps :
    (r : Result (Handled Bool) String) (req : ReqAddCidInfo) (cid : String) (row : CidInfo)
    (db : Db)
    → HasRow cid row db
    → HasRow cid row ((lift r >>= add_row req) db).1
unfolding ◌>>=◌ lift
checked-keeps (ok cid1) req cid row db h = add_row-keeps req cid1 cid row db h
checked-keeps (err e) req cid row db h = h

-- Whatever the request and the database answer, a cid that has notes keeps them.
pub do_add_cid_info-keeps :
    (env : CidEnv) (req : ReqAddCidInfo) (db : Db) (cid : String) (row : CidInfo)
    → find_cid cid db.cid_infos ≡ some row
    → find_cid cid (do_add_cid_info env req db).1.cid_infos ≡ some row
unfolding do_add_cid_info add_cid_info_body handled
do_add_cid_info-keeps env req db cid row h = checked-keeps (check_request env req) req cid row db h

create_pendings : (new : CidInfo) (db : Db) → (create_cid_info new db).1.pendings ≡ db.pendings
unfolding create_cid_info statement insert_row
create_pendings new db = ground arith

get_pendings : (cid : String) (db : Db) → (get_cid_info cid db).1.pendings ≡ db.pendings
unfolding get_cid_info query statement
get_pendings cid db = ground arith

add_row_pendings :
    (req : ReqAddCidInfo) (cid1 : String) (db : Db) → (add_row req cid1 db).1.pendings ≡ db.pendings
unfolding add_row ◌>>=◌ on_err
add_row_pendings req cid1 db =
    ground
      (arith, get_pendings cid1 db, create_pendings (cid_info_of req cid1) (get_cid_info cid1 db).1)

checked_pendings :
    (r : Result (Handled Bool) String) (req : ReqAddCidInfo) (db : Db)
    → ((lift r >>= add_row req) db).1.pendings ≡ db.pendings
unfolding ◌>>=◌ lift
checked_pendings (ok cid1) req db = add_row_pendings req cid1 db
checked_pendings (err e) req db = refl

pub do_add_cid_info-pendings :
    (env : CidEnv) (req : ReqAddCidInfo) (db : Db)
    → (do_add_cid_info env req db).1.pendings ≡ db.pendings
unfolding do_add_cid_info add_cid_info_body handled
do_add_cid_info-pendings env req db = checked_pendings (check_request env req) req db

find_cid-new :
    (cid : String) (rows : List CidInfo) (new : CidInfo)
    → find_cid cid rows ≡ none
    → new.cid ≡ cid
    → find_cid cid (rows ++ new ∷ []) ≡ some new
unfolding find_cid find_first
find_cid-new cid [] new h same = ground (arith, same, eq_iff new.cid cid)
find_cid-new cid (r ∷ rows) new h same =
    let ih = find_cid-new cid rows new in ground (arith, h, same, ih)

-- A row that was added is found.
create_cid_info-found :
    (new : CidInfo) (db db' : Db) (u : Unit)
    → find_cid new.cid db.cid_infos ≡ none
    → create_cid_info new db ≡ (ok u, db')
    → find_cid new.cid db'.cid_infos ≡ some new
unfolding create_cid_info statement insert_row
create_cid_info-found new db db' u absent h =
    ground (arith, h, absent, find_cid-new new.cid db.cid_infos new absent refl)

get_cid_info-found :
    (cid : String) (db db' : Db) (res : Option CidInfo)
    → get_cid_info cid db ≡ (ok res, db')
    → find_cid cid db'.cid_infos ≡ res
unfolding get_cid_info query statement
get_cid_info-found cid db db' res h = ground (arith, h)

free_none :
    (res : Option CidInfo) (db db' : Db) (u : Unit)
    → guard (is_free res) (refuse {D = Bool} params_invalid "Cid already exists") db ≡ (ok u, db')
    → (res ≡ none) × (db ≡ db')
free_none none db db' u h = (refl, ap (λ p. p.1) h)
free_none (some r) db db' u h = cc

add_row-found :
    (req : ReqAddCidInfo) (cid1 : String) (db db' : Db) (b : Bool)
    → add_row req cid1 db ≡ (ok b, db')
    → find_cid cid1 db'.cid_infos ≡ some (cid_info_of req cid1)
unfolding add_row pure
add_row-found req cid1 db db' b h =
    let search : Exec Db (Handled Bool) (Option CidInfo) =
      on_err (λ e. fail db_error "search cid_info err" (wrap "CreateCidInfo" e))
        (get_cid_info cid1) in
    let create : Exec Db (Handled Bool) Unit =
      on_err (λ e. fail db_error "create cid_info err" (wrap "CreateCidInfo" e))
        (create_cid_info (cid_info_of req cid1)) in
    let refusal : Handled Bool = refuse params_invalid "Cid already exists" in
    let (res, db₁, searched, rest) =
      bind-ok search (λ res. guard (is_free res) refusal >> (create >> pure true)) db b db' h in
    let (u, db₂, free, rest₂) =
      bind-ok (guard (is_free res) refusal) (λ _. create >> pure true) db₁ b db' rest in
    let (v, db₃, created, rest₃) = bind-ok create (λ _. pure true) db₂ b db' rest₂ in
    let (is_none, same) = free_none res db₁ db₂ u free in
    let absent : find_cid cid1 db₂.cid_infos ≡ none =
      ap (λ (d : Db). find_cid cid1 d.cid_infos) (sym same)
      ∙ get_cid_info-found cid1 db db₁ res (on_err-ok _ (get_cid_info cid1) db res db₁ searched)
      ∙ is_none in
    subst (λ (d : Db). find_cid cid1 d.cid_infos ≡ some (cid_info_of req cid1))
      (ap (λ p. p.1) rest₃)
      (create_cid_info-found (cid_info_of req cid1) db₂ db₃ v absent
        (on_err-ok _ (create_cid_info (cid_info_of req cid1)) db₂ v db₃ created))

-- When the body succeeds, the row of the request's cid1 holds what the request says.
pub add_cid_info_body-found :
    (env : CidEnv) (req : ReqAddCidInfo) (db db' : Db) (b : Bool)
    → add_cid_info_body env req db ≡ (ok b, db')
    → (cid1 : String) × (check_request env req ≡ ok cid1)
      × (find_cid cid1 db'.cid_infos ≡ some (cid_info_of req cid1))
unfolding add_cid_info_body lift
add_cid_info_body-found env req db db' b h =
    let (cid1, db₁, checked, rest) =
      bind-ok (lift (check_request env req)) (add_row req) db b db' h in
    (cid1, ap (λ p. p.0) checked, add_row-found req cid1 db₁ db' b rest)
