-- ===== src/OldCid/Laws.antt =====
-- http_server/handle/upgradeCid.go: what adding and covering do to the file of old cids.
use das_multi_device.Prelude.{
  String, Bool, true, false, not, ◌&&◌, none, List, [], ◌∷◌, str_eq, eq_iff, ◌≡◌, refl, ◌∙◌, arith,
  update_where,
}
use das_multi_device.Outcome.{◌>>=◌, on_err}
use das_multi_device.Api.{respond_ok, handled}
use das_multi_device.Service.{Env, World}
use das_multi_device.OldCid.{
  OldCid, CidFile, Codec, is_uncovered, has_uncovered, has_cid, cover, old_cid_answer, get_old_cid,
  update_old_cid, run_silent, cover_cid_body, write_cover, do_cover_cid, cid_info_body, do_cid_info,
}

-- No cid stands twice in the file.
unfoldable pub is_unique : List OldCid → Bool
is_unique [] = true
is_unique (v ∷ vs) = not (has_cid v.cid vs) && is_unique vs

pub has_uncovered-cover :
    (c cid : String) (vs : List OldCid)
    → has_uncovered c (cover cid vs) ≡ (has_uncovered c vs && not (str_eq c cid))
unfolding has_uncovered cover update_where is_uncovered
has_uncovered-cover c cid [] = refl
has_uncovered-cover c cid (v ∷ vs) =
    let ih = has_uncovered-cover c cid vs in
    ground (arith, ih, eq_iff v.cid c, eq_iff v.cid cid, eq_iff c cid)

not_uncovered :
    (c cid : String) (vs : List OldCid)
    → has_uncovered cid vs ≡ false
    → has_uncovered c vs ≡ (has_uncovered c vs && not (str_eq c cid))
not_uncovered c cid vs h = ground (arith, eq_iff c cid)

not_itself : (cid : String) (b : Bool) → (b && not (str_eq cid cid)) ≡ false
not_itself cid b = ground (arith, eq_iff cid cid)

-- When the file can be written, covering a cid leaves uncovered exactly the cids that were
-- uncovered before and are another cid.
pub has_uncovered-do_cover_cid :
    (c cid : String) (file : CidFile)
    → file.write_fault ≡ none
    → has_uncovered c (do_cover_cid cid file).1.old_cids
      ≡ (has_uncovered c file.old_cids && not (str_eq c cid))
unfolding do_cover_cid cover_cid_body write_cover run_silent get_old_cid update_old_cid ◌>>=◌ on_err
has_uncovered-do_cover_cid c cid file h =
    ground (arith, has_uncovered-cover c cid file.old_cids, not_uncovered c cid file.old_cids)

-- When the file can be written, after covering a cid the service answers for it that it is no old
-- cid, without asking the database or the node, whatever the public key.
pub do_cid_info-do_cover_cid :
    (env : Env) (codec : Codec) (cid x y : String) (file : CidFile) (w : World)
    → file.write_fault ≡ none
    → ◌≡◌ {A = _ × World}
        (do_cid_info env codec (do_cover_cid cid file).1.old_cids cid x y w)
        (respond_ok (record { is_old_cid = false; has_account = false }), w)
unfolding do_cid_info cid_info_body old_cid_answer handled
do_cid_info-do_cover_cid env codec cid x y file w h =
    let covered : has_uncovered cid (do_cover_cid cid file).1.old_cids ≡ false =
      has_uncovered-do_cover_cid cid cid file h
      ∙ not_itself cid (has_uncovered cid file.old_cids) in
    rw covered
