-- ===== src/Dao/CidInfos.antt =====
-- dao/t_cid_info.go: the notes and the device of a cid. Both `original_cid` and `cid` are unique.
use das_multi_device.Prelude.{
  String, Bool, ◌||◌, Option, none, some, List, [], ◌∷◌, ◌++◌, str_eq, find_first,
}
use das_multi_device.Outcome.{Error, duplicate_entry, ok, err, Exec}
use das_multi_device.Dao.{CidInfo, Db, statement, query}

unfoldable pub insert_row : CidInfo → Option CidInfo → Exec Db Error Unit
insert_row c (some _) db = (err duplicate_entry, db)
insert_row c none db = (ok tt, record db { cid_infos = db.cid_infos ++ c ∷ [] })

abbrev clashes : CidInfo → CidInfo → Bool
clashes c r = str_eq r.original_cid c.original_cid || str_eq r.cid c.cid

unfoldable pub create_cid_info : CidInfo → Exec Db Error Unit
unfolding statement insert_row find_first
create_cid_info c = statement (λ db. insert_row c (find_first (clashes c) db.cid_infos) db)

unfoldable pub find_cid : String → List CidInfo → Option CidInfo
unfolding find_first
find_cid cid = find_first (λ r. str_eq r.cid cid)

unfoldable pub get_cid_info : String → Exec Db Error (Option CidInfo)
unfolding query find_cid
get_cid_info cid = query (λ db. find_cid cid db.cid_infos)
