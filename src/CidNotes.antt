-- ===== src/CidNotes.antt =====
-- http_server/handle/cid_info.go: the user of a device gives it notes, once.
pub mod Laws
use das_multi_device.Prelude.{
  ℕ, String, Bool, true, false, not, ◌||◌, Option, none, some, List, ltb, str_eq, if◌then◌else◌,
}
use das_multi_device.Outcome.{
  Error, wrap, Result, ok, err, Exec, pure, lift, on_err, ◌>>=◌, ◌>>◌, guard,
}
use das_multi_device.Api.{
  error500, params_invalid, db_error, Handled, fail, refuse, untouched, handled,
}
use das_multi_device.Dao.{Db, CidInfo}
use das_multi_device.Dao.CidInfos.{create_cid_info, get_cid_info}
use das_multi_device.KeyList.{split_at}
use das_multi_device.Service.{AddressHex}

pub record ReqAddCidInfo : Type 0 where
  pub ckb_addr : String
  pub cid : String
  pub notes : String
  pub device : String

-- Daf().NormalToHex at ChainTypeWebauthn, Bytes2Hex, Bytes2Hex of CalculateCid1, and the length of a
-- string in bytes.
pub record CidEnv : Type 0 where
  pub normal_to_hex : String → Result Error AddressHex
  pub bytes_to_hex : List ℕ → String
  pub cid1_of : String → String
  pub byte_length : String → ℕ

abbrev pub cid_info_of : ReqAddCidInfo → String → CidInfo
cid_info_of req cid1 = record {
  original_cid = req.cid;
  cid = cid1;
  notes = req.notes;
  device = req.device;
}

-- res.Id > 0
abbrev pub is_free : Option CidInfo → Bool
is_free none = true
is_free (some _) = false

-- The checks of the request, which give the cid1 of its address.
unfoldable pub check_request : CidEnv → ReqAddCidInfo → Result (Handled Bool) String
check_request env req = elim (env.normal_to_hex req.ckb_addr) [
  | err e ↦ err (fail error500 "NormalToHex err" e)
  | ok master ↦ elim (split_at 10 master.address_payload) [
    | err e ↦ err (untouched (some e))
    | ok (front, _) ↦
        if not (str_eq (env.cid1_of req.cid) (env.bytes_to_hex front))
        then err (refuse params_invalid "ckb_addr or cid is error")
        else if ltb 20 (env.byte_length req.notes) || ltb 20 (env.byte_length req.device)
        then err (refuse params_invalid "notes or device error")
        else ok (env.bytes_to_hex front)
  ]
]

-- The row is looked up, and added if there is none.
unfoldable pub add_row : ReqAddCidInfo → String → Exec Db (Handled Bool) Bool
unfolding ◌>>=◌
add_row req cid1 = do
  res ←
      on_err (λ e. fail db_error "search cid_info err" (wrap "CreateCidInfo" e)) (get_cid_info cid1)
  guard (is_free res) (refuse params_invalid "Cid already exists")
  on_err (λ e. fail db_error "create cid_info err" (wrap "CreateCidInfo" e))
      (create_cid_info (cid_info_of req cid1))
  pure true

unfoldable pub add_cid_info_body : CidEnv → ReqAddCidInfo → Exec Db (Handled Bool) Bool
unfolding ◌>>=◌ add_row check_request
add_cid_info_body env req = lift (check_request env req) >>= add_row req

-- doAddCidInfo
unfoldable pub do_add_cid_info : CidEnv → ReqAddCidInfo → Db → Handled Bool × Db
unfolding add_cid_info_body
do_add_cid_info env req = handled (add_cid_info_body env req)
