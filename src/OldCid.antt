-- ===== src/OldCid.antt =====
-- http_server/handle/upgradeCid.go: the old cids of the file conf/old_cid.json, which accounts still use
-- and which users can cover.
--
-- The file is the list of its entries: json.Unmarshal gives back what json.Marshal wrote.
pub mod Effects
pub mod Laws
pub mod Interleaved
use das_multi_device.Prelude.{
  ℕ, String, Bool, true, false, not, ◌&&◌, ◌||◌, Option, none, some, List, [], ◌∷◌, ◌++◌, ◌==◌,
  str_eq, if◌then◌else◌, select, update_where,
}
use das_multi_device.Outcome.{
  Error, wrap, panic, Result, ok, err, change_err, Exec, pure, raise, lift, on_err, ◌>>=◌, ◌>>◌,
  guard,
}
use das_multi_device.Api.{
  ApiCode, success, error500, params_invalid, db_error, account_not_exist, ApiResp, Handled, fail,
  refuse, untouched, handled,
}
use das_multi_device.Dao.{Db, AccountInfo}
use das_multi_device.Dao.ParserTables.{get_account_info_by_account}
use das_multi_device.Service.{Env, World}
use das_multi_device.KeyListCell.{check_can_be_created}

-- OldCid
pub record OldCid : Type 0 where
  pub cid : String
  pub cid1 : String
  pub is_cover : Bool
  pub is_test : Bool

-- The file, and what the system does to the next write: `some (e, left)` fails it with the error `e`.
-- ioutil.WriteFile empties the file before it writes, so that a failed write leaves other entries behind,
-- `left`; a file that no longer parses is left out.
pub record CidFile : Type 0 where
  pub old_cids : List OldCid
  pub write_fault : Option (Error × List OldCid)

-- updateOldCid
unfoldable pub update_old_cid : List OldCid → Exec CidFile Error Unit
update_old_cid cids file = elim file.write_fault [
  | none ↦ (ok tt, record file { old_cids = cids })
  | some (e, left) ↦ (err e, record file { old_cids = left })
]

-- getOldCid; log.Fatalf ends the process where the file cannot be read.
unfoldable pub get_old_cid : Exec CidFile Error (List OldCid)
get_old_cid file = (ok file.old_cids, file)

-- The response of these two handlers stays as it was made where they succeed.
abbrev pub silent : Result (Handled Unit) Unit → Handled Unit
silent (ok _) = untouched none
silent (err h) = h

unfoldable pub run_silent : Exec CidFile (Handled Unit) Unit → CidFile → Handled Unit × CidFile
run_silent body file = let (r, file') = body file in (silent r, file')

unfoldable pub has_cid : String → List OldCid → Bool
has_cid cid [] = false
has_cid cid (v ∷ vs) = str_eq v.cid cid || has_cid cid vs

-- v.Cid == req.Cid && !v.IsCover
unfoldable pub is_uncovered : String → OldCid → Bool
is_uncovered cid v = str_eq v.cid cid && not v.is_cover

unfoldable pub has_uncovered : String → List OldCid → Bool
has_uncovered cid [] = false
has_uncovered cid (v ∷ vs) = is_uncovered cid v || has_uncovered cid vs

abbrev new_test_cid : (String → String) → String → OldCid
new_test_cid cid1_of cid = record {
  cid = cid;
  cid1 = cid1_of cid;
  is_cover = false;
  is_test = true;
}

-- doAddTestCid; `cid1_of` is the hexadecimal CalculateCid1.
unfoldable pub add_test_cid_body : (String → String) → String → Exec CidFile (Handled Unit) Unit
unfolding ◌>>=◌ get_old_cid
add_test_cid_body cid1_of cid = do
  old_cids ← on_err (fail error500 "getOldCid err") get_old_cid
  guard (not (has_cid cid old_cids))
      (refuse params_invalid "params invalid, The cid already exists")
  on_err (fail error500 "updateOldCid err")
      (update_old_cid (old_cids ++ new_test_cid cid1_of cid ∷ []))

unfoldable pub do_add_test_cid : (String → String) → String → CidFile → Handled Unit × CidFile
unfolding add_test_cid_body
do_add_test_cid cid1_of cid = run_silent (add_test_cid_body cid1_of cid)

-- oldCids[i].IsCover = true
unfoldable pub cover : String → List OldCid → List OldCid
unfolding update_where is_uncovered
cover cid = update_where (is_uncovered cid) (λ v. record v { is_cover = true })

-- doCoverCid after the file is read: the cid is looked for, and the whole file is written.
unfoldable pub write_cover : String → List OldCid → Exec CidFile (Handled Unit) Unit
unfolding ◌>>=◌
write_cover cid old_cids = do
  guard (has_uncovered cid old_cids) (refuse params_invalid "cid not found or has been covered")
  on_err (fail error500 "updateOldCid err") (update_old_cid (cover cid old_cids))

-- doCoverCid
unfoldable pub cover_cid_body : String → Exec CidFile (Handled Unit) Unit
unfolding get_old_cid write_cover
cover_cid_body cid = on_err (fail error500 "getOldCid") get_old_cid >>= write_cover cid

unfoldable pub do_cover_cid : String → CidFile → Handled Unit × CidFile
unfolding cover_cid_body
do_cover_cid cid = run_silent (cover_cid_body cid)

pub record RepCidInfo : Type 0 where
  pub is_old_cid : Bool
  pub has_account : Bool

-- hex.DecodeString of the coordinates of a public key
pub record Codec : Type 0 where
  pub decode_hex : String → Result Error (List ℕ)
  -- common.GetWebauthnPayload of a cid and the coordinates
  pub webauthn_payload : String → List ℕ → List ℕ → String
  -- Daf().HexToNormal of a payload at the WebAuthn algorithms
  pub hex_to_normal : String → Result Error String

unfoldable pub decode_coordinates :
    {D : Type 0} → Codec → String → String → Result (Handled D) (List ℕ × List ℕ)
decode_coordinates codec x y = elim (codec.decode_hex x) [
  | err e ↦ err (fail params_invalid "params invalid" e)
  | ok xs ↦ elim (codec.decode_hex y) [
    | err e ↦ err (fail params_invalid "params invalid" e)
    | ok ys ↦ ok (xs, ys)
  ]
]

-- if resp.IsOldCid { ... }
unfoldable pub old_cid_answer :
    Bool → Env → Codec → String → String → String → Exec World (Handled RepCidInfo) RepCidInfo
unfolding ◌>>=◌
old_cid_answer false env codec cid x y = pure (record { is_old_cid = false; has_account = false })
old_cid_answer true env codec cid x y = do
  key ← lift (decode_coordinates codec x y)
  res ←
      on_err (λ e. fail error500 "check .bit  err" (wrap "checkCanBeCreated" e))
        (check_can_be_created env (codec.webauthn_payload cid key.0 key.1))
  pure (record { is_old_cid = true; has_account = res })

-- doCidInfo: whether a cid is an old one that is not covered, and then whether it has an account.
unfoldable pub cid_info_body :
    Env
    → Codec
    → List OldCid
    → String
    → String
    → String
    → Exec World (Handled RepCidInfo) RepCidInfo
unfolding old_cid_answer
cid_info_body env codec old_cids cid x y =
    old_cid_answer (has_uncovered cid old_cids) env codec cid x y

unfoldable pub do_cid_info :
    Env → Codec → List OldCid → String → String → String → World → Handled RepCidInfo × World
unfolding cid_info_body
do_cid_info env codec old_cids cid x y = handled (cid_info_body env codec old_cids cid x y)

-- The last old cid with that cid1, or an empty one.
unfoldable pub last_with_cid1 : String → List OldCid → String → String
last_with_cid1 cid1 [] found = found
last_with_cid1 cid1 (v ∷ vs) found =
    last_with_cid1 cid1 vs (if str_eq v.cid1 cid1 then v.cid else found)

-- acc.Id == 0 || acc.OwnerChainType != ChainTypeWebauthn
webauthn_account : ℕ → Option AccountInfo → Exec Db (Handled String) AccountInfo
webauthn_account chain_type none =
    raise (refuse account_not_exist "account is not found or not registered by passkey")
webauthn_account chain_type (some acc) =
    if acc.owner_chain_type == chain_type
    then pure acc
    else raise (refuse account_not_exist "account is not found or not registered by passkey")

-- acc.Owner[:20] is a slice, which panics on a shorter string; `prefix20` is none there.
-- The slice is in the loop over the old cids, so without any it does not run.
cid_of_owner : List OldCid → Option String → Result (Handled String) String
unfolding last_with_cid1
cid_of_owner [] cid1 = ok ""
cid_of_owner (v ∷ vs) none = err (untouched (some (panic "slice bounds out of range")))
cid_of_owner (v ∷ vs) (some cid1) = ok (last_with_cid1 cid1 (v ∷ vs) "")

-- doQueryCid
unfoldable pub query_cid_body :
    ℕ → (String → Option String) → List OldCid → String → Exec Db (Handled String) String
unfolding ◌>>=◌ webauthn_account cid_of_owner
query_cid_body chain_type prefix20 old_cids account = do
  found ←
      on_err (λ e. fail db_error "GetAccountInfoByAccount err" (wrap "GetAccountInfoByAccount" e))
        (get_account_info_by_account account)
  acc ← webauthn_account chain_type found
  lift (cid_of_owner old_cids (prefix20 acc.owner))

unfoldable pub do_query_cid :
    ℕ → (String → Option String) → List OldCid → String → Db → Handled String × Db
unfolding query_cid_body
do_query_cid chain_type prefix20 old_cids account =
    handled (query_cid_body chain_type prefix20 old_cids account)
