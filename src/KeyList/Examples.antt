-- ===== src/KeyList/Examples.antt =====
-- The laws of the key list at concrete lists.
use das_multi_device.Prelude.{◌≡◌, refl, List, [], ◌∷◌, arith}
use das_multi_device.Outcome.{ok}
use das_multi_device.KeyList.{
  WebauthnKey, KeyOperate, add, delete, has_key, add_key, delete_key, update_keys,
}
use das_multi_device.KeyList.Devices.{roster, update_all, all_changed, roster-update_all}
use das_multi_device.KeyList.Laws.{IsKeyList, update_keys-IsKeyList}

abbrev phone : WebauthnKey
phone = record { min_alg_id = 8; sub_alg_id = 7; cid = "0xaa"; pub_key = "0x01" }

abbrev laptop : WebauthnKey
laptop = record { min_alg_id = 8; sub_alg_id = 7; cid = "0xbb"; pub_key = "0x02" }

abbrev master_only : List WebauthnKey
master_only = phone ∷ []

master_only-IsKeyList : IsKeyList master_only
unfolding has_key
master_only-IsKeyList = record { fits = omega arith; distinct = (refl, tt) }

added : add_key laptop master_only ≡ ok (phone ∷ laptop ∷ [])
unfolding add_key has_key
added = refl

update_keys-IsKeyList_example : IsKeyList (phone ∷ laptop ∷ [])
unfolding update_keys
update_keys-IsKeyList_example =
    update_keys-IsKeyList add laptop master_only (phone ∷ laptop ∷ []) master_only-IsKeyList added

-- An addition, its repetition, which is refused, and a deletion.
abbrev requests : List (KeyOperate × WebauthnKey)
requests = (add, laptop) ∷ (add, laptop) ∷ (delete, phone) ∷ []

updated : update_all requests master_only ≡ laptop ∷ []
unfolding update_all add_key has_key delete_key
updated = refl

roster-update_all_example :
    roster (update_all requests master_only) ≡ all_changed requests (roster master_only)
roster-update_all_example = roster-update_all requests master_only master_only-IsKeyList
