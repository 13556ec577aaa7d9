-- ===== src/OldCid/Effects.antt =====
-- http_server/handle/upgradeCid.go: doCidInfo and doQueryCid only read.
use das_multi_device.Prelude.{
  ℕ, ◌==◌, String, Bool, true, false, Option, none, some, List, refl, inl, inr, Bool-cases,
}
use das_multi_device.Outcome.Rules.{Keeps, keeps_rules}
use das_multi_device.Api.{handled}
use das_multi_device.Dao.{Db, AccountInfo}
use das_multi_device.Service.{Env, World}
use das_multi_device.Service.Tables.{
  SameTables, SameWorld, SameWorld-refl, get_account_info_by_account-SameTables,
}
use das_multi_device.KeyListCell.Effects.{check_can_be_created-SameWorld}
use das_multi_device.OldCid.{
  OldCid, Codec, has_uncovered, old_cid_answer, cid_info_body, do_cid_info, webauthn_account,
  query_cid_body, do_query_cid,
}

module _ (env : Env) (codec : Codec) (cid x y : String) where
  answer-SameWorld :
      (w₀ : World) (b : Bool) → Keeps (SameWorld false w₀) (old_cid_answer b env codec cid x y)
  unfolding old_cid_answer
  answer-SameWorld w₀ false = search keeps_rules
  answer-SameWorld w₀ true = search (keeps_rules, check_can_be_created-SameWorld)

  pub do_cid_info-SameWorld :
      (old_cids : List OldCid) (w : World)
      → SameWorld false w (do_cid_info env codec old_cids cid x y w).1
  unfolding do_cid_info cid_info_body handled
  do_cid_info-SameWorld old_cids w =
      (answer-SameWorld w (has_uncovered cid old_cids)).at w (SameWorld-refl false w)

module _ (chain_type : ℕ) (prefix20 : String → Option String) (old_cids : List OldCid) where
  account-SameTables :
      (d₀ : Db) (found : Option AccountInfo)
      → Keeps (SameTables d₀) (webauthn_account chain_type found)
  unfolding webauthn_account
  account-SameTables d₀ none = search keeps_rules
  account-SameTables d₀ (some acc) = elim (Bool-cases (acc.owner_chain_type == chain_type)) [
    | inl e ↦ rw e (search keeps_rules)
    | inr e ↦ rw e (search keeps_rules)
  ]

  query-SameTables :
      (d₀ : Db) (account : String)
      → Keeps (SameTables d₀) (query_cid_body chain_type prefix20 old_cids account)
  unfolding query_cid_body
  query-SameTables d₀ account =
      search (keeps_rules, get_account_info_by_account-SameTables, account-SameTables)

  pub do_query_cid-SameTables :
      (account : String) (d : Db)
      → SameTables d (do_query_cid chain_type prefix20 old_cids account d).1
  unfolding do_query_cid handled
  do_query_cid-SameTables account d = (query-SameTables d account).at d (refl, refl)
