-- ===== src/Dao/ParserTables.antt =====
-- dao/t_cid_pk.go, dao/t_authorize.go, dao/t_account_info.go: the tables of the parser's database,
-- which this service reads and another one writes.
use Prim.Native.String.{◌++◌ as string_append}
use das_multi_device.Prelude.{
  Bool, ℕ, String, not, ◌&&◌, ◌||◌, Option, List, str_eq, length, select, find_first,
}
use das_multi_device.Outcome.{Error, Exec}
use das_multi_device.Dao.{CidPk, Authorize, AccountInfo, Db, query}

unfoldable pub get_cid_pk : String → Exec Db Error (Option CidPk)
unfolding query find_first
get_cid_pk cid = query (λ db. find_first (λ r. str_eq r.cid cid) db.cid_pks)

unfoldable pub get_masters : String → Exec Db Error (List Authorize)
unfolding query select
get_masters cid =
    query
      (λ db. select (λ r. str_eq r.slave_cid cid && not (str_eq r.master_cid cid)) db.authorizes)

-- The number of accounts that a payload owns or manages.
unfoldable pub get_account_infos : String → Exec Db Error ℕ
unfolding query select
get_account_infos payload =
    query
      (λ db. length (select (λ r. str_eq r.owner payload || str_eq r.manager payload) db.accounts))

-- owner like ?: MySQL's LIKE is a parameter. Nothing calls this query.
unfoldable pub get_account_info_by_cid : (String → String → Bool) → String → Exec Db Error ℕ
unfolding query select
get_account_info_by_cid is_like cid = query (λ db.
    length (select (λ r. is_like r.owner (string_append "%" (string_append cid "%"))) db.accounts))

unfoldable pub get_account_info_by_account : String → Exec Db Error (Option AccountInfo)
unfolding query find_first
get_account_info_by_account account =
    query (λ db. find_first (λ r. str_eq r.account account) db.accounts)
