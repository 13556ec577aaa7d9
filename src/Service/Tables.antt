-- ===== src/Service/Tables.antt =====
-- What the handlers' calls of the database and of redis leave as it was.
use das_multi_device.Prelude.{String, Bool, true, false, ◌≡◌, refl, arith}
use das_multi_device.Outcome.{Error, Exec}
use das_multi_device.Outcome.Rules.{Keeps}
use das_multi_device.Cache.{Redis}
use das_multi_device.Dao.{Db, statement, query}
use das_multi_device.Dao.CidInfos.{get_cid_info}
use das_multi_device.Dao.ParserTables.{
  get_cid_pk, get_masters, get_account_infos, get_account_info_by_account,
}
use das_multi_device.Service.{World, on_db, on_redis}

-- The rows that this service writes.
abbrev pub SameTables : Db → Db → Type 0
SameTables d₀ d = (d.pendings ≡ d₀.pendings) × (d.cid_infos ≡ d₀.cid_infos)

abbrev pub UnchangedUnless : {A : Type 0} → Bool → A → A → Type 0
UnchangedUnless true old new = Unit
UnchangedUnless false old new = new ≡ old

-- The tables are the same, and so is the list of sent transactions, unless `may_send`.
abbrev pub SameWorld : Bool → World → World → Type 0
SameWorld may_send w₀ w = SameTables w₀.db w.db × UnchangedUnless may_send w₀.sent w.sent

module _ {A : Type 0} (d₀ : Db) (f : Db → A) where
  pub query-SameTables : Keeps (SameTables d₀) (query f)
  unfolding query statement
  query-SameTables = record { at = λ d h. ground arith }

module _ (d₀ : Db) where
  pub get_cid_info-SameTables : (cid : String) → Keeps (SameTables d₀) (get_cid_info cid)
  unfolding get_cid_info
  get_cid_info-SameTables cid = query-SameTables d₀ _

  pub get_cid_pk-SameTables : (cid : String) → Keeps (SameTables d₀) (get_cid_pk cid)
  unfolding get_cid_pk
  get_cid_pk-SameTables cid = query-SameTables d₀ _

  pub get_masters-SameTables : (cid : String) → Keeps (SameTables d₀) (get_masters cid)
  unfolding get_masters
  get_masters-SameTables cid = query-SameTables d₀ _

  pub get_account_infos-SameTables : (p : String) → Keeps (SameTables d₀) (get_account_infos p)
  unfolding get_account_infos
  get_account_infos-SameTables p = query-SameTables d₀ _

  pub get_account_info_by_account-SameTables :
      (a : String) → Keeps (SameTables d₀) (get_account_info_by_account a)
  unfolding get_account_info_by_account
  get_account_info_by_account-SameTables a = query-SameTables d₀ _

module _ {A : Type 0} (may_send : Bool) (w₀ : World) where
  pub on_db-SameWorld :
      (m : Exec Db Error A) → Keeps (SameTables w₀.db) m → Keeps (SameWorld may_send w₀) (on_db m)
  unfolding on_db
  on_db-SameWorld m k = record { at = λ w h. (k.at w.db h.0, h.1) }

  pub on_redis-SameWorld : (m : Exec Redis Error A) → Keeps (SameWorld may_send w₀) (on_redis m)
  unfolding on_redis
  on_redis-SameWorld m = record { at = λ w h. h }

pub SameWorld-refl : (may_send : Bool) (w : World) → SameWorld may_send w w
SameWorld-refl true w = ((refl, refl), tt)
SameWorld-refl false w = ((refl, refl), refl)
