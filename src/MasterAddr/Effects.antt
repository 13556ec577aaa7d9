-- ===== src/MasterAddr/Effects.antt =====
-- http_server/handle/master_addr.go: these handlers only read.
use das_multi_device.Prelude.{String, refl}
use das_multi_device.Outcome.Rules.{Keeps, keeps_rules}
use das_multi_device.Api.{handled}
use das_multi_device.Dao.{Db}
use das_multi_device.OldCid.{Codec}
use das_multi_device.Service.Tables.{SameTables, get_cid_pk-SameTables, get_masters-SameTables}
use das_multi_device.MasterAddr.{
  Cids, masters_body, do_get_masters, original_pk_body, do_get_original_pk,
}

module _ (codec : Codec) (cids : Cids) (cid : String) where
  masters-SameTables : (d₀ : Db) → Keeps (SameTables d₀) (masters_body codec cids cid)
  unfolding masters_body
  masters-SameTables d₀ = search (keeps_rules, get_masters-SameTables)

  pub do_get_masters-SameTables : (d : Db) → SameTables d (do_get_masters codec cids cid d).1
  unfolding do_get_masters handled
  do_get_masters-SameTables d = (masters-SameTables d).at d (refl, refl)

module _ (cids : Cids) (cid : String) where
  original_pk-SameTables : (d₀ : Db) → Keeps (SameTables d₀) (original_pk_body cids cid)
  unfolding original_pk_body
  original_pk-SameTables d₀ = search (keeps_rules, get_cid_pk-SameTables)

  pub do_get_original_pk-SameTables : (d : Db) → SameTables d (do_get_original_pk cids cid d).1
  unfolding do_get_original_pk handled
  do_get_original_pk-SameTables d = (original_pk-SameTables d).at d (refl, refl)
