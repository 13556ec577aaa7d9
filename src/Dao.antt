-- ===== src/Dao.antt =====
-- dao/dao.go, tables/*.go: the rows of the tables and how a statement is run on them.
--
-- A table is the list of its rows in the order of their ids. `faults` is what the database server
-- does to the statements to come: `some e` fails a statement, which then changes nothing, `none`
-- lets it run, and with an empty list every statement runs. A query that finds no row returns a zero
-- struct in the code, which tests `Id == 0`; here it returns `none`.
pub mod BlockInfos
pub mod Pendings
pub mod CidInfos
pub mod ParserTables
pub mod DeviceNotes
use das_multi_device.Prelude.{ℕ, String, Option, none, some, List, [], ◌∷◌}
use das_multi_device.Outcome.{Error, ok, err, Exec}

-- TableBlockParserInfo
pub record BlockInfo : Type 0 where
  pub parser_type : ℕ
  pub block_number : ℕ
  pub block_hash : String
  pub parent_hash : String

-- ParserTypeDAS
abbrev pub parser_type_das : ℕ
parser_type_das = 99

-- StatusRejected, StatusPending, StatusConfirm: -1, 0 and 1 in the column `status`.
pub data Status : Type 0 where
  rejected pending confirm : Status

pub Status-discrete : Discrete Status
Status-discrete = hlevel

-- TableWebauthnPendingInfo
pub record PendingInfo : Type 0 where
  pub id : ℕ
  pub block_number : ℕ
  pub action : String
  pub chain_type : ℕ
  pub address : String
  pub capacity : ℕ
  pub outpoint : String
  pub block_timestamp : ℕ
  pub status : Status

-- TableAvatarNotes
pub record AvatarNotes : Type 0 where
  pub master_cid : String
  pub slave_cid : String
  pub avatar : ℕ
  pub notes : String
  pub block_number : ℕ
  pub block_timestamp : ℕ
  pub outpoint : String
  pub status : Status

-- TableCidInfo
pub record CidInfo : Type 0 where
  pub original_cid : String
  pub cid : String
  pub notes : String
  pub device : String

-- IsEnableAuthorize: EnableAuthorizeOff and EnableAuthorizeOn.
pub data EnableAuthorize : Type 0 where
  off on : EnableAuthorize

-- TableCidPk
pub record CidPk : Type 0 where
  pub cid : String
  pub pk : String
  pub origin_pk : String
  pub enable_authorize : EnableAuthorize
  pub outpoint : String

-- TableAuthorize, less the columns that no query reads.
pub record Authorize : Type 0 where
  pub master_cid : String
  pub master_pk : String
  pub slave_cid : String
  pub slave_pk : String
  pub outpoint : String

-- TableAccountInfo, less the columns that no query reads.
pub record AccountInfo : Type 0 where
  pub account : String
  pub owner_chain_type : ℕ
  pub owner : String
  pub manager : String

-- DbDao: the tables of `db`, then those of `parserDb`, which this service only reads.
pub record Db : Type 0 where
  pub block_infos : List BlockInfo
  pub pendings : List PendingInfo
  pub next_pending_id : ℕ
  pub avatar_notes : List AvatarNotes
  pub cid_infos : List CidInfo
  pub cid_pks : List CidPk
  pub authorizes : List Authorize
  pub accounts : List AccountInfo
  pub faults : List (Option Error)

module _ {A : Type 0} where
  faulted : List (Option Error) → Exec Db Error A → Exec Db Error A
  faulted [] m db = m db
  faulted (none ∷ fs) m db = m (record db { faults = fs })
  faulted (some e ∷ fs) m db = (err e, record db { faults = fs })

  -- One statement, which the server may refuse.
  unfoldable pub statement : Exec Db Error A → Exec Db Error A
  unfolding faulted
  statement m db = faulted db.faults m db

-- A statement that reads, and one that writes.
unfoldable pub query : {A : Type 0} → (Db → A) → Exec Db Error A
unfolding statement
query f = statement (λ db. (ok (f db), db))

unfoldable pub execute : (Db → Db) → Exec Db Error Unit
unfolding statement
execute f = statement (λ db. (ok tt, f db))
