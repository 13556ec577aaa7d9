-- ===== src/Dao/Pendings/Effects.antt =====
-- dao/t_webauthn_pending_info.go: what its statements leave as it was.
use Prim.Native.String.{◌++◌ as string_append}
use das_multi_device.Prelude.{
  some, str_eq, ◌+◌, ◌++◌, ◌∷◌, [], find_first, none, ℕ, String, List, Option, ◌≡◌, arith,
}
use das_multi_device.Outcome.{ok}
use das_multi_device.Outcome.Rules.{Keeps}
use das_multi_device.Dao.{Db, PendingInfo, statement}
use das_multi_device.Dao.Pendings.{
  is_tx, create_pending, insert_row, or_not_found, get_tx_status, get_tx_status_by_outpoint,
}

-- The rows that this service writes, of two databases.
abbrev SameRows : Db → Db → Type 0
SameRows d₀ d = (d.pendings ≡ d₀.pendings) × (d.cid_infos ≡ d₀.cid_infos)

pub create_pending-cid_infos :
    (p : PendingInfo) (d : Db) → (create_pending p d).1.cid_infos ≡ d.cid_infos
unfolding create_pending statement insert_row
create_pending-cid_infos p d = ground arith

module _ (d₀ : Db) where
  found-SameTables :
      (f : Db → Option PendingInfo) → Keeps (SameRows d₀) (statement (λ db. or_not_found (f db) db))
  unfolding statement or_not_found
  found-SameTables f = record { at = λ d h. ground arith }

  pub get_tx_status-SameTables :
      (chain_type : ℕ) (address : String) (actions : List String)
      → Keeps (SameRows d₀) (get_tx_status chain_type address actions)
  unfolding get_tx_status
  get_tx_status-SameTables chain_type address actions = found-SameTables _

  pub get_tx_status_by_outpoint-SameTables :
      (tx_hash : String) → Keeps (SameRows d₀) (get_tx_status_by_outpoint tx_hash)
  unfolding get_tx_status_by_outpoint
  get_tx_status_by_outpoint-SameTables tx_hash = found-SameTables _

-- The database with one more pending row.
abbrev pub with_row : PendingInfo → Db → Db
with_row p db = record db {
  pendings = db.pendings ++ (record p { id = db.next_pending_id }) ∷ [];
  next_pending_id = db.next_pending_id + 1;
}

pub create_pending-with_row :
    (p : PendingInfo) (db : Db)
    → db.faults ≡ []
    → find_first (is_tx p.action p.outpoint) db.pendings ≡ none
    → (create_pending p db).1 ≡ with_row p db
unfolding create_pending statement insert_row
create_pending-with_row p db quiet new = ground (arith, quiet, new)

-- The row that a look-up by hash finds.
pub found_row :
    (tx_hash : String) (d e : Db) (r : PendingInfo)
    → get_tx_status_by_outpoint tx_hash d ≡ (ok r, e)
    → find_first (λ p. str_eq p.outpoint (string_append tx_hash "-0")) d.pendings ≡ some r
unfolding get_tx_status_by_outpoint statement or_not_found
found_row tx_hash d e r h = ground arith

pub row_found :
    (tx_hash : String) (d : Db) (r : PendingInfo)
    → d.faults ≡ []
    → find_first (λ p. str_eq p.outpoint (string_append tx_hash "-0")) d.pendings ≡ some r
    → get_tx_status_by_outpoint tx_hash d ≡ (ok r, d)
unfolding get_tx_status_by_outpoint statement or_not_found
row_found tx_hash d r quiet h = ground arith
