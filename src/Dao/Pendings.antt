-- ===== src/Dao/Pendings.antt =====
-- dao/t_webauthn_pending_info.go and the confirming update of dao/t_avatar_notes.go.
pub mod Effects
pub mod Unique
pub mod Follows
pub mod Evolves
use Prim.Native.String.{◌++◌ as string_append}
use das_multi_device.Prelude.{
  ℕ, ◌+◌, String, Bool, true, false, ◌&&◌, ◌||◌, Option, none, some, List, [], ◌∷◌, ◌++◌, ltb, ◌==◌,
  str_eq, if◌then◌else◌, take, select, find_first, update_where,
}
use das_multi_device.Outcome.{Error, plain, duplicate_entry, ok, err, Exec}
use das_multi_device.Dao.{
  PendingInfo, Status, rejected, pending, confirm, Db, statement, query, execute,
}

abbrev is_pending : Status → Bool
is_pending pending = true
is_pending _ = false

-- block_number=0 AND status=0 AND block_timestamp<?
unfoldable pub maybe_rejected : ℕ → PendingInfo → Bool
maybe_rejected timestamp p =
    p.block_number == 0 && (is_pending p.status && ltb p.block_timestamp timestamp)

-- action=? AND outpoint=?
unfoldable pub is_tx : String → String → PendingInfo → Bool
is_tx action outpoint p = str_eq p.action action && str_eq p.outpoint outpoint

abbrev pub confirmed : ℕ → ℕ → PendingInfo → PendingInfo
confirmed block_number block_timestamp p = record p {
  block_number = block_number;
  block_timestamp = block_timestamp;
  status = confirm;
}

insert_row : PendingInfo → Option PendingInfo → Exec Db Error Unit
insert_row p (some _) db = (err duplicate_entry, db)
insert_row p none db = (
  ok tt,
  record db {
    pendings = db.pendings ++ (record p { id = db.next_pending_id }) ∷ [];
    next_pending_id = db.next_pending_id + 1;
  },
)

-- The unique index on (action, outpoint) refuses a second row; the id is the next one.
unfoldable pub create_pending : PendingInfo → Exec Db Error Unit
unfolding statement insert_row find_first is_tx
create_pending p =
    statement (λ db. insert_row p (find_first (is_tx p.action p.outpoint) db.pendings) db)

unfoldable pub get_pending_list : ℕ → Exec Db Error (List PendingInfo)
unfolding query select
get_pending_list limit =
    query (λ db. take limit (select (λ p. p.block_number == 0 && is_pending p.status) db.pendings))

unfoldable pub update_pending_to_confirm : ℕ → ℕ → ℕ → Exec Db Error Unit
unfolding execute update_where
update_pending_to_confirm id block_number block_timestamp = execute (λ db. record db {
  pendings = update_where (λ p. p.id == id) (confirmed block_number block_timestamp) db.pendings;
})

unfoldable pub update_pending_to_rejected : ℕ → Exec Db Error Unit
unfolding execute update_where maybe_rejected
update_pending_to_rejected timestamp = execute (λ db. record db {
  pendings =
      update_where (maybe_rejected timestamp) (λ p. record p { status = rejected }) db.pendings;
})

-- First() reports a missing row as an error.
abbrev pub record_not_found : Error
record_not_found = plain "record not found"

or_not_found : Option PendingInfo → Exec Db Error PendingInfo
or_not_found none db = (err record_not_found, db)
or_not_found (some p) db = (ok p, db)

unfoldable pub in_actions : String → List String → Bool
in_actions a [] = false
in_actions a (x ∷ xs) = str_eq a x || in_actions a xs

abbrev newer : PendingInfo → Option PendingInfo → PendingInfo
newer p none = p
newer p (some q) = if ltb p.id q.id then q else p

-- ORDER BY id DESC LIMIT 1
unfoldable pub last_by_id : (PendingInfo → Bool) → List PendingInfo → Option PendingInfo
last_by_id test [] = none
last_by_id test (p ∷ ps) =
    let rest = last_by_id test ps in if test p then some (newer p rest) else rest

unfoldable pub get_tx_status : ℕ → String → List String → Exec Db Error PendingInfo
unfolding statement or_not_found last_by_id in_actions
get_tx_status chain_type address actions = statement (λ db.
    or_not_found
      (last_by_id
        (λ p.
          p.chain_type == chain_type && (str_eq p.address address && in_actions p.action actions))
        db.pendings)
      db)

unfoldable pub get_tx_status_by_outpoint : String → Exec Db Error PendingInfo
unfolding statement or_not_found find_first
get_tx_status_by_outpoint tx_hash = statement (λ db.
    or_not_found (find_first (λ p. str_eq p.outpoint (string_append tx_hash "-0")) db.pendings) db)

-- At most 100 rows come back.
unfoldable pub search_maybe_rejected_pending : ℕ → Exec Db Error (List PendingInfo)
unfolding query select maybe_rejected
search_maybe_rejected_pending timestamp =
    query (λ db. take 100 (select (maybe_rejected timestamp) db.pendings))

unfoldable pub update_pending_status_to_confirm : String → String → ℕ → ℕ → Exec Db Error Unit
unfolding execute update_where is_tx
update_pending_status_to_confirm action outpoint block_number block_timestamp = execute (λ db.
    record db {
      pendings =
          update_where (is_tx action outpoint) (confirmed block_number block_timestamp) db.pendings;
    })

unfoldable pub update_avatar_notes_to_confirm : String → ℕ → ℕ → Exec Db Error Unit
unfolding execute update_where
update_avatar_notes_to_confirm outpoint block_number block_timestamp = execute (λ db. record db {
  avatar_notes =
      update_where (λ a. str_eq a.outpoint outpoint)
        (λ a. record a {
          block_number = block_number;
          block_timestamp = block_timestamp;
          status = confirm;
        })
        db.avatar_notes;
})
