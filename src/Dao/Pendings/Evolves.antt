-- ===== src/Dao/Pendings/Evolves.antt =====
-- dao/t_webauthn_pending_info.go: what its statements make of rows over time.
use das_multi_device.Prelude.{
  ℕ, String, Bool, true, List, [], ◌∷◌, ◌++◌, ◌≡◌, refl, update_where, Option, none, some,
  find_first,
}
use das_multi_device.Outcome.{Error, Exec}
use das_multi_device.Outcome.Rules.{Keeps}
use das_multi_device.Dao.{Db, PendingInfo, faulted, statement, execute}
use das_multi_device.Dao.Pendings.Unique.{Unique, Absent, Unique-append, Unique-update_where}
use das_multi_device.Dao.Pendings.{
  is_tx, insert_row, create_pending, update_pending_to_confirm, update_pending_to_rejected,
  update_pending_status_to_confirm,
}
use das_multi_device.Dao.Pendings.Follows.{
  Later, Follows, Follows-refl, Follows-trans, Follows-append, Follows-update_where,
  find_first-Follows, confirmed-Later, rejected-Later,
}

-- The rows follow those of before, and the index on action and outpoint is kept.
pub record Evolves (rows rows' : List PendingInfo) : Type 0 where
  pub follows : Follows rows rows'
  pub unique : Unique rows → Unique rows'

pub Evolves-refl : (rows : List PendingInfo) → Evolves rows rows
Evolves-refl rows = record { follows = Follows-refl rows; unique = λ u. u }

pub Evolves-trans :
    (rows rows' rows'' : List PendingInfo)
    → Evolves rows rows'
    → Evolves rows' rows''
    → Evolves rows rows''
Evolves-trans rows rows' rows'' h k = record {
  follows = Follows-trans rows rows' rows'' h.follows k.follows;
  unique = λ u. k.unique (h.unique u);
}

Evolves-update_where :
    (test : PendingInfo → Bool) (f : PendingInfo → PendingInfo)
    (later : (r : PendingInfo) → test r ≡ true → Later r (f r)) (rows : List PendingInfo)
    → Evolves rows (update_where test f rows)
Evolves-update_where test f later rows = record {
  follows = Follows-update_where test f later rows;
  unique =
      Unique-update_where test f (λ r e. ((later r e).same_action, (later r e).same_outpoint)) rows;
}

Evolves-append :
    (rows : List PendingInfo) (new : PendingInfo)
    → Absent new.action new.outpoint rows
    → Evolves rows (rows ++ new ∷ [])
Evolves-append rows new a = record {
  follows = Follows-append rows (new ∷ []);
  unique = Unique-append rows new a;
}

abbrev pub EvolvesFrom : List PendingInfo → Db → Type 0
EvolvesFrom rows d = Evolves rows d.pendings

-- What a statement keeps true of the rows when the server takes it.
module _ {A : Type 0} (m : Exec Db Error A) (P : List PendingInfo → Type 0)
    (taken : (d : Db) → P d.pendings → P (m d).1.pendings) where
  faulted_keeps : (fs : List (Option Error)) (d : Db) → P d.pendings → P (faulted fs m d).1.pendings
  unfolding faulted
  faulted_keeps [] d h = taken d h
  faulted_keeps (none ∷ fs) d h = taken _ h
  faulted_keeps (some e ∷ fs) d h = h

  pub statement-Keeps : Keeps (λ d. P d.pendings) (statement m)
  unfolding statement
  statement-Keeps = record { at = λ d. faulted_keeps d.faults d }

module _ (rows : List PendingInfo) where
  -- A statement that only updates rows.
  updates-EvolvesFrom :
      (test : PendingInfo → Bool) (f : PendingInfo → PendingInfo)
      → ((r : PendingInfo) → test r ≡ true → Later r (f r))
      → Keeps
          (EvolvesFrom rows)
          (execute (λ db. record db { pendings = update_where test f db.pendings }))
  unfolding execute
  updates-EvolvesFrom test f later =
      statement-Keeps _ (Evolves rows)
        (λ d h. Evolves-trans rows d.pendings _ h (Evolves-update_where test f later d.pendings))

  pub update_pending_to_confirm-EvolvesFrom :
      (id number timestamp : ℕ)
      → Keeps (EvolvesFrom rows) (update_pending_to_confirm id number timestamp)
  unfolding update_pending_to_confirm
  update_pending_to_confirm-EvolvesFrom id number timestamp =
      updates-EvolvesFrom _ _ (λ r _. confirmed-Later number timestamp r)

  pub update_pending_to_rejected-EvolvesFrom :
      (timestamp : ℕ) → Keeps (EvolvesFrom rows) (update_pending_to_rejected timestamp)
  unfolding update_pending_to_rejected
  update_pending_to_rejected-EvolvesFrom timestamp =
      updates-EvolvesFrom _ _ (rejected-Later timestamp)

  pub update_pending_status_to_confirm-EvolvesFrom :
      (action outpoint : String) (number timestamp : ℕ)
      → Keeps (EvolvesFrom rows) (update_pending_status_to_confirm action outpoint number timestamp)
  unfolding update_pending_status_to_confirm
  update_pending_status_to_confirm-EvolvesFrom action outpoint number timestamp =
      updates-EvolvesFrom _ _ (λ r _. confirmed-Later number timestamp r)

  inserted-EvolvesFrom :
      (row : PendingInfo) (o : Option PendingInfo) (d : Db)
      → find_first (is_tx row.action row.outpoint) d.pendings ≡ o
      → EvolvesFrom rows d
      → EvolvesFrom rows (insert_row row o d).1
  unfolding insert_row
  inserted-EvolvesFrom row none d new h =
      Evolves-trans rows d.pendings _ h
        (Evolves-append d.pendings (record row { id = d.next_pending_id }) new)
  inserted-EvolvesFrom row (some r) d new h = h

  pub create_pending-EvolvesFrom :
      (row : PendingInfo) → Keeps (EvolvesFrom rows) (create_pending row)
  unfolding create_pending
  create_pending-EvolvesFrom row =
      statement-Keeps _ (Evolves rows) (λ d. inserted-EvolvesFrom row _ d refl)

-- The first row with an outpoint is the same one, later.
module _ (test : PendingInfo → Bool)
    (stays : (r r' : PendingInfo) → Later r r' → test r' ≡ test r) where
  pub find_first-Evolves :
      (rows rows' : List PendingInfo) (found : PendingInfo)
      → Evolves rows rows'
      → find_first test rows ≡ some found
      → (found' : PendingInfo) × (find_first test rows' ≡ some found') × Later found found'
  find_first-Evolves rows rows' found h = find_first-Follows test stays rows rows' found h.follows
