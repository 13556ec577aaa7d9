-- ===== src/Dao/Pendings/Unique.antt =====
-- tables/t_webauthn_pending_info.go: the unique index on the action and the outpoint of a row.
use das_multi_device.Prelude.{
  String, Bool, true, false, none, List, [], ◌∷◌, ◌++◌, ◌≡◌, refl, ap₂, ◌∙◌, str_eq, ◌&&◌, arith,
  eq_iff, find_first, update_where, if◌then◌else◌,
}
use das_multi_device.Dao.{PendingInfo}
use das_multi_device.Dao.Pendings.{is_tx}

abbrev pub Absent : String → String → List PendingInfo → Type 0
Absent action outpoint rows = find_first (is_tx action outpoint) rows ≡ none

-- No two rows are of the same transaction.
unfoldable pub Unique : List PendingInfo → Type 0
Unique [] = Unit
Unique (r ∷ rows) = Absent r.action r.outpoint rows × Unique rows

module _ (action outpoint : String) (new : PendingInfo) where
  Absent-append :
      (rows : List PendingInfo)
      → is_tx action outpoint new ≡ false
      → Absent action outpoint rows
      → Absent action outpoint (rows ++ new ∷ [])
  unfolding find_first
  Absent-append [] n h = ground (arith, n)
  Absent-append (r ∷ rows) n h = ground (arith, n, h, Absent-append rows)

-- Two rows that are not of the same transaction, the other way round.
is_tx_sym :
    (r new : PendingInfo)
    → is_tx new.action new.outpoint r ≡ false
    → is_tx r.action r.outpoint new ≡ false
unfolding is_tx
is_tx_sym r new h = ground (
  arith,
  h,
  eq_iff r.action new.action,
  eq_iff r.outpoint new.outpoint,
  eq_iff new.action r.action,
  eq_iff new.outpoint r.outpoint,
)

Absent-head :
    (action outpoint : String) (r : PendingInfo) (rows : List PendingInfo)
    → Absent action outpoint (r ∷ rows)
    → (is_tx action outpoint r ≡ false) × Absent action outpoint rows
unfolding find_first
Absent-head action outpoint r rows h = ground (arith, h)

pub Unique-append :
    (rows : List PendingInfo) (new : PendingInfo)
    → Absent new.action new.outpoint rows
    → Unique rows
    → Unique (rows ++ new ∷ [])
unfolding Unique find_first
Unique-append [] new a u = (refl, tt)
Unique-append (r ∷ rows) new a u =
    let (other, rest) = Absent-head new.action new.outpoint r rows a in
    (
      Absent-append r.action r.outpoint new rows (is_tx_sym r new other) u.0,
      Unique-append rows new rest u.1,
    )

-- An update that leaves the action and the outpoint.
module _ (test : PendingInfo → Bool) (f : PendingInfo → PendingInfo)
    (same : (r : PendingInfo)
      → test r ≡ true
      → ((f r).action ≡ r.action) × ((f r).outpoint ≡ r.outpoint)) where
  same_tx :
      (action outpoint : String) (r : PendingInfo)
      → test r ≡ true
      → is_tx action outpoint (f r) ≡ is_tx action outpoint r
  unfolding is_tx
  same_tx action outpoint r h =
      ap₂ (λ a o. str_eq a action && str_eq o outpoint) (same r h).0 (same r h).1

  Absent-update_where :
      (action outpoint : String) (rows : List PendingInfo)
      → Absent action outpoint rows
      → Absent action outpoint (update_where test f rows)
  unfolding find_first update_where
  Absent-update_where action outpoint [] h = h
  Absent-update_where action outpoint (r ∷ rows) h =
      ground (arith, h, same_tx action outpoint r, Absent-update_where action outpoint rows)

  Absent-updated :
      (r : PendingInfo) (b : Bool) (rows : List PendingInfo)
      → test r ≡ b
      → Absent r.action r.outpoint rows
      → Absent (if b then f r else r).action (if b then f r else r).outpoint rows
  Absent-updated r true rows e h =
      ap₂ (λ a o. find_first (is_tx a o) rows) (same r e).0 (same r e).1 ∙ h
  Absent-updated r false rows e h = h

  pub Unique-update_where :
      (rows : List PendingInfo) → Unique rows → Unique (update_where test f rows)
  unfolding Unique update_where
  Unique-update_where [] u = tt
  Unique-update_where (r ∷ rows) u = (
    Absent-updated r (test r) (update_where test f rows) refl
        (Absent-update_where r.action r.outpoint rows u.0),
    Unique-update_where rows u.1,
  )
