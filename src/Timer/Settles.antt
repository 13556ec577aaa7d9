-- ===== src/Timer/Settles.antt =====
-- timer/rejected.go: what a run of checkRejected makes of the pending rows.
use das_multi_device.Prelude.{
  ℕ, ◌+◌, String, Bool, Option, none, some, List, [], ◌∷◌, map, ◌==◌, ◌≡◌, refl, ap, update_where,
  if◌then◌else◌, arith,
}
use das_multi_device.Outcome.{Error, Result, ok}
use das_multi_device.Dao.{PendingInfo, Db, rejected, statement, execute}
use das_multi_device.Dao.Pendings.{confirmed, update_pending_to_confirm}
use das_multi_device.Timer.{
  TxStatus, committed, proposed, in_pool, unknown, TxView, Env, is_gone, confirm_found,
  confirm_committed, check_rows,
}

-- A row whose transaction is committed in a block that the node knows is confirmed.
abbrev pub settle_view : TxStatus → Option (ℕ × ℕ) → PendingInfo → PendingInfo
settle_view committed (some (number, timestamp)) p = confirmed number timestamp p
settle_view committed none p = p
settle_view proposed block p = p
settle_view in_pool block p = p
settle_view unknown block p = p

abbrev pub settle_if : PendingInfo → TxView → PendingInfo → PendingInfo
settle_if r view p = if p.id == r.id then settle_view view.status view.block p else p

abbrev pub reject_row : PendingInfo → PendingInfo
reject_row p = record p { status = rejected }

pub update_where-map :
    (test : PendingInfo → Bool) (f : PendingInfo → PendingInfo) (ps : List PendingInfo)
    → update_where test f ps ≡ map (λ p. if test p then f p else p) ps
unfolding update_where
update_where-map test f [] = refl
update_where-map test f (p ∷ ps) =
    ap (λ l. (if test p then f p else p) ∷ l) (update_where-map test f ps)

same_rows : (id : ℕ) (ps : List PendingInfo) → ps ≡ map (λ p. if p.id == id then p else p) ps
same_rows id [] = refl
same_rows id (p ∷ ps) = let ih = same_rows id ps in ground (arith, ih)

confirm_view :
    (id : ℕ) (status : TxStatus) (block : Option (ℕ × ℕ)) (db : Db)
    → db.faults ≡ []
    → confirm_committed id (record { status = status; block = block }) db ≡ record db {
      pendings = map (λ p. if p.id == id then settle_view status block p else p) db.pendings;
    }
unfolding confirm_committed confirm_found update_pending_to_confirm execute statement
confirm_view id committed (some (number, timestamp)) db h =
    ground (arith, update_where-map (λ p. p.id == id) (confirmed number timestamp) db.pendings)
confirm_view id committed none db h =
    ap (λ l. record db { pendings = l }) (same_rows id db.pendings)
confirm_view id proposed block db h =
    ap (λ l. record db { pendings = l }) (same_rows id db.pendings)
confirm_view id in_pool block db h = ap (λ l. record db { pendings = l }) (same_rows id db.pendings)
confirm_view id unknown block db h = ap (λ l. record db { pendings = l }) (same_rows id db.pendings)

module _ (view : String → TxView) where
  -- What the loop over some rows does to one row, which it finds by its id.
  unfoldable pub settle_by : List PendingInfo → PendingInfo → PendingInfo
  settle_by [] p = p
  settle_by (r ∷ rs) p = settle_by rs (settle_if r (view r.outpoint) p)

  unfoldable pub count_gone : List PendingInfo → ℕ
  count_gone [] = 0
  count_gone (r ∷ rs) = (if is_gone (view r.outpoint).status then 1 else 0) + count_gone rs

  map-settle_by :
      (r : PendingInfo) (rs ps : List PendingInfo)
      → map (settle_by rs) (map (settle_if r (view r.outpoint)) ps) ≡ map (settle_by (r ∷ rs)) ps
  unfolding settle_by
  map-settle_by r rs [] = refl
  map-settle_by r rs (p ∷ ps) =
      ap (λ l. settle_by rs (settle_if r (view r.outpoint) p) ∷ l) (map-settle_by r rs ps)

  pub map-settle_nil : (ps : List PendingInfo) → map (settle_by []) ps ≡ ps
  unfolding settle_by
  map-settle_nil [] = refl
  map-settle_nil (p ∷ ps) = ap (λ l. p ∷ l) (map-settle_nil ps)

  module _ (env : Env) (known : (o : String) → env.get_transaction o ≡ ok (view o)) where
    pub rows_settled :
        (rows : List PendingInfo) (n : ℕ) (db : Db)
        → db.faults ≡ []
        → ◌≡◌ {A = Result Error ℕ × Db}
            (check_rows env n rows db)
            (ok (n + count_gone rows), record db { pendings = map (settle_by rows) db.pendings })
    unfolding check_rows count_gone
    rows_settled [] n db h = ground (arith, map-settle_nil db.pendings)
    rows_settled (r ∷ rows) n db h =
        let v = view r.outpoint in
        let next : Db = record db { pendings = map (settle_if r v) db.pendings } in
        let ih = rows_settled rows (if is_gone v.status then n + 1 else n) next h in
        ground (
          arith,
          known r.outpoint,
          confirm_view r.id v.status v.block db h,
          ih,
          map-settle_by r rows db.pendings,
        )
