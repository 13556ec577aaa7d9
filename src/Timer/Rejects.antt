-- ===== src/Timer/Rejects.antt =====
-- timer/rejected.go: checkRejected against a description row by row.
use das_multi_device.Prelude.{
  ℕ, zero, suc, ◌+◌, ◌≤◌, ◌<◌, String, Bool, true, false, ◌&&◌, Option, List, [], ◌∷◌, map, ltb,
  ◌==◌, ◌≡◌, refl, ap, ap₂, ◌∙◌, inl, inr, Bool-cases, length, take, select, update_where, All,
  if◌then◌else◌, arith,
}
use das_multi_device.Outcome.{Error, Result, ok, pure, on_err, ◌>>=◌}
use das_multi_device.Dao.{PendingInfo, Db, statement, execute, query}
use das_multi_device.Dao.Pendings.{
  maybe_rejected, search_maybe_rejected_pending, update_pending_to_rejected,
}
use das_multi_device.Timer.{
  TxStatus, TxView, Env, deadline, is_gone, reject_all, check_list, check_rejected,
  is_latest_block_number,
}
use das_multi_device.Timer.Settles.{
  settle_view, reject_row, settle_by, count_gone, rows_settled, map-settle_nil, update_where-map,
}

-- The ids are those of different rows.
abbrev pub DistinctIds : List PendingInfo → Type 0
DistinctIds [] = Unit
DistinctIds (p ∷ ps) = All (λ q. (q.id == p.id) ≡ false) ps × DistinctIds ps

abbrev pub waiting_rows : Env → Db → List PendingInfo
waiting_rows env db = select (maybe_rejected (deadline env.now)) db.pendings

abbrev pub reject_if : ℕ → PendingInfo → PendingInfo
reject_if ts p = if maybe_rejected ts p then reject_row p else p

settle_view-id :
    (status : TxStatus) (block : Option (ℕ × ℕ)) (p : PendingInfo)
    → (settle_view status block p).id ≡ p.id
settle_view-id status block p = ground arith

take_all {ℓ} : {A : Type ℓ} (n : ℕ) (xs : List A) → length xs ≤ n → take n xs ≡ xs
take_all zero [] h = refl
take_all zero (x ∷ xs) h = absurd (omega arith)
take_all (suc n) [] h = refl
take_all (suc n) (x ∷ xs) h = ap (λ l. x ∷ l) (take_all n xs (omega arith))

module _ (view : String → TxView) where
  unfoldable pub every_gone : List PendingInfo → Bool
  every_gone [] = true
  every_gone (r ∷ rs) = is_gone (view r.outpoint).status && every_gone rs

  -- A row that waits is confirmed if its own transaction is committed.
  abbrev pub settle_own : ℕ → PendingInfo → PendingInfo
  settle_own timestamp p =
      if maybe_rejected timestamp p
      then settle_view (view p.outpoint).status (view p.outpoint).block p
      else p

  count_gone-le : (rs : List PendingInfo) → count_gone view rs ≤ length rs
  unfolding count_gone
  count_gone-le [] = omega arith
  count_gone-le (r ∷ rs) = ground (arith, count_gone-le rs)

  every_gone-count : (rs : List PendingInfo) → every_gone rs ≡ (count_gone view rs == length rs)
  unfolding count_gone every_gone
  every_gone-count [] = refl
  every_gone-count (r ∷ rs) = ground (arith, count_gone-le rs, every_gone-count rs)

  settle_by-gone :
      (rs : List PendingInfo) (p : PendingInfo) → every_gone rs ≡ true → settle_by view rs p ≡ p
  unfolding settle_by every_gone
  settle_by-gone [] p h = refl
  settle_by-gone (r ∷ rs) p h = ground (arith, settle_by-gone rs p)

  map-settle_gone :
      (rs ps : List PendingInfo) → every_gone rs ≡ true → map (settle_by view rs) ps ≡ ps
  map-settle_gone rs [] h = refl
  map-settle_gone rs (p ∷ ps) h = ground (arith, settle_by-gone rs p h, map-settle_gone rs ps h)

  settle_by-other :
      (rs : List PendingInfo) (p : PendingInfo)
      → All (λ r. (r.id == p.id) ≡ false) rs
      → settle_by view rs p ≡ p
  unfolding settle_by
  settle_by-other [] p h = refl
  settle_by-other (r ∷ rs) p h = ground (arith, settle_by-other rs p h.1)

  All-select :
      (test : PendingInfo → Bool) (p : PendingInfo) (ps : List PendingInfo)
      → All (λ q. (q.id == p.id) ≡ false) ps
      → All (λ q. (q.id == p.id) ≡ false) (select test ps)
  unfolding select
  All-select test p [] h = tt
  All-select test p (q ∷ ps) h = elim (Bool-cases (test q)) [
    | inl e ↦ rw e (h.0, All-select test p ps h.1)
    | inr e ↦ rw e (All-select test p ps h.1)
  ]

  map-skip :
      (p : PendingInfo) (rs ps : List PendingInfo)
      → All (λ q. (q.id == p.id) ≡ false) ps
      → map (settle_by view (p ∷ rs)) ps ≡ map (settle_by view rs) ps
  unfolding settle_by
  map-skip p rs [] h = refl
  map-skip p rs (q ∷ ps) (h, hs) = ground (arith, h, map-skip p rs ps hs)

  settle_by_self :
      (p : PendingInfo) (rs : List PendingInfo)
      → All (λ r. (r.id == p.id) ≡ false) rs
      → settle_by view (p ∷ rs) p ≡ settle_view (view p.outpoint).status (view p.outpoint).block p
  unfolding settle_by
  settle_by_self p rs h =
      let v = view p.outpoint in
      let p' = settle_view v.status v.block p in
      let same : p'.id ≡ p.id = settle_view-id v.status v.block p in
      let others : All (λ r. (r.id == p'.id) ≡ false) rs = rw same h in
      ground (arith, settle_by-other rs p' others)

  select-yes :
      (test : PendingInfo → Bool) (p : PendingInfo) (ps : List PendingInfo)
      → test p ≡ true
      → select test (p ∷ ps) ≡ p ∷ select test ps
  unfolding select
  select-yes test p ps h = rw h

  select-no :
      (test : PendingInfo → Bool) (p : PendingInfo) (ps : List PendingInfo)
      → test p ≡ false
      → select test (p ∷ ps) ≡ select test ps
  unfolding select
  select-no test p ps h = rw h

  settled_rows :
      (ts : ℕ) (ps : List PendingInfo)
      → DistinctIds ps
      → map (settle_by view (select (maybe_rejected ts) ps)) ps ≡ map (settle_own ts) ps
  settled_rows ts [] h = refl
  settled_rows ts (p ∷ ps) (h, hs) =
      let rest = select (maybe_rejected ts) ps in
      let others = All-select (maybe_rejected ts) p ps h in
      let ih = settled_rows ts ps hs in
      elim (Bool-cases (maybe_rejected ts p)) [
        | inl e ↦
            ap (λ rows. map (settle_by view rows) (p ∷ ps)) (select-yes (maybe_rejected ts) p ps e)
            ∙ ap₂ ◌∷◌ (settle_by_self p rest others ∙ (rw e)) (map-skip p rest ps h ∙ ih)
        | inr e ↦
            ap (λ rows. map (settle_by view rows) (p ∷ ps)) (select-no (maybe_rejected ts) p ps e)
            ∙ ap₂ ◌∷◌ (settle_by-other rest p others ∙ (rw e)) ih
      ]

  count_gone-nil : count_gone view [] ≡ 0
  unfolding count_gone
  count_gone-nil = refl

  none_waits :
      (ts : ℕ) (ps : List PendingInfo)
      → length (select (maybe_rejected ts) ps) ≡ 0
      → map (reject_if ts) ps ≡ ps
  unfolding select
  none_waits ts [] h = refl
  none_waits ts (p ∷ ps) h = ground (arith, none_waits ts ps)

  -- The test on the numbers of rows, for the rows that wait, is the test whether all are gone.
  chosen :
      (ts : ℕ) (ps : List PendingInfo)
      → DistinctIds ps
      → (if ltb 0 (count_gone view (select (maybe_rejected ts) ps))
            && count_gone view (select (maybe_rejected ts) ps)
              == length (select (maybe_rejected ts) ps)
          then update_where
              (maybe_rejected ts)
              reject_row
              (map (settle_by view (select (maybe_rejected ts) ps)) ps)
          else map (settle_by view (select (maybe_rejected ts) ps)) ps)
        ≡ (if every_gone (select (maybe_rejected ts) ps)
            then map (reject_if ts) ps
            else map (settle_own ts) ps)
  chosen ts ps distinct =
      let rows = select (maybe_rejected ts) ps in
      ground (
        arith,
        every_gone-count rows,
        map-settle_gone rows ps,
        none_waits ts ps,
        settled_rows ts ps distinct,
        update_where-map (maybe_rejected ts) reject_row ps,
      )

  module _ (env : Env) (known : (o : String) → env.get_transaction o ≡ ok (view o)) where
    reject_all-pendings :
        (ts n total : ℕ) (db : Db)
        → db.faults ≡ []
        → (reject_all ts n total db).1.pendings ≡ (
            if ltb 0 n && n == total
            then update_where (maybe_rejected ts) reject_row db.pendings
            else db.pendings)
    unfolding reject_all update_pending_to_rejected execute statement on_err pure
    reject_all-pendings ts n total db h = elim (Bool-cases (ltb 0 n && n == total)) [
      | inl e ↦ rw e (ground arith)
      | inr e ↦ rw e (refl)
    ]

    -- The rows that are looked up.
    abbrev pub looked_up : Db → List PendingInfo
    looked_up db = take 100 (waiting_rows env db)

    check_list-pendings :
        (rows : List PendingInfo) (db : Db)
        → db.faults ≡ []
        → (check_list env rows db).1.pendings ≡ (
            if ltb 0 (count_gone view rows) && count_gone view rows == length rows
            then update_where
                (maybe_rejected (deadline env.now))
                reject_row
                (map (settle_by view rows) db.pendings)
            else map (settle_by view rows) db.pendings)
    unfolding check_list ◌>>=◌
    check_list-pendings [] db h = ground (arith, count_gone-nil, map-settle_nil view db.pendings)
    check_list-pendings (r ∷ rows) db h =
        let z : 0 + count_gone view (r ∷ rows) ≡ count_gone view (r ∷ rows) = omega arith in
        rw (rows_settled view env known (r ∷ rows) 0 db h, z)
          (reject_all-pendings (deadline env.now) (count_gone view (r ∷ rows)) (length (r ∷ rows))
            (record db { pendings = map (settle_by view (r ∷ rows)) db.pendings }) h)

    check_rejected-check_list :
        (db : Db)
        → db.faults ≡ []
        → is_latest_block_number env.post env.parser_url ≡ true
        → check_rejected env db ≡ check_list env (looked_up db) db
    unfolding check_rejected search_maybe_rejected_pending query statement ◌>>=◌
    check_rejected-check_list db h latest = rw latest (ground (arith, h))

    -- When the service is up to date, no statement fails, the node answers every look-up, and at
    -- most 100 rows wait, checkRejected rejects all the waiting rows if the node knows none of
    -- their transactions; else it confirms those whose own transaction is committed in a block
    -- that the node knows. No other row changes.
    pub check_rejected-settle_own :
        (db : Db)
        → db.faults ≡ []
        → is_latest_block_number env.post env.parser_url ≡ true
        → length (waiting_rows env db) ≤ 100
        → DistinctIds db.pendings
        → (check_rejected env db).1.pendings ≡ (
            if every_gone (waiting_rows env db)
            then map (reject_if (deadline env.now)) db.pendings
            else map (settle_own (deadline env.now)) db.pendings)
    check_rejected-settle_own db h latest few distinct =
        let rows = waiting_rows env db in
        let all_rows : looked_up db ≡ rows = take_all 100 rows few in
        ap (λ (o : Result Error Unit × Db). o.1.pendings) (check_rejected-check_list db h latest)
        ∙ ap (λ l. (check_list env l db).1.pendings) all_rows
        ∙ check_list-pendings rows db h
        ∙ chosen (deadline env.now) db.pendings distinct

    -- When the service is up to date, no statement fails, the node answers every look-up, and it
    -- knows none of the transactions of the first 100 waiting rows, of which there is one at least,
    -- checkRejected rejects every waiting row, also those from the 101st on, whose transactions it
    -- did not look up.
    pub check_rejected-unseen :
        (db : Db)
        → db.faults ≡ []
        → is_latest_block_number env.post env.parser_url ≡ true
        → 0 < length (looked_up db)
        → every_gone (looked_up db) ≡ true
        → (check_rejected env db).1.pendings ≡ map (reject_if (deadline env.now)) db.pendings
    check_rejected-unseen db h latest some_row gone =
        let rows = looked_up db in
        let n : count_gone view rows ≡ length rows = ground (arith, every_gone-count rows) in
        ap (λ (o : Result Error Unit × Db). o.1.pendings) (check_rejected-check_list db h latest)
        ∙ check_list-pendings rows db h
        ∙ ground (
          arith,
          n,
          map-settle_gone rows db.pendings gone,
          update_where-map (maybe_rejected (deadline env.now)) reject_row db.pendings,
        )
