-- ===== src/Timer/Rows.antt =====
-- What a run of checkRejected makes of the pending rows, whatever the node and the database answer.
use das_multi_device.Prelude.{ℕ, Option, none, some, List, [], ◌∷◌, ◌≡◌, refl}
use das_multi_device.Outcome.{Error, Result, ok, err}
use das_multi_device.Outcome.Rules.{Keeps, Keeps-bind, Keeps-if, keeps_rules}
use das_multi_device.Dao.{Db, PendingInfo, query}
use das_multi_device.Dao.Pendings.{search_maybe_rejected_pending}
use das_multi_device.Dao.Pendings.Evolves.{
  Evolves, EvolvesFrom, statement-Keeps, update_pending_to_confirm-EvolvesFrom,
  update_pending_to_rejected-EvolvesFrom,
}
use das_multi_device.Timer.{
  TxStatus, committed, proposed, in_pool, unknown, TxView, Env, confirm_found, confirm_committed,
  check_rows, reject_all, check_list, check_rejected,
}

module _ (rows : List PendingInfo) where
  confirm_found-EvolvesFrom :
      (id : ℕ) (block : Option (ℕ × ℕ)) (d : Db)
      → EvolvesFrom rows d
      → EvolvesFrom rows (confirm_found id block d)
  unfolding confirm_found
  confirm_found-EvolvesFrom id none d h = h
  confirm_found-EvolvesFrom id (some (number, timestamp)) d h =
      (update_pending_to_confirm-EvolvesFrom rows id number timestamp).at d h

  confirm_committed-EvolvesFrom :
      (id : ℕ) (status : TxStatus) (block : Option (ℕ × ℕ)) (d : Db)
      → EvolvesFrom rows d
      → EvolvesFrom rows (confirm_committed id (record { status = status; block = block }) d)
  unfolding confirm_committed
  confirm_committed-EvolvesFrom id committed block d h = confirm_found-EvolvesFrom id block d h
  confirm_committed-EvolvesFrom id proposed block d h = h
  confirm_committed-EvolvesFrom id in_pool block d h = h
  confirm_committed-EvolvesFrom id unknown block d h = h

  checked-EvolvesFrom :
      (env : Env) (n : ℕ) (row : PendingInfo) (rest : List PendingInfo) (r : Result Error TxView)
      (d : Db)
      → ((n' : ℕ) → Keeps (EvolvesFrom rows) (check_rows env n' rest))
      → env.get_transaction row.outpoint ≡ r
      → EvolvesFrom rows d
      → EvolvesFrom rows (check_rows env n (row ∷ rest) d).1
  unfolding check_rows
  checked-EvolvesFrom env n row rest (err e) d ih eq h = rw (eq, check_rows) h
  checked-EvolvesFrom env n row rest (ok view) d ih eq h =
      rw (eq, check_rows)
        ((ih _).at _ (confirm_committed-EvolvesFrom row.id view.status view.block d h))

  check_rows-EvolvesFrom :
      (env : Env) (n : ℕ) (list : List PendingInfo)
      → Keeps (EvolvesFrom rows) (check_rows env n list)
  unfolding check_rows
  check_rows-EvolvesFrom env n [] = record { at = λ d h. h }
  check_rows-EvolvesFrom env n (row ∷ rest) = record {
    at = λ d h.
        checked-EvolvesFrom env n row rest _ d (λ n'. check_rows-EvolvesFrom env n' rest) refl h;
  }

  reject_all-EvolvesFrom :
      (timestamp n total : ℕ) → Keeps (EvolvesFrom rows) (reject_all timestamp n total)
  unfolding reject_all
  reject_all-EvolvesFrom timestamp n total =
      search (keeps_rules, Keeps-if, update_pending_to_rejected-EvolvesFrom)

  check_list-EvolvesFrom :
      (env : Env) (list : List PendingInfo) → Keeps (EvolvesFrom rows) (check_list env list)
  unfolding check_list
  check_list-EvolvesFrom env [] = record { at = λ d h. h }
  check_list-EvolvesFrom env (row ∷ rest) = record {
    at =
        (Keeps-bind _ _ (check_rows-EvolvesFrom env 0 (row ∷ rest))
          (λ n. reject_all-EvolvesFrom _ n _)).at;
  }

  search_maybe_rejected_pending-EvolvesFrom :
      (timestamp : ℕ) → Keeps (EvolvesFrom rows) (search_maybe_rejected_pending timestamp)
  unfolding search_maybe_rejected_pending query
  search_maybe_rejected_pending-EvolvesFrom timestamp = statement-Keeps _ (Evolves rows) (λ d h. h)

  pub check_rejected-EvolvesFrom : (env : Env) → Keeps (EvolvesFrom rows) (check_rejected env)
  unfolding check_rejected
  check_rejected-EvolvesFrom env =
      search (keeps_rules, search_maybe_rejected_pending-EvolvesFrom, check_list-EvolvesFrom)
