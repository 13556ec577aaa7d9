-- ===== src/History.antt =====
-- The database of the service over time, as the http servers, the block parser and the timer work on it.
--
-- A step is a request, a round of the parser's loop or a run of checkRejected, each with any answers of the
-- node and the libraries, on any state around the same database. Where these overlap, one of them goes on
-- between two statements of another, so that a single statement on the pending rows is a step too, whatever
-- its arguments.
pub mod Examples
use Prim.Native.String.{◌++◌ as string_append}
use das_multi_device.Prelude.{
  String, ap, str_eq, find_first, ℕ, ◌≤◌, Bool, true, false, List, [], ◌∷◌, ◌≡◌, refl, Option, none,
  some, arith, length, subst, sym,
}
use das_multi_device.Outcome.{Error, Exec, ok}
use das_multi_device.Outcome.Rules.{Keeps}
use das_multi_device.Dao.{Db, PendingInfo}
use das_multi_device.Dao.Pendings.{
  create_pending, update_pending_to_confirm, update_pending_to_rejected,
  update_pending_status_to_confirm, get_tx_status_by_outpoint,
}
use das_multi_device.Dao.Pendings.Effects.{found_row, row_found}
use das_multi_device.Dao.Pendings.Follows.{Later}
use das_multi_device.Dao.Pendings.Evolves.{
  create_pending-EvolvesFrom, update_pending_to_confirm-EvolvesFrom,
  update_pending_to_rejected-EvolvesFrom, update_pending_status_to_confirm-EvolvesFrom,
  find_first-Evolves, Evolves, EvolvesFrom, Evolves-refl, Evolves-trans,
}
use das_multi_device.BlockParser
use das_multi_device.BlockParser.{Parser, run_round}
use das_multi_device.BlockParser.Rows.{run_round-EvolvesFrom}
use das_multi_device.Timer
use das_multi_device.Timer.{check_rejected}
use das_multi_device.Timer.Rows.{check_rejected-EvolvesFrom}
use das_multi_device.Router.{Request, Site, serve_request}
use das_multi_device.Router.Rows.{serve_request-Evolves}

abbrev pub db_of : Site → Db
db_of s = s.server.world.db

-- The statements that write the table of pending rows, with the functions of dao that run them.
pub data Statement : Type 0 where
  creates : PendingInfo → Statement
  confirms : ℕ → ℕ → ℕ → Statement
  rejects : ℕ → Statement
  settles : String → String → ℕ → ℕ → Statement

unfoldable pub run_statement : Statement → Exec Db Error Unit
unfolding create_pending update_pending_to_confirm update_pending_to_rejected
    update_pending_status_to_confirm
run_statement (creates row) = create_pending row
run_statement (confirms id number timestamp) = update_pending_to_confirm id number timestamp
run_statement (rejects timestamp) = update_pending_to_rejected timestamp
run_statement (settles action outpoint number timestamp) =
    update_pending_status_to_confirm action outpoint number timestamp

pub data Step : Db → Db → Type 0 where
  request : (q : Request) (s : Site) → Step (db_of s) (db_of (serve_request q s))
  round : (env : BlockParser.Env) (p : Parser) → Step p.db (run_round env p).db
  tick : (env : Timer.Env) (d : Db) → Step d (check_rejected env d).1
  one : (x : Statement) (d : Db) → Step d (run_statement x d).1
  -- a statement that reads, or that is about another table
  elsewhere : (d d' : Db) → d'.pendings ≡ d.pendings → Step d d'

pub data Steps : Db → Db → Type 0 where
  here : (d : Db) → Steps d d
  next : (d d' d'' : Db) → Step d d' → Steps d' d'' → Steps d d''

run_statement-Evolves : (x : Statement) (d : Db) → Evolves d.pendings (run_statement x d).1.pendings
unfolding run_statement
run_statement-Evolves (creates row) d =
    (create_pending-EvolvesFrom d.pendings row).at d (Evolves-refl d.pendings)
run_statement-Evolves (confirms id number timestamp) d =
    (update_pending_to_confirm-EvolvesFrom d.pendings id number timestamp).at d
      (Evolves-refl d.pendings)
run_statement-Evolves (rejects timestamp) d =
    (update_pending_to_rejected-EvolvesFrom d.pendings timestamp).at d (Evolves-refl d.pendings)
run_statement-Evolves (settles action outpoint number timestamp) d =
    (update_pending_status_to_confirm-EvolvesFrom d.pendings action outpoint number timestamp).at d
      (Evolves-refl d.pendings)

Step-Evolves : (d d' : Db) → Step d d' → Evolves d.pendings d'.pendings
Step-Evolves _ _ (request q s) = serve_request-Evolves q s
Step-Evolves _ _ (round env p) =
    run_round-EvolvesFrom p.db.pendings env p (Evolves-refl p.db.pendings)
Step-Evolves _ _ (tick env d) =
    (check_rejected-EvolvesFrom d.pendings env).at d (Evolves-refl d.pendings)
Step-Evolves _ _ (one x d) = run_statement-Evolves x d
Step-Evolves _ _ (elsewhere d d' same) =
    subst (Evolves d.pendings) (sym same) (Evolves-refl d.pendings)

-- However requests, rounds of the parser, runs of checkRejected and single statements of these follow
-- each other, and whatever the node, the libraries, redis and the database answer: every pending row
-- stays in its place, with its id, its action and its outpoint; a confirmed row stays confirmed, and a
-- rejected one stays rejected or is confirmed; new rows come behind it; and if no two rows have the same
-- action and outpoint, that stays so.
pub Steps-Evolves : (d d' : Db) → Steps d d' → Evolves d.pendings d'.pendings
Steps-Evolves _ _ (here d) = Evolves-refl d.pendings
Steps-Evolves _ _ (next d d' d'' step steps) =
    Evolves-trans d.pendings d'.pendings d''.pendings (Step-Evolves d d' step)
      (Steps-Evolves d' d'' steps)

-- Once a look-up by the hash of a transaction has found a row, it finds one with the same id, action and
-- outpoint after any steps of the service, if its statement does not fail: confirmed if it was confirmed,
-- and not pending again if it was rejected.
pub get_tx_status_by_outpoint-Steps :
    (tx_hash : String) (d d' e : Db) (r : PendingInfo)
    → Steps d d'
    → get_tx_status_by_outpoint tx_hash d ≡ (ok r, e)
    → d'.faults ≡ []
    → (r' : PendingInfo) × (get_tx_status_by_outpoint tx_hash d' ≡ (ok r', d')) × Later r r'
get_tx_status_by_outpoint-Steps tx_hash d d' e r steps found quiet =
    let (r', hit, later) =
      find_first-Evolves (λ p. str_eq p.outpoint (string_append tx_hash "-0"))
        (λ s s' l. ap (λ o. str_eq o (string_append tx_hash "-0")) l.same_outpoint) d.pendings
        d'.pendings r (Steps-Evolves d d' steps) (found_row tx_hash d e r found) in
    (r', row_found tx_hash d' r' quiet hit, later)
