-- ===== src/OldCid/Interleaved.antt =====
-- http_server/handle/upgradeCid.go: requests to cover a cid that interleave between reading the file
-- and writing it. Gin serves each request in a goroutine of its own, and nothing locks the file.
use das_multi_device.Prelude.{
  String, true, false, not, Option, none, some, List, [], ◌∷◌, ◌≡◌, arith, str_eq, eq_iff,
  find_first, select,
}
use das_multi_device.Outcome.{on_err, ◌>>=◌}
use das_multi_device.Api.{Handled, untouched}
use das_multi_device.OldCid.{
  OldCid, CidFile, has_uncovered, update_old_cid, write_cover, run_silent, do_cover_cid,
  cover_cid_body, get_old_cid,
}
use das_multi_device.OldCid.Laws.{has_uncovered-cover}

-- The file, what the requests under way have read, and the answers of those that ended.
pub record Shared : Type 0 where
  pub file : CidFile
  pub reads : List (String × List OldCid)
  pub answers : List (String × Handled Unit)

pub data Turn : Type 0 where
  begin finish : String → Turn

unfoldable pub end_request : String → Option (String × List OldCid) → Shared → Shared
end_request cid none s = s
end_request cid (some request) s = record {
  file = (run_silent (write_cover cid request.1) s.file).1;
  reads = select (λ r. not (str_eq r.0 cid)) s.reads;
  answers = (cid, (run_silent (write_cover cid request.1) s.file).0) ∷ s.answers;
}

unfoldable pub turn : Turn → Shared → Shared
unfolding end_request
turn (begin cid) s = record s { reads = (cid, s.file.old_cids) ∷ s.reads }
turn (finish cid) s = end_request cid (find_first (λ r. str_eq r.0 cid) s.reads) s

unfoldable pub turns : List Turn → Shared → Shared
unfolding turn
turns [] s = s
turns (t ∷ ts) s = turns ts (turn t s)

-- A request that no other one interrupts is doCoverCid.
pub turns-do_cover_cid :
    (cid : String) (file : CidFile)
    → (turns (begin cid ∷ finish cid ∷ []) (record { file = file; reads = []; answers = [] })).file
      ≡ (do_cover_cid cid file).1
unfolding turns turn end_request find_first do_cover_cid cover_cid_body get_old_cid run_silent
    write_cover update_old_cid ◌>>=◌ on_err
turns-do_cover_cid cid file = ground (arith, eq_iff cid cid)

-- When two requests cover two cids and both read the file before either writes it, both succeed, and
-- the cid whose request writes first is as uncovered as before.
pub cover_lost :
    (a b : String) (file : CidFile)
    → file.write_fault ≡ none
    → has_uncovered a file.old_cids ≡ true
    → has_uncovered b file.old_cids ≡ true
    → str_eq a b ≡ false
    → (has_uncovered a
          (turns
            (begin a ∷ begin b ∷ finish a ∷ finish b ∷ [])
            (record { file = file; reads = []; answers = [] })).file.old_cids
        ≡ true)
      × ((turns
            (begin a ∷ begin b ∷ finish a ∷ finish b ∷ [])
            (record { file = file; reads = []; answers = [] })).answers
          ≡ (b, untouched none) ∷ (a, untouched none) ∷ [])
unfolding turns turn end_request find_first select run_silent write_cover update_old_cid ◌>>=◌
    on_err
cover_lost a b file f ha hb differ =
    let kept = has_uncovered-cover a b file.old_cids in
    ground (arith, eq_iff a b, eq_iff b a, eq_iff a a, eq_iff b b, kept)
