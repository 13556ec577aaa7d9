-- ===== src/Dao/DeviceNotes.antt =====
-- dao/t_avatar_notes.go, less the update that the parser runs: notes of a backup device, by the cids of its
-- master and of the device, which are unique together. No handler calls these statements.
use das_multi_device.Prelude.{
  String, Bool, true, false, ◌&&◌, Option, none, some, List, [], ◌∷◌, ◌++◌, ◌≡◌, refl, ◌∙◌, ap,
  arith, str_eq, eq_iff, if◌then◌else◌, find_first, update_where,
}
use das_multi_device.Outcome.{Error, plain, ok, err, Exec}
use das_multi_device.Dao.{AvatarNotes, confirm, Db, statement, query}

abbrev pub is_pair : String → String → AvatarNotes → Bool
is_pair master slave r = str_eq r.master_cid master && str_eq r.slave_cid slave

unfoldable pub find_notes : String → String → List AvatarNotes → Option AvatarNotes
unfolding find_first
find_notes master slave = find_first (is_pair master slave)

-- clause.AssignmentColumns: the columns that a row with the same pair takes over.
abbrev pub assigned : AvatarNotes → AvatarNotes → AvatarNotes
assigned n r = record r { avatar = n.avatar; notes = n.notes; outpoint = n.outpoint }

insert_or_assign : AvatarNotes → Option AvatarNotes → List AvatarNotes → List AvatarNotes
unfolding update_where
insert_or_assign n none rows = rows ++ n ∷ []
insert_or_assign n (some r) rows = update_where (is_pair n.master_cid n.slave_cid) (assigned n) rows

unfoldable pub upsert_notes : AvatarNotes → List AvatarNotes → List AvatarNotes
unfolding insert_or_assign find_notes
upsert_notes n rows = insert_or_assign n (find_notes n.master_cid n.slave_cid rows) rows

unfoldable pub upsert_notes_all : List AvatarNotes → List AvatarNotes → List AvatarNotes
unfolding upsert_notes
upsert_notes_all [] rows = rows
upsert_notes_all (n ∷ ns) rows = upsert_notes_all ns (upsert_notes n rows)

-- gorm refuses to create no row at all; the rows of one call are written together.
unfoldable pub create_avatar_notes : List AvatarNotes → Exec Db Error Unit
unfolding statement upsert_notes_all
create_avatar_notes [] = statement (λ db. (err (plain "empty slice found"), db))
create_avatar_notes (n ∷ ns) =
    statement
      (λ db. (ok tt, record db { avatar_notes = upsert_notes_all (n ∷ ns) db.avatar_notes }))

abbrev is_confirmed : AvatarNotes → Bool
is_confirmed r = elim r.status [ confirm ↦ true | _ ↦ false ]

unfoldable pub get_avatar_notes : String → String → Exec Db Error (Option AvatarNotes)
unfolding query find_first
get_avatar_notes master slave =
    query (λ db. find_first (λ r. is_pair master slave r && is_confirmed r) db.avatar_notes)

-- What the statement leaves for a pair, from what was there.
abbrev pub written : String → String → AvatarNotes → Option AvatarNotes → Option AvatarNotes
written master slave n none = if is_pair master slave n then some n else none
written master slave n (some r) = some (if is_pair master slave n then assigned n r else r)

abbrev pub written_all :
    String → String → List AvatarNotes → Option AvatarNotes → Option AvatarNotes
written_all master slave [] found = found
written_all master slave (n ∷ ns) found = written_all master slave ns (written master slave n found)

module _ (master slave : String) (n : AvatarNotes) where
  find_notes-insert :
      (rows : List AvatarNotes)
      → find_notes master slave (rows ++ n ∷ []) ≡ elim (find_notes master slave rows) [
        | none ↦ (if is_pair master slave n then some n else none)
        | some r ↦ some r
      ]
  unfolding find_notes find_first
  find_notes-insert [] = ground arith
  find_notes-insert (r ∷ rows) = ground (arith, find_notes-insert rows)

  find_notes-assign :
      (rows : List AvatarNotes)
      → find_notes master slave (update_where (is_pair n.master_cid n.slave_cid) (assigned n) rows)
        ≡ elim (find_notes master slave rows) [
          | none ↦ none
          | some r ↦ some (if is_pair master slave n then assigned n r else r)
        ]
  unfolding find_notes find_first update_where
  find_notes-assign [] = refl
  find_notes-assign (r ∷ rows) = ground (
    arith,
    find_notes-assign rows,
    eq_iff r.master_cid master,
    eq_iff r.slave_cid slave,
    eq_iff r.master_cid n.master_cid,
    eq_iff r.slave_cid n.slave_cid,
    eq_iff n.master_cid master,
    eq_iff n.slave_cid slave,
  )

  find_notes-other :
      (rows : List AvatarNotes)
      → is_pair master slave n ≡ true
      → find_notes n.master_cid n.slave_cid rows ≡ find_notes master slave rows
  find_notes-other rows h = ground (arith, h, eq_iff n.master_cid master, eq_iff n.slave_cid slave)

  find_notes-upsert_notes :
      (rows : List AvatarNotes)
      → find_notes master slave (upsert_notes n rows)
        ≡ written master slave n (find_notes master slave rows)
  unfolding upsert_notes insert_or_assign
  find_notes-upsert_notes rows =
      ground (arith, find_notes-insert rows, find_notes-assign rows, find_notes-other rows)

-- After one call, the row of a pair has the avatar, the notes and the outpoint of the last of its
-- rows that names the pair, and else what it had; a pair that had no row has the first of its rows
-- that names it, with those of the last.
pub find_notes-upsert_notes_all :
    (master slave : String) (ns rows : List AvatarNotes)
    → find_notes master slave (upsert_notes_all ns rows)
      ≡ written_all master slave ns (find_notes master slave rows)
unfolding upsert_notes_all
find_notes-upsert_notes_all master slave [] rows = refl
find_notes-upsert_notes_all master slave (n ∷ ns) rows =
    find_notes-upsert_notes_all master slave ns (upsert_notes n rows)
    ∙ ap (written_all master slave ns) (find_notes-upsert_notes master slave n rows)
