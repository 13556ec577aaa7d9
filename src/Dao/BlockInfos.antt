-- ===== src/Dao/BlockInfos.antt =====
-- dao/t_block_parser_info.go: the table of the blocks that the parser has been through.
-- Its unique index is (parser_type, block_number), so at most one row answers a lookup.
use das_multi_device.Prelude.{
  ℕ, String, ◌≡◌, refl, Bool, false, not, ◌&&◌, Option, none, some, List, [], ◌∷◌, ◌++◌, arith, ltb,
  ◌==◌, if◌then◌else◌, select, find_first, update_where,
}
use das_multi_device.Outcome.{Error, Exec}
use das_multi_device.Dao.{BlockInfo, Db, query, execute}

abbrev is_at : ℕ → ℕ → BlockInfo → Bool
is_at t n r = r.parser_type == t && r.block_number == n

-- The row for a number.
unfoldable pub block_at : ℕ → ℕ → List BlockInfo → Option BlockInfo
unfolding find_first
block_at t n rows = find_first (is_at t n) rows

-- The row with the highest number.
unfoldable pub later : BlockInfo → Option BlockInfo → BlockInfo
later r none = r
later r (some s) = if ltb r.block_number s.block_number then s else r

unfoldable pub latest : ℕ → List BlockInfo → Option BlockInfo
unfolding later
latest t [] = none
latest t (r ∷ rows) =
    let rest = latest t rows in if r.parser_type == t then some (later r rest) else rest

-- INSERT ... ON DUPLICATE KEY UPDATE block_hash, parent_hash
insert_or_update : BlockInfo → Option BlockInfo → List BlockInfo → List BlockInfo
unfolding update_where
insert_or_update new none rows = rows ++ new ∷ []
insert_or_update new (some _) rows =
    update_where (is_at new.parser_type new.block_number)
      (λ r. record r { block_hash = new.block_hash; parent_hash = new.parent_hash }) rows

unfoldable pub upsert : BlockInfo → List BlockInfo → List BlockInfo
unfolding insert_or_update block_at
upsert new rows = insert_or_update new (block_at new.parser_type new.block_number rows) rows

unfoldable pub without_below : ℕ → ℕ → List BlockInfo → List BlockInfo
unfolding select
without_below t n rows = select (λ r. not (r.parser_type == t && ltb r.block_number n)) rows

unfoldable pub find_block_info : ℕ → Exec Db Error (Option BlockInfo)
unfolding query latest
find_block_info t = query (λ db. latest t db.block_infos)

unfoldable pub find_block_info_by_block_number : ℕ → ℕ → Exec Db Error (Option BlockInfo)
unfolding query
find_block_info_by_block_number t n = query (λ db. block_at t n db.block_infos)

unfoldable pub create_block_info : ℕ → ℕ → String → String → Exec Db Error Unit
unfolding execute
create_block_info t n hash parent = execute (λ db. record db {
  block_infos =
      upsert (record { parser_type = t; block_number = n; block_hash = hash; parent_hash = parent })
        db.block_infos;
})

unfoldable pub delete_block_info : ℕ → ℕ → Exec Db Error Unit
unfolding execute
delete_block_info t n = execute (λ db. record db { block_infos = without_below t n db.block_infos })

module _ (new : BlockInfo) where
  abbrev own : ℕ → List BlockInfo → Option BlockInfo
  own k rows = block_at new.parser_type k rows

  own-append :
      (k : ℕ) (rows : List BlockInfo)
      → own new.block_number rows ≡ none
      → own k (rows ++ new ∷ []) ≡ (if k == new.block_number then some new else own k rows)
  unfolding block_at
  own-append k [] a = ground arith
  own-append k (r ∷ rows) a = ground (arith, own-append k rows)

  abbrev refreshed : List BlockInfo → List BlockInfo
  refreshed rows =
      update_where (is_at new.parser_type new.block_number)
        (λ r. record r { block_hash = new.block_hash; parent_hash = new.parent_hash }) rows

  own-refreshed_ne :
      (k : ℕ) (rows : List BlockInfo)
      → (k == new.block_number) ≡ false
      → own k (refreshed rows) ≡ own k rows
  unfolding block_at update_where
  own-refreshed_ne k [] ne = refl
  own-refreshed_ne k (s ∷ rows) ne = ground (arith, own-refreshed_ne k rows ne)

  own-refreshed :
      (k : ℕ) (rows : List BlockInfo) {r : BlockInfo}
      → own new.block_number rows ≡ some r
      → own k (refreshed rows) ≡ (if k == new.block_number then some new else own k rows)
  unfolding block_at update_where
  own-refreshed k [] f = cc
  own-refreshed k (s ∷ rows) {r} f =
      ground (arith, own-refreshed k rows {r = r}, own-refreshed_ne k rows)

  own-insert :
      (k : ℕ) (rows : List BlockInfo) (o : Option BlockInfo)
      → own new.block_number rows ≡ o
      → own k (insert_or_update new o rows)
        ≡ (if k == new.block_number then some new else own k rows)
  unfolding insert_or_update
  own-insert k rows none f = own-append k rows f
  own-insert k rows (some r) f = own-refreshed k rows f

  -- A created row answers for its number, and no other number is touched.
  pub block_at-upsert :
      (k : ℕ) (rows : List BlockInfo)
      → block_at new.parser_type k (upsert new rows)
        ≡ (if k == new.block_number then some new else block_at new.parser_type k rows)
  unfolding upsert
  block_at-upsert k rows = own-insert k rows _ refl

-- The rows below the bound are gone, and no other row is.
pub block_at-without_below :
    (t k n : ℕ) (rows : List BlockInfo)
    → block_at t k (without_below t n rows) ≡ (if ltb k n then none else block_at t k rows)
unfolding block_at without_below
block_at-without_below t k n [] = ground arith
block_at-without_below t k n (r ∷ rows) = ground (arith, block_at-without_below t k n rows)
